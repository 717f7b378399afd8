-- ===== src/RequestLog/Window.antt =====
-- The rates of src/request_log.rs against the whole history of requests.
use hifi_api_rust.Base.{
  ℕ, ◌+◌, ◌≤◌, ◌<◌, ◌≡◌, refl, ap, sym, ◌∙◌, Bool, true, List, [], ◌∷◌, ltb, ◌==◌, if◌then◌else◌,
  keep, arith, Bool-cases, inl, inr, All,
}
use hifi_api_rust.RequestLog.Entry.{
  LogEntry, SecondCounts, no_counts, counts_of, add_counts, upstream,
}
use hifi_api_rust.RequestLog.Log.{
  Bucket, RequestLog, RequestRate, empty_log, count_in, is_kept, record_entry, record_all,
  sum_buckets, in_window, in_recent, request_rates_at, rate_of, rate_window_seconds,
}

-- The reference: the counts of all requests whose second passes the test.
unfoldable pub sum_requests : (ℕ → Bool) → List LogEntry → SecondCounts
unfolding add_counts
sum_requests p [] = no_counts
sum_requests p (e ∷ es) =
    let others = sum_requests p es in if p e.ts then add_counts (counts_of e) others else others

add_counts_assoc :
    (a b c : SecondCounts) → add_counts (add_counts a b) c ≡ add_counts a (add_counts b c)
unfolding add_counts
add_counts_assoc a b c = ground arith

add_counts_left_comm :
    (a b c : SecondCounts) → add_counts a (add_counts b c) ≡ add_counts b (add_counts a c)
unfolding add_counts
add_counts_left_comm a b c = ground arith

-- Counting a request adds its counts to every sum that covers its second.
sum_buckets-count_in :
    (p : ℕ → Bool) (ts : ℕ) (c : SecondCounts) (bs : List Bucket)
    → sum_buckets p (count_in ts c bs)
      ≡ (if p ts then add_counts c (sum_buckets p bs) else sum_buckets p bs)
unfolding sum_buckets count_in
sum_buckets-count_in p ts c [] = refl
sum_buckets-count_in p ts c ((s, d) ∷ bs) =
    let sum = sum_buckets p bs in
    let merged = add_counts_assoc d c sum ∙ add_counts_left_comm d c sum in
    let ih = sum_buckets-count_in p ts c bs in
    elim (Bool-cases (s == ts)) [
      | inl e ↦ let same : s ≡ ts = ground arith in ground (arith, merged, ap p same)
      | inr e ↦ ground (arith, ih, add_counts_left_comm c d sum)
    ]

sum_buckets-keep :
    (p q : ℕ → Bool) (bs : List Bucket)
    → ((s : ℕ) → p s ≡ true → q s ≡ true)
    → sum_buckets p (keep (λ b. q b.0) bs) ≡ sum_buckets p bs
unfolding sum_buckets
sum_buckets-keep p q [] h = refl
sum_buckets-keep p q ((s, d) ∷ bs) h = ground (arith, sum_buckets-keep p q bs h, h s)

-- The seconds of the test are all within the minute before every recorded request.
abbrev pub IsCovered : (ℕ → Bool) → List LogEntry → Type 0
IsCovered p es = All (λ e. (s : ℕ) → p s ≡ true → ltb e.ts (s + rate_window_seconds) ≡ true) es

pub zero_add_counts : (a : SecondCounts) → add_counts no_counts a ≡ a
unfolding add_counts
zero_add_counts a = ground arith

pub add_counts_zero : (a : SecondCounts) → add_counts a no_counts ≡ a
unfolding add_counts
add_counts_zero a = ground arith

pub record_entry-sum :
    (p : ℕ → Bool) (e : LogEntry) (log : RequestLog)
    → ((s : ℕ) → p s ≡ true → ltb e.ts (s + rate_window_seconds) ≡ true)
    → sum_buckets p (record_entry e log).requests_per_second ≡ (
        if p e.ts
        then add_counts (counts_of e) (sum_buckets p log.requests_per_second)
        else sum_buckets p log.requests_per_second)
unfolding record_entry
record_entry-sum p e log c =
    let kept =
      sum_buckets-keep p (λ s. ltb e.ts (s + rate_window_seconds)) log.requests_per_second c in
    sum_buckets-count_in p e.ts (counts_of e) (keep (is_kept e.ts) log.requests_per_second)
    ∙ ap (λ sum. if p e.ts then add_counts (counts_of e) sum else sum) kept

record_all-sum :
    (p : ℕ → Bool) (es : List LogEntry) (log : RequestLog)
    → IsCovered p es
    → sum_buckets p (record_all es log).requests_per_second
      ≡ add_counts (sum_requests p es) (sum_buckets p log.requests_per_second)
unfolding record_all sum_requests
record_all-sum p [] log c = sym (zero_add_counts (sum_buckets p log.requests_per_second))
record_all-sum p (e ∷ es) log c =
    let before = sum_buckets p log.requests_per_second in
    let ih = record_all-sum p es (record_entry e log) c.1 in
    let one = record_entry-sum p e log c.0 in
    let moved =
      add_counts_left_comm (sum_requests p es) (counts_of e) before
      ∙ sym (add_counts_assoc (counts_of e) (sum_requests p es) before) in
    ih
    ∙ ap (add_counts (sum_requests p es)) one
    ∙ elim (Bool-cases (p e.ts)) [ inl h ↦ rw h moved | inr h ↦ rw h refl ]

-- From the empty log the buckets hold what the history holds.
pub record_all-exact :
    (p : ℕ → Bool) (es : List LogEntry)
    → IsCovered p es
    → sum_buckets p (record_all es empty_log).requests_per_second ≡ sum_requests p es
unfolding sum_buckets
record_all-exact p es c = record_all-sum p es empty_log c ∙ add_counts_zero (sum_requests p es)

pub All-IsCovered :
    (p : ℕ → Bool) (now : ℕ) (es : List LogEntry)
    → ((s : ℕ) → p s ≡ true → now < s + rate_window_seconds)
    → All (λ e. e.ts ≤ now) es
    → IsCovered p es
All-IsCovered p now [] h a = tt
All-IsCovered p now (e ∷ es) h a =
    (λ s k. let late = h s k in let early = a.0 in ground arith, All-IsCovered p now es h a.1)

-- The rate of a class, computed from the whole history.
abbrev pub IsRate : (SecondCounts → ℕ) → ℕ → List LogEntry → RequestRate → Type 0
IsRate class now es r =
    (r.now_sum ≡ class (sum_requests (in_recent now) es))
    × (r.window_sum ≡ class (sum_requests (in_window now) es))

rate_of-IsRate :
    (class : SecondCounts → ℕ) (now : ℕ) (es : List LogEntry)
    → All (λ e. e.ts ≤ now) es
    → IsRate class now es (rate_of class now (record_all es empty_log).requests_per_second)
unfolding rate_of
rate_of-IsRate class now es past = (
  ap class
      (record_all-exact (in_recent now) es (All-IsCovered _ now es (λ s h. ground arith) past)),
  ap class
      (record_all-exact (in_window now) es (All-IsCovered _ now es (λ s h. ground arith) past)),
)

-- The rates of the overview are those of the whole history of requests, although the log keeps only
-- its last 5000 entries and one minute of counts: for all requests that reach Tidal and for each
-- class the requests of the last 5 completed seconds and of the last 60 seconds, the cached ones and
-- the throttled ones. No request was recorded with a later time.
pub request_rates_at-exact :
    (now : ℕ) (es : List LogEntry)
    → All (λ e. e.ts ≤ now) es
    → let r = request_rates_at now (record_all es empty_log) in
      IsRate upstream now es r.all
      × IsRate (λ c. c.playback) now es r.playback
      × IsRate (λ c. c.search) now es r.search
      × IsRate (λ c. c.catalog) now es r.catalog
      × IsRate (λ c. c.cached) now es r.cached
      × (r.throttled_60s ≡ (sum_requests (in_window now) es).throttled)
unfolding request_rates_at
request_rates_at-exact now es past = (
  rate_of-IsRate upstream now es past,
  rate_of-IsRate (λ c. c.playback) now es past,
  rate_of-IsRate (λ c. c.search) now es past,
  rate_of-IsRate (λ c. c.catalog) now es past,
  rate_of-IsRate (λ c. c.cached) now es past,
  ap (λ c. c.throttled)
      (record_all-exact (in_window now) es (All-IsCovered _ now es (λ s h. ground arith) past)),
)
