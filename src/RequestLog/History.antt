-- ===== src/RequestLog/History.antt =====
-- The cells of the history that the overview of src/request_log.rs draws.
use hifi_api_rust.Base.{
  ℕ, ◌+◌, ◌-◌, ◌≤◌, ◌<◌, ◌≡◌, refl, subst, ◌∙◌, Bool, false, List, [], ◌∷◌, ◌==◌, keep, arith,
  Bool-cases, inl, inr, All, ◌⊎◌,
}
use hifi_api_rust.RequestLog.Entry.{LogEntry, SecondCounts, no_counts, counts_of}
use hifi_api_rust.RequestLog.Log.{
  Bucket, RequestLog, empty_log, count_in, is_kept, record_entry, record_all, sum_buckets, cell,
  request_rates_at, rate_window_seconds,
}
use hifi_api_rust.RequestLog.Window.{sum_requests, record_all-exact, All-IsCovered, add_counts_zero}

-- No bucket is the second's.
abbrev Fresh : ℕ → List Bucket → Type 0
Fresh at bs = All (λ b. b.0 == at ≡ false) bs

-- No second has two buckets.
abbrev Distinct : List Bucket → Type 0
Distinct [] = Unit
Distinct (b ∷ bs) = Fresh b.0 bs × Distinct bs

cell-Fresh : (at : ℕ) (bs : List Bucket) (c : SecondCounts) → Fresh at bs → cell at bs c ≡ c
unfolding cell
cell-Fresh at [] c f = refl
cell-Fresh at ((s, d) ∷ bs) c f = rw (f.0) (cell-Fresh at bs c f.1)

sum_buckets-Fresh :
    (at : ℕ) (bs : List Bucket) → Fresh at bs → sum_buckets (λ s. s == at) bs ≡ no_counts
unfolding sum_buckets
sum_buckets-Fresh at [] f = refl
sum_buckets-Fresh at ((s, d) ∷ bs) f = rw (f.0) (sum_buckets-Fresh at bs f.1)

-- With one bucket for each second, the cell is the sum.
cell-Distinct :
    (at : ℕ) (bs : List Bucket) → Distinct bs → cell at bs no_counts ≡ sum_buckets (λ s. s == at) bs
unfolding cell sum_buckets
cell-Distinct at [] d = refl
cell-Distinct at ((s, c) ∷ bs) d = elim (Bool-cases (s == at)) [
  | inl e ↦
      let same : s ≡ at = ground arith in
      let fresh : Fresh at bs = subst (λ x. Fresh x bs) same d.0 in
      rw (e, cell-Fresh at bs c fresh, sum_buckets-Fresh at bs fresh, add_counts_zero c) refl
  | inr e ↦ rw e (cell-Distinct at bs d.1)
]

count_in-Fresh :
    (at ts : ℕ) (c : SecondCounts) (bs : List Bucket)
    → ts == at ≡ false
    → Fresh at bs
    → Fresh at (count_in ts c bs)
unfolding count_in
count_in-Fresh at ts c [] n f = (n, tt)
count_in-Fresh at ts c ((s, d) ∷ bs) n f = elim (Bool-cases (s == ts)) [
  | inl e ↦ rw e f
  | inr e ↦ rw e (f.0, count_in-Fresh at ts c bs n f.1)
]

count_in-Distinct :
    (ts : ℕ) (c : SecondCounts) (bs : List Bucket) → Distinct bs → Distinct (count_in ts c bs)
unfolding count_in
count_in-Distinct ts c [] d = (tt, tt)
count_in-Distinct ts c ((s, k) ∷ bs) d = elim (Bool-cases (s == ts)) [
  | inl e ↦ rw e d
  | inr e ↦ rw e (count_in-Fresh s ts c bs (ground arith) d.0, count_in-Distinct ts c bs d.1)
]

keep-Fresh : (at : ℕ) (p : Bucket → Bool) (bs : List Bucket) → Fresh at bs → Fresh at (keep p bs)
keep-Fresh at p [] f = tt
keep-Fresh at p (b ∷ bs) f = elim (Bool-cases (p b)) [
  | inl e ↦ rw e (f.0, keep-Fresh at p bs f.1)
  | inr e ↦ rw e (keep-Fresh at p bs f.1)
]

keep-Distinct : (p : Bucket → Bool) (bs : List Bucket) → Distinct bs → Distinct (keep p bs)
keep-Distinct p [] d = tt
keep-Distinct p (b ∷ bs) d = elim (Bool-cases (p b)) [
  | inl e ↦ rw e (keep-Fresh b.0 p bs d.0, keep-Distinct p bs d.1)
  | inr e ↦ rw e (keep-Distinct p bs d.1)
]

record_all-Distinct :
    (es : List LogEntry) (log : RequestLog)
    → Distinct log.requests_per_second
    → Distinct (record_all es log).requests_per_second
unfolding record_all record_entry
record_all-Distinct [] log d = d
record_all-Distinct (e ∷ es) log d = record_all-Distinct es (record_entry e log) (
    count_in-Distinct e.ts (counts_of e) _ (keep-Distinct (is_kept e.ts) log.requests_per_second d))

strictly :
    (now : ℕ) (es : List LogEntry)
    → rate_window_seconds ≤ now
    → All (λ e. e.ts < now) es
    → All (λ e. e.ts ≤ now - 1) es
strictly now [] late a = tt
strictly now (e ∷ es) late a = (omega (arith, a.0), strictly now es late a.1)

kept-Fresh :
    (at ts : ℕ) (bs : List Bucket) → at + rate_window_seconds ≤ ts → Fresh at (keep (is_kept ts) bs)
kept-Fresh at ts [] h = tt
kept-Fresh at ts (b ∷ bs) h = elim (Bool-cases (is_kept ts b)) [
  | inl e ↦ rw e (ground arith, kept-Fresh at ts bs h)
  | inr e ↦ rw e (kept-Fresh at ts bs h)
]

-- The cell of a second from `now - 59` on has the counts of all requests of that second, and so has
-- the cell of `now - 60` as long as no request was recorded at `now` or later.
pub history-exact :
    (now index : ℕ) (es : List LogEntry)
    → rate_window_seconds ≤ now
    → index < rate_window_seconds
    → ((0 < index) × All (λ e. e.ts ≤ now) es) ⊎ All (λ e. e.ts < now) es
    → (request_rates_at now (record_all es empty_log)).history index
      ≡ sum_requests (λ second. second == now - rate_window_seconds + index) es
unfolding request_rates_at
history-exact now index es late inside past =
    let at = now - rate_window_seconds + index in
    let p : ℕ → Bool = λ second. second == at in
    cell-Distinct at _ (record_all-Distinct es empty_log tt)
    ∙ record_all-exact p es (elim past [
      | inl (positive, a) ↦ All-IsCovered p now es (λ s h. ground arith) a
      | inr a ↦ All-IsCovered p (now - 1) es (λ s h. ground arith) (strictly now es late a)
    ])

-- The cell of `now - 60` is empty as soon as a request is recorded at `now`, although requests of that
-- second were recorded and the history promises the last 60 completed seconds.
pub history-loses_oldest :
    (now : ℕ) (e : LogEntry) (log : RequestLog)
    → rate_window_seconds ≤ now
    → e.ts ≡ now
    → (request_rates_at now (record_entry e log)).history 0 ≡ no_counts
unfolding request_rates_at record_entry
history-loses_oldest now e log late at = cell-Fresh _ _ no_counts (
    count_in-Fresh _ e.ts (counts_of e) _ (ground arith)
      (kept-Fresh _ e.ts log.requests_per_second (omega arith)))
