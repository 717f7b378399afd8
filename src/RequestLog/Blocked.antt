-- ===== src/RequestLog/Blocked.antt =====
-- What the middleware of src/request_log.rs does with the requests of banned clients.
use Prim.Native.String.{String}
use hifi_api_rust.Base.{
  ℕ, ◌+◌, ◌≤◌, ◌<◌, ◌≡◌, length, refl, ◌∙◌, Bool, true, List, [], Option, some, ltb, if◌then◌else◌,
  arith, Bool-cases, inl, inr,
}
use hifi_api_rust.Playback.Job.{LoggedAccount}
use hifi_api_rust.Lockout.{seconds_left}
use hifi_api_rust.Lockout.Invariant.{IsValid}
use hifi_api_rust.Lockout.Ban.{HasBan}
use hifi_api_rust.ScannerGuard
use hifi_api_rust.ScannerGuard.Safety.{run, ban-holds}
use hifi_api_rust.RequestLog.Entry.{LogEntry, no_counts, counts_of, traffic_of}
use hifi_api_rust.RequestLog.Log.{
  RequestLog, RequestRate, record_entry, sum_buckets, rate_window_seconds, request_rates_at,
  rate_of, in_recent, in_window,
}
use hifi_api_rust.RequestLog.Window.{record_entry-sum, zero_add_counts}
use hifi_api_rust.RequestLog.Paths.{should_log_path}
use hifi_api_rust.RequestLog.Handler.{
  Answer, Incoming, Middleware, blocked, entry_of, take_error_detail, log_answer, log_requests,
}

counts_of_rejected : (e : LogEntry) → e.rejected ≡ true → counts_of e ≡ no_counts
unfolding counts_of traffic_of
counts_of_rejected e h = rw h (ground arith)

rejected-sum :
    (p : ℕ → Bool) (e : LogEntry) (log : RequestLog)
    → e.rejected ≡ true
    → ((s : ℕ) → p s ≡ true → ltb e.ts (s + rate_window_seconds) ≡ true)
    → sum_buckets p (record_entry e log).requests_per_second ≡ sum_buckets p log.requests_per_second
rejected-sum p e log h c =
    let sum = sum_buckets p log.requests_per_second in
    record_entry-sum p e log c ∙ elim (Bool-cases (p e.ts)) [
      | inl k ↦ rw (k, counts_of_rejected e h) (zero_add_counts sum)
      | inr k ↦ rw k refl
    ]

-- The sums of a class over 5 and over 60 seconds.
abbrev pub SameSums : RequestRate → RequestRate → Type 0
SameSums r r' = (r'.now_sum ≡ r.now_sum) × (r'.window_sum ≡ r.window_sum)

abbrev pub SameRates : ℕ → RequestLog → RequestLog → Type 0
SameRates now before after =
    let r = request_rates_at now before in
    let r' = request_rates_at now after in
    SameSums r.all r'.all
    × SameSums r.playback r'.playback
    × SameSums r.search r'.search
    × SameSums r.catalog r'.catalog
    × SameSums r.cached r'.cached
    × (r'.throttled_60s ≡ r.throttled_60s)

module _ (decode : List ℕ → List ℕ) (parse : List ℕ → List (List ℕ × List ℕ))
    (json_detail : String → Option String) (trimmed : String → String) where
  log_answer-blocked :
      (q : Incoming) (log : RequestLog)
      → let r = log_answer decode parse json_detail trimmed q blocked [] log in
        (r.0.status ≡ 403)
        × (r.1.total_requests ≡ log.total_requests + (if should_log_path q.path then 1 else 0))
        × ((p : ℕ → Bool)
            → ((s : ℕ) → p s ≡ true → ltb q.ts (s + rate_window_seconds) ≡ true)
            → sum_buckets p r.1.requests_per_second ≡ sum_buckets p log.requests_per_second)
  unfolding log_answer take_error_detail
  log_answer-blocked q log = elim (Bool-cases (should_log_path q.path)) [
    | inl e ↦ rw e (
      refl,
      refl,
      λ p c.
          let r = take_error_detail json_detail trimmed blocked in
          rejected-sum p (entry_of decode parse json_detail trimmed q r.0 [] r.1) log refl c,
    )
    | inr e ↦ rw e (refl, omega arith, λ p c. refl)
  ]

  -- A request of an address that the scanner guard bans, before the ban's end, never reaches the rest
  -- of the server, whose state stays as it was, whatever it would do. It is answered with 403, the
  -- total grows by one if its path is logged, and none of the rates over 5 and over 60 seconds and
  -- not the number of 429s changes, at any time from the request's on. The counts of single seconds,
  -- of the history and the peaks, are not among them.
  pub log_requests-blocked :
      {S : Type 0} (q : Incoming) (next : S → S × (Answer × List LoggedAccount)) (s : S)
      (m : Middleware) (until : ℕ)
      → IsValid ScannerGuard.probe_policy m.scanner_guard
      → HasBan q.ip until m.scanner_guard
      → length m.scanner_guard.ips ≤ ScannerGuard.probe_policy.max_ips
      → q.start < until
      → let r = log_requests decode parse json_detail trimmed q next s m in
        (r.0 ≡ s)
        × (r.2.status ≡ 403)
        × (r.1.request_log.total_requests
            ≡ m.request_log.total_requests + (if should_log_path q.path then 1 else 0))
        × ((now : ℕ) → q.ts ≤ now → SameRates now m.request_log r.1.request_log)
  unfolding log_requests request_rates_at rate_of run
  log_requests-blocked q next s m until v b room early =
      let h : (ScannerGuard.check decode q.ip q.path q.start m.scanner_guard).1
          ≡ some (seconds_left until q.start) =
        ban-holds decode q.ip until [] q.path q.start m.scanner_guard v b tt (omega (arith, room))
          early in
      let logged = log_answer-blocked q m.request_log in
      rw (log_requests, h)
        (
          refl,
          logged.0,
          logged.1,
          λ now later.
              let recent = logged.2 (in_recent now) (λ at e. ground arith) in
              let window = logged.2 (in_window now) (λ at e. ground arith) in
              rw (request_rates_at, rate_of, recent, window)
                ((refl, refl), (refl, refl), (refl, refl), (refl, refl), (refl, refl), refl),
        )
