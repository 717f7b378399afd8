-- ===== src/Playback/Lifecycle/Runs.antt =====
-- What holds of the jobs after any schedule.
use hifi_api_rust.Base.{
  ℕ, zero, suc, ◌≡◌, refl, inl, inr, List, [], ◌∷◌, Option, String, text_eq, Option-cases,
}
use hifi_api_rust.Base.Dict.{get, modify-Distinct, map_values-Distinct}
use hifi_api_rust.Playback.Job.{touch, cancel, clear}
use hifi_api_rust.Playback.Queue.{System, init, prune}
use hifi_api_rust.Playback.Worker.{finish_direct}
use hifi_api_rust.Playback.Handlers.{poll, cancel_request, clear_queue}
use hifi_api_rust.Playback.Events.{
  Event, arrives, direct_ends, works, disconnects, polls, cancels, clears, reaps, step, run,
}
use hifi_api_rust.Playback.Lifecycle.{
  Coherent, touch-Fits, cancel-Fits, clear-Fits, map_values-AllFit, modify-AllFit, prune-Coherent,
}
use hifi_api_rust.Playback.Lifecycle.Steps.{disconnect-Coherent}
use hifi_api_rust.Playback.Lifecycle.Ends.{dispatch-Coherent, work-Coherent}

module _ {Value : Type 0} (message : ℕ → ℕ → String) where
  quiet-Coherent :
      (t s : System Value) → t.jobs ≡ s.jobs → t.workers ≡ s.workers → Coherent s → Coherent t
  quiet-Coherent t s ej ew c = record {
    jobs_distinct = rw ej c.jobs_distinct;
    workers_distinct = rw ew c.workers_distinct;
    fits = rw (ej, ew) c.fits;
  }

  handler-Coherent :
      (now : ℕ) (id : String) (s : System Value)
      → Coherent s
      → Coherent (poll now id s) × Coherent (cancel_request now id s) × Coherent (clear_queue now s)
  unfolding poll cancel_request clear_queue prune
  handler-Coherent now id s c =
      let p = prune-Coherent now s c in
      let jobs = (prune now s).jobs in
      (
        record {
          jobs_distinct = modify-Distinct text_eq id (touch now) jobs p.jobs_distinct;
          workers_distinct = p.workers_distinct;
          fits = modify-AllFit (touch now) (touch-Fits now) id jobs s.workers p.fits;
        },
        record {
          jobs_distinct = modify-Distinct text_eq id (cancel now) jobs p.jobs_distinct;
          workers_distinct = p.workers_distinct;
          fits = modify-AllFit (cancel now) (cancel-Fits now) id jobs s.workers p.fits;
        },
        record {
          jobs_distinct = map_values-Distinct text_eq (clear now) jobs p.jobs_distinct;
          workers_distinct = p.workers_distinct;
          fits = map_values-AllFit (clear now) (clear-Fits now) jobs s.workers p.fits;
        },
      )

  direct_ends-Coherent :
      (op : _) (key : Option String) (t : _) (out : _) (n : ℕ) (s : System Value)
      → s.direct ≡ n
      → Coherent s
      → Coherent (step message s (direct_ends op key t out))
  unfolding step finish_direct
  direct_ends-Coherent op key t out zero s e c = rw (e, step) c
  direct_ends-Coherent op key t out (suc n) s e c =
      rw (e, step) (quiet-Coherent (finish_direct op key t out s) s refl refl c)

  step-Coherent : (s : System Value) (e : Event Value) → Coherent s → Coherent (step message s e)
  unfolding step
  step-Coherent s (arrives now hit accounts per_account id op key) c =
      dispatch-Coherent message now hit accounts per_account id op key s c
  step-Coherent s (direct_ends op key t out) c = direct_ends-Coherent op key t out s.direct s refl c
  step-Coherent s (works id pool now t out accounts) c =
      elim (Option-cases (get text_eq id s.workers)) [
        | inl e ↦ rw (e, step) c
        | inr (w, e) ↦ rw (e, step) (work-Coherent id w s c e pool now t out accounts w.phase refl)
      ]
  step-Coherent s (disconnects id) c = elim (Option-cases (get text_eq id s.workers)) [
    | inl e ↦ rw (e, step) c
    | inr (w, e) ↦ rw (e, step) (disconnect-Coherent id w s c e w.phase refl)
  ]
  step-Coherent s (polls now id) c = (handler-Coherent now id s c).0
  step-Coherent s (cancels now id) c = (handler-Coherent now id s c).1
  step-Coherent s (clears now) c = (handler-Coherent now "" s c).2
  step-Coherent s (reaps now) c = prune-Coherent now s c

  run-Coherent_from :
      (es : List (Event Value)) (s : System Value) → Coherent s → Coherent (run message es s)
  unfolding run
  run-Coherent_from [] s c = c
  run-Coherent_from (e ∷ es) s c = run-Coherent_from es (step message s e) (step-Coherent s e c)

  -- After any schedule from the empty queue: no worker runs a pending job, which may have none, a
  -- processing job has a worker that runs it, and neither has an end time; a completed job has its
  -- result, a failed one its error, and neither has a worker any more; and every job that has ended
  -- has an end time, so that `prune_sync` removes it in the end and never removes a live one.
  pub run-Coherent : (es : List (Event Value)) → Coherent (run message es init)
  unfolding init get
  run-Coherent es =
      run-Coherent_from es init
        (record { jobs_distinct = tt; workers_distinct = tt; fits = λ k j h. cc })
