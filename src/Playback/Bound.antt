-- ===== src/Playback/Bound.antt =====
-- The permits in use stay within the pool, and the queued jobs within the pool's size.
use hifi_api_rust.Base.{
  ℕ, ◌≤◌, inl, inr, List, [], ◌∷◌, Option, String, arith, text_eq, max, Option-cases,
}
use hifi_api_rust.Base.Dict.{get}
use hifi_api_rust.Playback.Slots.{try_acquire, release}
use hifi_api_rust.Playback.Job.{JobResult}
use hifi_api_rust.Playback.Queue.{
  System, Worker, prune, dispatch, enqueue, spawn_worker, disconnect, pool_of,
}
use hifi_api_rust.Playback.Worker.{
  finish_direct, worker_check, worker_acquire, worker_begin, worker_end,
}
use hifi_api_rust.Playback.Handlers.{poll, cancel_request, clear_queue}
use hifi_api_rust.Playback.Events.{
  Event, arrives, direct_ends, works, disconnects, polls, cancels, clears, reaps, work, step, run,
}

-- The event finds at most `limit` requests allowed at once.
abbrev pub Within : {Value : Type 0} → ℕ → Event Value → Type 0
Within limit (arrives now hit accounts per_account id op key) = pool_of accounts per_account ≤ limit
Within limit (works id pool now t out accounts) = pool ≤ limit
Within limit _ = Unit

abbrev pub AllWithin : {Value : Type 0} → ℕ → List (Event Value) → Type 0
AllWithin limit [] = Unit
AllWithin limit (e ∷ es) = Within limit e × AllWithin limit es

module _ {Value : Type 0} (message : ℕ → ℕ → String) (limit : ℕ) where
  dispatch-bound :
      (now : ℕ) (hit : Option (JobResult Value)) (accounts per_account : ℕ) (id : String) (op : _)
      (key : Option String) (s : System Value)
      → pool_of accounts per_account ≤ limit
      → s.inflight ≤ max limit 1
      → (dispatch message now hit accounts per_account id op key s).0.inflight ≤ max limit 1
  unfolding dispatch enqueue prune try_acquire
  dispatch-bound now hit accounts per_account id op key s h b = ground arith

  work-bound :
      (pool now : ℕ) (t : _) (out : _) (accounts : _) (id : String) (w : Worker) (s : System Value)
      → pool ≤ limit
      → s.inflight ≤ max limit 1
      → (work pool now t out accounts id w s).inflight ≤ max limit 1
  unfolding work spawn_worker worker_check worker_acquire worker_begin worker_end try_acquire
      release
  work-bound pool now t out accounts id w s h b = ground arith

  disconnect-bound :
      (id : String) (w : Worker) (s : System Value)
      → s.inflight ≤ max limit 1
      → (disconnect id w s).inflight ≤ max limit 1
  unfolding disconnect
  disconnect-bound id w s b = ground arith

  step-bound :
      (s : System Value) (e : Event Value)
      → Within limit e
      → s.inflight ≤ max limit 1
      → (step message s e).inflight ≤ max limit 1
  unfolding step poll cancel_request clear_queue prune finish_direct release
  step-bound s (arrives now hit accounts per_account id op key) h b =
      dispatch-bound now hit accounts per_account id op key s h b
  step-bound s (direct_ends op key t out) h b = ground arith
  step-bound s (works id pool now t out accounts) h b =
      elim (Option-cases (get text_eq id s.workers)) [
        | inl e ↦ rw (e, step) b
        | inr (w, e) ↦ rw (e, step) (work-bound pool now t out accounts id w s h b)
      ]
  step-bound s (disconnects id) h b = elim (Option-cases (get text_eq id s.workers)) [
    | inl e ↦ rw (e, step) b
    | inr (w, e) ↦ rw (e, step) (disconnect-bound id w s b)
  ]
  step-bound s (polls now id) h b = b
  step-bound s (cancels now id) h b = b
  step-bound s (clears now) h b = b
  step-bound s (reaps now) h b = b

  -- If no event of a schedule finds a limit above `limit`, there are never more than `limit`
  -- playback requests (or one, if it is 0) in flight, from any state where that holds.
  pub run-bound :
      (es : List (Event Value)) (s : System Value)
      → AllWithin limit es
      → s.inflight ≤ max limit 1
      → (run message es s).inflight ≤ max limit 1
  unfolding run
  run-bound [] s h b = b
  run-bound (e ∷ es) s h b = run-bound es (step message s e) h.1 (step-bound s e h.0 b)
