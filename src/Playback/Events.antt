-- ===== src/Playback/Events.antt =====
-- Interleavings of the playback queue's code as lists of events.
use hifi_api_rust.Base.{ℕ, zero, suc, List, [], ◌∷◌, Option, none, some, String, text_eq}
use hifi_api_rust.Base.Dict.{get}
use hifi_api_rust.Playback.Ops.{PlaybackOp, TrackTiming}
use hifi_api_rust.Playback.Job.{JobResult, LoggedAccount}
use hifi_api_rust.Playback.Queue.{
  System, Worker, waiting, checked, admitted, running, unspawned, prune, dispatch, spawn_worker,
  disconnect,
}
use hifi_api_rust.Playback.Worker.{
  Outcome, finish_direct, worker_check, worker_acquire, worker_begin, worker_end,
}
use hifi_api_rust.Playback.Handlers.{poll, cancel_request, clear_queue}

pub data Event (Value : Type 0) : Type 0 where
  arrives :
      (now : ℕ) (hit : Option (JobResult Value)) (accounts per_account : ℕ) (id : String)
      (op : PlaybackOp) (key : Option String)
      → Event Value
  direct_ends :
      (op : PlaybackOp) (key : Option String) (t : TrackTiming) (out : Outcome Value) → Event Value
  -- The worker of the job, or the request that is to spawn it, goes on to its next wait.
  works :
      (id : String) (pool now : ℕ) (t : TrackTiming) (out : Outcome Value)
      (accounts : List LoggedAccount)
      → Event Value
  -- The client of a request that has not yet spawned its worker is gone.
  disconnects : (id : String) → Event Value
  polls cancels : (now : ℕ) (id : String) → Event Value
  clears reaps : (now : ℕ) → Event Value

module _ {Value : Type 0} where
  -- The stretch that a worker runs next.
  unfoldable pub work :
      (pool now : ℕ) (t : TrackTiming) (out : Outcome Value) (accounts : List LoggedAccount)
      → String
      → Worker
      → System Value
      → System Value
  work pool now t out accounts id w s = elim w.phase [
    | unspawned ↦ (spawn_worker id w s).0
    | waiting ↦ worker_check id w s
    | checked ↦ worker_acquire pool id w s
    | admitted ↦ worker_begin id w s
    | running ↦ worker_end now t out accounts id w s
  ]

module _ {Value : Type 0} (message : ℕ → ℕ → String) where
  -- An event of a worker that does not exist, or the end of a request that does not run, is none.
  unfoldable pub step : System Value → Event Value → System Value
  step s (arrives now hit accounts per_account id op key) =
      (dispatch message now hit accounts per_account id op key s).0
  step s (direct_ends op key t out) = elim s.direct [
    | zero ↦ s
    | suc n ↦ finish_direct op key t out s
  ]
  step s (works id pool now t out accounts) = elim (get text_eq id s.workers) [
    | none ↦ s
    | some w ↦ work pool now t out accounts id w s
  ]
  step s (disconnects id) = elim (get text_eq id s.workers) [
    | none ↦ s
    | some w ↦ disconnect id w s
  ]
  step s (polls now id) = poll now id s
  step s (cancels now id) = cancel_request now id s
  step s (clears now) = clear_queue now s
  step s (reaps now) = prune now s

  unfoldable pub run : List (Event Value) → System Value → System Value
  run [] s = s
  run (e ∷ es) s = run es (step s e)
