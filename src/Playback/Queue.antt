-- ===== src/Playback/Queue.antt =====
-- `PlaybackQueue` of src/playback.rs with everything that runs beside it: the requests that hold a
-- permit themselves, the workers of queued jobs, and the handlers of other requests. An `Event` is a
-- stretch of code between two waits, so a list of events is an interleaving. What the code reads
-- from outside (the clock, ready accounts, a fresh id, the answer cache, the result of the operation)
-- is an argument of the event. The wake-up of waiting workers is the schedule's choice here.
use hifi_api_rust.Base.{ℕ, ◌+◌, List, [], Option, none, some, String, max, text_eq, if◌then◌else◌}
use hifi_api_rust.Base.Dict.{insert, remove}
use hifi_api_rust.AppError.{AppError, accounts_busy}
use hifi_api_rust.Playback.Slots.{
  capacity, over_capacity, try_acquire, usize_max, saturating_mul, max_queue_factor,
}
use hifi_api_rust.Playback.Ops.{PlaybackOp, TrackTiming}
use hifi_api_rust.Playback.Job.{
  Job, JobResult, pending, is_pending, prune_sync, count_state, pending_position,
}

-- Where the worker of a job stands in `dispatch`'s spawned task.
pub data Phase : Type 0 where
  -- the job is in the table, and its request has not yet spawned the worker
  unspawned : Phase
  -- before the check for cancellation at the head of the loop
  waiting : Phase
  -- checked, before `try_acquire`
  checked : Phase
  -- holds a permit, before the job is marked as processing
  admitted : Phase
  -- holds a permit and runs the operation
  running : Phase

pub record Worker : Type 0 where
  pub op : PlaybackOp
  pub key : Option String
  pub phase : Phase

pub record System (Value : Type 0) : Type 0 where
  pub inflight : ℕ
  pub jobs : List (String × Job Value)
  pub timings : List TrackTiming
  pub cache_hits : ℕ
  -- what was handed to the answer cache, newest first
  pub stored : List (String × JobResult Value)
  -- requests of `dispatch` that hold a permit and run their operation
  pub direct : ℕ
  pub workers : List (String × Worker)

-- How `dispatch` goes on after its first stretch, and what it answers at the end of the second.
pub data Dispatched (Value : Type 0) : Type 0 where
  cached : JobResult Value → Dispatched Value
  started : Dispatched Value
  shed : AppError → Dispatched Value
  inserted : String → Dispatched Value
  queued : String → ℕ → Dispatched Value

-- The limit on running requests: `capacity(..).unwrap_or(usize::MAX)`.
unfoldable pub pool_of : ℕ → ℕ → ℕ
pool_of accounts per_account = elim (capacity accounts per_account) [
  | none ↦ usize_max
  | some n ↦ n
]

module _ {Value : Type 0} where
  unfoldable pub init : System Value
  init = record {
    inflight = 0;
    jobs = [];
    timings = [];
    cache_hits = 0;
    stored = [];
    direct = 0;
    workers = [];
  }

  abbrev pub new_job : String → ℕ → Job Value
  new_job id now = record {
    id = id;
    state = pending;
    result = none;
    error = none;
    error_status = 500;
    error_retry_after = none;
    created_at = now;
    finished_at = none;
    last_polled_at = now;
    accounts = [];
  }

  -- `self.prune()`
  unfoldable pub prune : ℕ → System Value → System Value
  prune now s = record s { jobs = prune_sync now s.jobs }

  -- The last part of `dispatch`'s first stretch, when no permit is free. `message` is the
  -- `format!` of the queue's length and limit behind `QUEUE_FULL`.
  unfoldable pub enqueue :
      (ℕ → ℕ → String)
      → ℕ
      → ℕ
      → String
      → PlaybackOp
      → Option String
      → System Value
      → System Value × Dispatched Value
  enqueue message pool now id op key s =
      let waiting_jobs = count_state is_pending s.jobs in
      if over_capacity waiting_jobs pool
      then (
        s,
        shed
            (accounts_busy (message waiting_jobs (saturating_mul (max pool 1) max_queue_factor)) 5),
      )
      else (
        record s {
          jobs = insert text_eq id (new_job id now) s.jobs;
          workers = insert text_eq id (record { op = op; key = key; phase = unspawned }) s.workers;
        },
        inserted id,
      )

  -- The second stretch, after the wait for the table of jobs: the position is read, and the worker is
  -- spawned.
  unfoldable pub spawn_worker : String → Worker → System Value → System Value × Dispatched Value
  spawn_worker id w s = (
    record s { workers = insert text_eq id (record w { phase = waiting }) s.workers },
    queued id (pending_position id s.jobs),
  )

  -- The request is dropped in that wait, since its client is gone: no worker is spawned.
  unfoldable pub disconnect : String → Worker → System Value → System Value
  disconnect id w s = elim w.phase [
    | unspawned ↦ record s { workers = remove text_eq id s.workers }
    | _ ↦ s
  ]

  -- `PlaybackQueue::dispatch` up to its first wait. `hit` is what the answer cache holds for `key`.
  -- The event is the moment of the last exchange in `try_acquire`, so that one reads the counter.
  unfoldable pub dispatch :
      (message : ℕ → ℕ → String) (now : ℕ) (hit : Option (JobResult Value))
      (accounts per_account : ℕ)
      → String
      → PlaybackOp
      → Option String
      → System Value
      → System Value × Dispatched Value
  dispatch message now hit accounts per_account id op key s =
      let t = prune now s in
      let pool = pool_of accounts per_account in
      elim hit [
        | some r ↦ (record t { cache_hits = t.cache_hits + 1 }, cached r)
        | none ↦ elim (try_acquire pool t.inflight []) [
          | some n ↦ (record t { inflight = n; direct = t.direct + 1 }, started)
          | none ↦ enqueue message pool now id op key t
        ]
      ]
