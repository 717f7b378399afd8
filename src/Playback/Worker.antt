-- ===== src/Playback/Worker.antt =====
-- The rest of `dispatch` in src/playback.rs: the end of a request that ran at once, and the worker of
-- a queued job, from one wait to the next.
use hifi_api_rust.Base.{
  ℕ, ◌-◌, Bool, true, false, List, [], ◌∷◌, Option, none, some, String, text_eq,
}
use hifi_api_rust.Base.Dict.{get, insert, remove, modify}
use hifi_api_rust.AppError.{AppError, timeout, rate_limited, accounts_busy, into_response, status}
use hifi_api_rust.Playback.Slots.{try_acquire, release}
use hifi_api_rust.Playback.Ops.{PlaybackOp, TrackTiming, record_timing}
use hifi_api_rust.Playback.Job.{
  Job, JobResult, LoggedAccount, processing, completed, failed, cancelled,
}
use hifi_api_rust.Playback.Queue.{System, Worker, Phase, waiting, checked, admitted, running}

-- How `tokio::time::timeout(.., run_op(..))` ends.
pub data Outcome (Value : Type 0) : Type 0 where
  done : JobResult Value → Outcome Value
  fails : AppError → Outcome Value
  times_out : Outcome Value

-- `app_error_parts`: the status and the text that a failed job keeps.
unfoldable pub app_error_parts : AppError → ℕ × String
unfolding into_response
app_error_parts e = (status e, (into_response e).detail)

abbrev pub retry_hint : AppError → Option ℕ
retry_hint (rate_limited secs) = some secs
retry_hint (accounts_busy d secs) = some secs
retry_hint _ = none

module _ {Value : Type 0} where
  -- `matches!(out, Ok(Ok(_)))`
  abbrev pub is_done : Outcome Value → Bool
  is_done (done r) = true
  is_done _ = false

  -- `if let (Some(key), Ok(Ok(result))) = (&cache_key, &out) { results.insert(..) }`
  abbrev pub store :
      Option String
      → Outcome Value
      → List (String × JobResult Value)
      → List (String × JobResult Value)
  store (some key) (done r) stored = (key, r) ∷ stored
  store _ _ stored = stored

  -- The end of a request that ran at once: its answer, and the permit back.
  unfoldable pub finish_direct :
      PlaybackOp → Option String → TrackTiming → Outcome Value → System Value → System Value
  finish_direct op key t out s = record s {
    inflight = release s.inflight;
    timings = record_timing op (is_done out) t s.timings;
    stored = store key out s.stored;
    direct = s.direct - 1;
  }

  abbrev drop_worker : String → System Value → System Value
  drop_worker id s = record s { workers = remove text_eq id s.workers }

  abbrev set_phase : String → Worker → Phase → System Value → System Value
  set_phase id w p s = record s { workers = insert text_eq id (record w { phase = p }) s.workers }

  -- The head of the worker's loop: stop if cancelled or forgotten while queued.
  unfoldable pub worker_check : String → Worker → System Value → System Value
  worker_check id w s = elim (get text_eq id s.jobs) [
    | none ↦ drop_worker id s
    | some j ↦ elim j.state [ cancelled ↦ drop_worker id s | _ ↦ set_phase id w checked s ]
  ]

  -- `queue.try_acquire(pool_now)`; without a permit the worker sleeps and starts over.
  unfoldable pub worker_acquire : ℕ → String → Worker → System Value → System Value
  worker_acquire pool id w s = elim (try_acquire pool s.inflight []) [
    | none ↦ set_phase id w waiting s
    | some n ↦ set_phase id w admitted (record s { inflight = n })
  ]

  -- The permit is held: mark the job as processing, or drop the permit if nobody wants it.
  unfoldable pub worker_begin : String → Worker → System Value → System Value
  worker_begin id w s = elim (get text_eq id s.jobs) [
    | none ↦ drop_worker id (record s { inflight = release s.inflight })
    | some j ↦ elim j.state [
      | cancelled ↦ drop_worker id (record s { inflight = release s.inflight })
      | _ ↦
          set_phase id w running
            (record s { jobs = modify text_eq id (λ k. record k { state = processing }) s.jobs })
    ]
  ]

  -- What the end of the operation writes into its job.
  unfoldable pub settle : ℕ → Outcome Value → List LoggedAccount → Job Value → Job Value
  settle now out accounts j = elim j.state [
    | cancelled ↦ record j { accounts = accounts }
    | _ ↦ elim out [
      | done r ↦ record j {
        accounts = accounts;
        state = completed;
        result = some r;
        finished_at = some now;
      }
      | fails e ↦ record j {
        accounts = accounts;
        state = failed;
        error = some (app_error_parts e).1;
        error_status = (app_error_parts e).0;
        error_retry_after = retry_hint e;
        finished_at = some now;
      }
      | times_out ↦ record j {
        accounts = accounts;
        state = failed;
        error = some (app_error_parts timeout).1;
        error_status = (app_error_parts timeout).0;
        finished_at = some now;
      }
    ]
  ]

  -- The end of the worker's operation.
  unfoldable pub worker_end :
      ℕ
      → TrackTiming
      → Outcome Value
      → List LoggedAccount
      → String
      → Worker
      → System Value
      → System Value
  worker_end now t out accounts id w s = drop_worker id (record s {
    inflight = release s.inflight;
    timings = record_timing w.op (is_done out) t s.timings;
    stored = store w.key out s.stored;
    jobs = modify text_eq id (settle now out accounts) s.jobs;
  })
