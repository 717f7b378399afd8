-- ===== src/Playback/Handlers.antt =====
-- The handlers of src/playback.rs for a job that exists: `get_playback_request`,
-- `cancel_playback_request`, `clear_playback_queue`, and the answers of the first.
use hifi_api_rust.Base.{ℕ, Option, none, some, String, text_eq}
use hifi_api_rust.Base.Dict.{get, modify, map_values}
use hifi_api_rust.Playback.Job.{
  JobResult, json, pending, processing, completed, failed, cancelled, touch, cancel, clear,
  pending_position, is_pending, count_state, is_processing, as_str,
}
use hifi_api_rust.Playback.Queue.{System, prune}

-- What the client is told of its job.
pub data PollReply (Value : Type 0) : Type 0 where
  -- 404
  not_found : PollReply Value
  -- 202, with `Retry-After: 1` and the position
  accepted : ℕ → PollReply Value
  -- the stored answer
  finished : JobResult Value → PollReply Value
  -- 410
  gone : PollReply Value
  -- the stored status, text and `Retry-After`
  broken : ℕ → String → Option ℕ → PollReply Value

module _ {Value : Type 0} where
  -- The changes that `get_playback_request`, `cancel_playback_request` and `clear_playback_queue`
  -- make, and the reaper's.
  unfoldable pub poll : ℕ → String → System Value → System Value
  poll now id s = let t = prune now s in record t { jobs = modify text_eq id (touch now) t.jobs }

  unfoldable pub cancel_request : ℕ → String → System Value → System Value
  cancel_request now id s =
      let t = prune now s in record t { jobs = modify text_eq id (cancel now) t.jobs }

  unfoldable pub clear_queue : ℕ → System Value → System Value
  clear_queue now s = let t = prune now s in record t { jobs = map_values (clear now) t.jobs }

  -- The answer of `get_playback_request`, read off the jobs after the heartbeat. `empty` is the
  -- JSON object with no fields.
  unfoldable pub poll_reply : Value → String → System Value → PollReply Value
  poll_reply empty id s = elim (get text_eq id s.jobs) [
    | none ↦ not_found
    | some j ↦ elim j.state [
      | pending ↦ accepted (pending_position id s.jobs)
      | processing ↦ accepted 0
      | completed ↦ finished (elim j.result [ none ↦ json empty | some r ↦ r ])
      | cancelled ↦ gone
      | failed ↦
          broken j.error_status (elim j.error [ none ↦ "Playback request failed" | some e ↦ e ])
            j.error_retry_after
    ]
  ]

  -- The answer of `cancel_playback_request`: the job's state, or 404.
  unfoldable pub cancel_reply : String → System Value → Option String
  cancel_reply id s = elim (get text_eq id s.jobs) [ none ↦ none | some j ↦ some (as_str j.state) ]

  -- The answer of `clear_playback_queue`: jobs cancelled while queued, and while processing. They
  -- are counted before the states change.
  unfoldable pub clear_counts : ℕ → System Value → ℕ × ℕ
  clear_counts now s =
      let t = prune now s in (count_state is_pending t.jobs, count_state is_processing t.jobs)
