-- ===== src/Playback/Job.antt =====
-- The jobs of src/playback.rs and the table that holds them: its states, `prune_sync`, the position
-- in the queue, and what polling, cancelling and the emergency drain do to a job. Times are Unix
-- seconds; a cutoff before the epoch is 0 here, which no time lies below either.
use hifi_api_rust.Base.{
  ℕ, ◌+◌, ◌-◌, Bool, true, false, ◌&&◌, List, [], ◌∷◌, Option, none, some, String, ltb, leb,
  text_eq, if◌then◌else◌, ite, length,
}
use hifi_api_rust.Base.Dict.{get, retain, map_values}

-- `JobResult`; `Value` is the type of serde_json's values, which the queue passes on unread.
pub data JobResult (Value : Type 0) : Type 0 where
  json : Value → JobResult Value
  redirect : String → JobResult Value
  binary : ℕ → String → List ℕ → JobResult Value

pub data JobState : Type 0 where
  pending processing completed failed cancelled : JobState

-- `JobState::as_str`
unfoldable pub as_str : JobState → String
as_str pending = "pending"
as_str processing = "processing"
as_str completed = "completed"
as_str failed = "failed"
as_str cancelled = "cancelled"

-- `LoggedAccount` of src/request_log.rs.
pub record LoggedAccount : Type 0 where
  pub id : String
  pub label : String
  pub role : String

pub record Job (Value : Type 0) : Type 0 where
  pub id : String
  pub state : JobState
  pub result : Option (JobResult Value)
  pub error : Option String
  pub error_status : ℕ
  pub error_retry_after : Option ℕ
  pub created_at : ℕ
  pub finished_at : Option ℕ
  pub last_polled_at : ℕ
  pub accounts : List LoggedAccount

abbrev pub job_ttl_secs : ℕ
job_ttl_secs = 300

abbrev pub pending_timeout_secs : ℕ
pending_timeout_secs = 60

abbrev pub is_pending : JobState → Bool
is_pending pending = true
is_pending _ = false

abbrev pub is_processing : JobState → Bool
is_processing processing = true
is_processing _ = false

-- `matches!(state, JobState::Pending | JobState::Processing)`
abbrev pub is_live : JobState → Bool
is_live pending = true
is_live processing = true
is_live _ = false

abbrev pub expired_text : String
expired_text = "Playback request expired in queue (client stopped polling)"

abbrev pub cleared_text : String
cleared_text = "Playback queue cleared by admin"

module _ {Value : Type 0} where
  -- `j.finished_at.map(|f| f >= cutoff).unwrap_or(true)`
  unfoldable pub is_kept : ℕ → Job Value → Bool
  is_kept now j = elim j.finished_at [ none ↦ true | some f ↦ leb (now - job_ttl_secs) f ]

  -- The loop body of `prune_sync` over the jobs that are left.
  unfoldable pub expire : ℕ → Job Value → Job Value
  expire now j =
      if is_pending j.state && ltb pending_timeout_secs (now - j.last_polled_at)
      then record j { state = cancelled; error = some expired_text; finished_at = some now }
      else j

  -- `PlaybackQueue::prune_sync`
  unfoldable pub prune_sync : ℕ → List (String × Job Value) → List (String × Job Value)
  prune_sync now jobs = map_values (expire now) (retain (is_kept now) jobs)

  -- The heartbeat of `get_playback_request`.
  unfoldable pub touch : ℕ → Job Value → Job Value
  touch now j = if is_live j.state then record j { last_polled_at = now } else j

  -- The change that `cancel_playback_request` makes.
  unfoldable pub cancel : ℕ → Job Value → Job Value
  cancel now j =
      if is_live j.state then record j { state = cancelled; finished_at = some now } else j

  -- The loop body of `clear_playback_queue`: both branches of the source change the same fields.
  unfoldable pub clear : ℕ → Job Value → Job Value
  clear now j =
      if is_live j.state
      then record j { state = cancelled; error = some cleared_text; finished_at = some now }
      else j

  unfoldable pub count_state : (JobState → Bool) → List (String × Job Value) → ℕ
  count_state p jobs = length (retain (λ j. p j.state) jobs)

  -- Stable insertion by `created_at`: `sort_by_key` of `pending_position`.
  unfoldable pub insert_by_age : Job Value → List (Job Value) → List (Job Value)
  insert_by_age j [] = j ∷ []
  insert_by_age j (k ∷ ks) =
      if leb j.created_at k.created_at then j ∷ k ∷ ks else k ∷ insert_by_age j ks

  unfoldable pub sort_by_age : List (Job Value) → List (Job Value)
  sort_by_age [] = []
  sort_by_age (j ∷ js) = insert_by_age j (sort_by_age js)

  -- `.values().filter(pending).collect()`
  unfoldable pub pending_jobs : List (String × Job Value) → List (Job Value)
  pending_jobs [] = []
  pending_jobs ((k, j) ∷ m) =
      let rest = pending_jobs m in if is_pending j.state then j ∷ rest else rest

  -- `.position(|j| j.id == id).map(|i| i + 1).unwrap_or(0)`, with the index counted up.
  unfoldable pub position_of : ℕ → String → List (Job Value) → ℕ
  position_of i id [] = 0
  position_of i id (j ∷ js) = ite (text_eq j.id id) (i + 1) (position_of (i + 1) id js)

  -- `PlaybackQueue::pending_position`
  unfoldable pub pending_position : String → List (String × Job Value) → ℕ
  pending_position id jobs = elim (get text_eq id jobs) [
    | none ↦ 0
    | some me ↦
        if is_pending me.state then position_of 0 id (sort_by_age (pending_jobs jobs)) else 0
  ]
