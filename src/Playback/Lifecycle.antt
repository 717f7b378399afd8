-- ===== src/Playback/Lifecycle.antt =====
-- The life of one playback job: which states follow which, and what each state promises.
pub mod Steps
pub mod Ends
pub mod Runs
use mathlib.Core.Option
use hifi_api_rust.Base.{
  ℕ, zero, suc, ◌+◌, ◌-◌, ◌≤◌, ◌<◌, ◌≡◌, ◌≢◌, refl, ◌⊎◌, inl, inr, Bool, true, false, List, [], ◌∷◌,
  Option, none, some, String, arith, text_eq, Option-cases, Bool-cases, ite, leb, ltb,
  if◌then◌else◌, subst,
}
use hifi_api_rust.Base.Dict.{
  get, insert, remove, modify, retain, map_values, only, Distinct, get-insert, get-remove,
  get-modify, get-map_values, get-retain, insert-Distinct, modify-Distinct, map_values-Distinct,
  retain-Distinct,
}
use hifi_api_rust.Playback.Slots.{try_acquire, release}
use hifi_api_rust.Playback.Job.{
  Job, JobResult, JobState, pending, processing, completed, failed, cancelled, is_live, is_pending,
  prune_sync, expire, is_kept, touch, cancel, clear,
}
use hifi_api_rust.Playback.Queue.{
  System, Worker, Phase, waiting, checked, admitted, running, init, prune, dispatch, enqueue,
}
use hifi_api_rust.Playback.Worker.{
  finish_direct, worker_check, worker_acquire, worker_begin, worker_end, settle,
}
use hifi_api_rust.Playback.Handlers.{poll, cancel_request, clear_queue}
use hifi_api_rust.Playback.Events.{
  Event, arrives, direct_ends, works, polls, cancels, clears, reaps, work, step, run,
}

-- What the job's state promises, given the worker of that id.
abbrev pub Fits : {Value : Type 0} → JobState → Job Value → Option Worker → Type 0
Fits pending j w = (j.finished_at ≡ none) × ((v : Worker) → w ≡ some v → v.phase ≢ running)
Fits processing j w = (j.finished_at ≡ none) × ((v : Worker) × (w ≡ some v) × (v.phase ≡ running))
Fits completed j w = (w ≡ none) × (j.finished_at ≢ none) × (j.result ≢ none)
Fits failed j w = (w ≡ none) × (j.finished_at ≢ none) × (j.error ≢ none)
Fits cancelled j w = j.finished_at ≢ none

pub record Coherent {Value : Type 0} (s : System Value) : Type 0 where
  pub jobs_distinct : Distinct text_eq s.jobs
  pub workers_distinct : Distinct text_eq s.workers
  pub fits :
      (k : String) (j : Job Value)
      → get text_eq k s.jobs ≡ some j
      → Fits j.state j (get text_eq k s.workers)

module _ {Value : Type 0} where
  pub touch-Fits :
      (now : ℕ) (st : JobState) (j : Job Value) (w : Option Worker)
      → j.state ≡ st
      → Fits st j w
      → Fits (touch now j).state (touch now j) w
  unfolding touch
  touch-Fits now pending j w e f = rw (e, touch) f
  touch-Fits now processing j w e f = rw (e, touch) f
  touch-Fits now completed j w e f = rw (e, touch) f
  touch-Fits now failed j w e f = rw (e, touch) f
  touch-Fits now cancelled j w e f = rw (e, touch) f

  pub cancel-Fits :
      (now : ℕ) (st : JobState) (j : Job Value) (w : Option Worker)
      → j.state ≡ st
      → Fits st j w
      → Fits (cancel now j).state (cancel now j) w
  unfolding cancel
  cancel-Fits now pending j w e f = rw (e, cancel) (λ h. cc)
  cancel-Fits now processing j w e f = rw (e, cancel) (λ h. cc)
  cancel-Fits now completed j w e f = rw (e, cancel) f
  cancel-Fits now failed j w e f = rw (e, cancel) f
  cancel-Fits now cancelled j w e f = rw (e, cancel) f

  pub clear-Fits :
      (now : ℕ) (st : JobState) (j : Job Value) (w : Option Worker)
      → j.state ≡ st
      → Fits st j w
      → Fits (clear now j).state (clear now j) w
  unfolding clear
  clear-Fits now pending j w e f = rw (e, clear) (λ h. cc)
  clear-Fits now processing j w e f = rw (e, clear) (λ h. cc)
  clear-Fits now completed j w e f = rw (e, clear) f
  clear-Fits now failed j w e f = rw (e, clear) f
  clear-Fits now cancelled j w e f = rw (e, clear) f

  expire-Fits :
      (now : ℕ) (st : JobState) (j : Job Value) (w : Option Worker)
      → j.state ≡ st
      → Fits st j w
      → Fits (expire now j).state (expire now j) w
  unfolding expire
  expire-Fits now pending j w e f = elim (Bool-cases (ltb 60 (now - j.last_polled_at))) [
    | inl late ↦ rw (e, late, expire) (λ h. cc)
    | inr fine ↦ rw (e, fine, expire) f
  ]
  expire-Fits now processing j w e f = rw (e, expire) f
  expire-Fits now completed j w e f = rw (e, expire) f
  expire-Fits now failed j w e f = rw (e, expire) f
  expire-Fits now cancelled j w e f = rw (e, expire) f

-- The fits of a table of jobs beside the table of workers.
abbrev pub AllFit : {Value : Type 0} → List (String × Job Value) → List (String × Worker) → Type 0
AllFit {Value} jobs workers =
    (k : String) (j : Job Value)
    → get text_eq k jobs ≡ some j
    → Fits j.state j (get text_eq k workers)

-- A change of jobs that keeps each job fitting.
abbrev pub KeepsFit : {Value : Type 0} → (Job Value → Job Value) → Type 0
KeepsFit {Value} f =
    (st : JobState) (j : Job Value) (w : Option Worker)
    → j.state ≡ st
    → Fits st j w
    → Fits (f j).state (f j) w

module _ {Value : Type 0} (f : Job Value → Job Value) (keeps : KeepsFit f) where
  pub map_values-AllFit :
      (jobs : List (String × Job Value)) (workers : List (String × Worker))
      → AllFit jobs workers
      → AllFit (map_values f jobs) workers
  map_values-AllFit jobs workers a k j h = elim (Option-cases (get text_eq k jobs)) [
    | inl e ↦ absurd (cc (get-map_values text_eq k f jobs, e, h))
    | inr (i, e) ↦
        let same : f i ≡ j = ground (arith, get-map_values text_eq k f jobs) in
        subst (λ x. Fits x.state x (get text_eq k workers)) same
          (keeps i.state i (get text_eq k workers) refl (a k i e))
  ]

  pub modify-AllFit :
      (id : String) (jobs : List (String × Job Value)) (workers : List (String × Worker))
      → AllFit jobs workers
      → AllFit (modify text_eq id f jobs) workers
  modify-AllFit id jobs workers a k j h = elim (text_eq id k) [
    | no ne ↦ a k j (ground (arith, get-modify text_eq k id f jobs))
    | yes here ↦ elim (Option-cases (get text_eq k jobs)) [
      | inl e ↦ absurd (ground (arith, get-modify text_eq k id f jobs))
      | inr (i, e) ↦
          let same : f i ≡ j = ground (arith, get-modify text_eq k id f jobs) in
          subst (λ x. Fits x.state x (get text_eq k workers)) same
            (keeps i.state i (get text_eq k workers) refl (a k i e))
    ]
  ]

module _ {Value : Type 0} where
  prune_sync-AllFit :
      (now : ℕ) (jobs : List (String × Job Value)) (workers : List (String × Worker))
      → Distinct text_eq jobs
      → AllFit jobs workers
      → AllFit (prune_sync now jobs) workers
  unfolding prune_sync
  prune_sync-AllFit now jobs workers d a =
      map_values-AllFit (expire now) (expire-Fits now) (retain (is_kept now) jobs) workers
        λ k j h. a k j (ground (arith, get-retain text_eq k (is_kept now) jobs d))

  pub prune-Coherent : (now : ℕ) (s : System Value) → Coherent s → Coherent (prune now s)
  unfolding prune prune_sync
  prune-Coherent now s c = record {
    jobs_distinct =
        map_values-Distinct text_eq (expire now) _
          (retain-Distinct text_eq (is_kept now) s.jobs c.jobs_distinct);
    workers_distinct = c.workers_distinct;
    fits = prune_sync-AllFit now s.jobs s.workers c.jobs_distinct c.fits;
  }
