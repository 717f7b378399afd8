-- ===== src/Playback/Lifecycle/Steps.antt =====
-- Every event keeps the jobs and their workers coherent.
use hifi_api_rust.Base.{
  ℕ, ◌≡◌, ◌≢◌, refl, ◌⊎◌, inl, inr, List, [], none, some, String, arith, text_eq, Option-cases,
  subst, sym,
}
use hifi_api_rust.Base.Dict.{
  get, insert, remove, modify, get-insert, get-remove, get-modify, insert-Distinct, remove-Distinct,
}
use hifi_api_rust.Playback.Slots.{try_acquire}
use hifi_api_rust.Playback.Job.{Job, JobState, pending, processing, completed, failed, cancelled}
use hifi_api_rust.Playback.Queue.{
  System, Worker, Phase, unspawned, waiting, checked, admitted, running, spawn_worker, disconnect,
}
use hifi_api_rust.Playback.Worker.{worker_check, worker_acquire}
use hifi_api_rust.Playback.Lifecycle.{Fits, Coherent, AllFit}

-- A change at one id alone.
pub change-AllFit :
    {Value : Type 0} (id : String) (jobs jobs' : List (String × Job Value))
    (workers workers' : List (String × Worker))
    → ((k : String) → k ≢ id → get text_eq k jobs' ≡ get text_eq k jobs)
    → ((k : String) → k ≢ id → get text_eq k workers' ≡ get text_eq k workers)
    → ((j : Job Value) → get text_eq id jobs' ≡ some j → Fits j.state j (get text_eq id workers'))
    → AllFit jobs workers
    → AllFit jobs' workers'
change-AllFit id jobs jobs' workers workers' same_jobs same_workers here a k j h =
    elim (text_eq k id) [
      | yes e ↦ subst (λ x. Fits j.state j (get text_eq x workers')) (sym e) (here j (cc (h, e)))
      | no ne ↦
          subst (λ x. Fits j.state j x) (sym (same_workers k ne)) (a k j (cc (h, same_jobs k ne)))
    ]

pub insert_elsewhere :
    {V : Type 0} (id : String) (v : V) (m : List (String × V)) (k : String)
    → k ≢ id
    → get text_eq k (insert text_eq id v m) ≡ get text_eq k m
insert_elsewhere id v m k ne = ground (arith, get-insert text_eq k id v m)

pub remove_elsewhere :
    {V : Type 0} (id : String) (m : List (String × V)) (k : String)
    → k ≢ id
    → get text_eq k (remove text_eq id m) ≡ get text_eq k m
remove_elsewhere id m k ne = ground (arith, get-remove text_eq k id m)

pub modify_elsewhere :
    {V : Type 0} (id : String) (f : V → V) (m : List (String × V)) (k : String)
    → k ≢ id
    → get text_eq k (modify text_eq id f m) ≡ get text_eq k m
modify_elsewhere id f m k ne = ground (arith, get-modify text_eq k id f m)

pub insert_here :
    {V : Type 0} (id : String) (v : V) (m : List (String × V))
    → get text_eq id (insert text_eq id v m) ≡ some v
insert_here id v m = ground (arith, get-insert text_eq id id v m)

pub remove_here :
    {V : Type 0} (id : String) (m : List (String × V)) → get text_eq id (remove text_eq id m) ≡ none
remove_here id m = ground (arith, get-remove text_eq id id m)

pub modify_here :
    {V : Type 0} (id : String) (f : V → V) (m : List (String × V)) (v : V)
    → get text_eq id (modify text_eq id f m) ≡ some v
    → (u : V) × (get text_eq id m ≡ some u) × (v ≡ f u)
modify_here id f m v h = elim (Option-cases (get text_eq id m)) [
  | inl e ↦ absurd (ground (arith, get-modify text_eq id id f m))
  | inr (u, e) ↦ (u, e, ground (arith, get-modify text_eq id id f m))
]

module _ {Value : Type 0} (id : String) (s : System Value) (c : Coherent s) where
  -- The worker moves to another phase, and its job still fits it.
  set_phase-Coherent :
      (w : Worker) (n : ℕ)
      → ((j : Job Value) → get text_eq id s.jobs ≡ some j → Fits j.state j (some w))
      → Coherent (record s { inflight = n; workers = insert text_eq id w s.workers })
  set_phase-Coherent w n here = record {
    jobs_distinct = c.jobs_distinct;
    workers_distinct = insert-Distinct text_eq id w s.workers c.workers_distinct;
    fits =
        change-AllFit id s.jobs s.jobs s.workers (insert text_eq id w s.workers) (λ k ne. refl)
          (insert_elsewhere id w s.workers)
          (λ j h. subst (Fits j.state j) (sym (insert_here id w s.workers)) (here j h)) c.fits;
  }

  -- The worker goes, and its job does not need it.
  pub drop_worker-Coherent :
      (n : ℕ)
      → ((j : Job Value) → get text_eq id s.jobs ≡ some j → Fits j.state j none)
      → Coherent (record s { inflight = n; workers = remove text_eq id s.workers })
  drop_worker-Coherent n here = record {
    jobs_distinct = c.jobs_distinct;
    workers_distinct = remove-Distinct text_eq id s.workers c.workers_distinct;
    fits =
        change-AllFit id s.jobs s.jobs s.workers (remove text_eq id s.workers) (λ k ne. refl)
          (remove_elsewhere id s.workers)
          (λ j h. subst (Fits j.state j) (sym (remove_here id s.workers)) (here j h)) c.fits;
  }

-- A job that is neither missing nor cancelled, beside a worker that does not run its operation, is
-- pending.
pub idle_worker-pending :
    {Value : Type 0} (st : JobState) (j : Job Value) (w : Worker)
    → j.state ≡ st
    → Fits st j (some w)
    → w.phase ≢ running
    → (st ≡ pending) ⊎ (st ≡ cancelled)
idle_worker-pending pending j w e f h = inl refl
idle_worker-pending processing j w e f h = absurd (ground (arith, f, h))
idle_worker-pending completed j w e f h = absurd (cc f.0)
idle_worker-pending failed j w e f h = absurd (cc f.0)
idle_worker-pending cancelled j w e f h = inr refl

move-Fits :
    {Value : Type 0} (st : JobState) (j : Job Value) (w : Worker) (p : Phase)
    → Fits st j (some w)
    → w.phase ≢ running
    → p ≢ running
    → Fits st j (some (record w { phase = p }))
move-Fits pending j w p f h g = (f.0, λ v e r. g (cc (e, r)))
move-Fits processing j w p f h g = absurd (ground (arith, f, h))
move-Fits completed j w p f h g = absurd (cc f.0)
move-Fits failed j w p f h g = absurd (cc f.0)
move-Fits cancelled j w p f h g = f

-- A job does not need a worker that has not started it.
lost-Fits :
    {Value : Type 0} (st : JobState) (j : Job Value) (w : Worker)
    → Fits st j (some w)
    → w.phase ≢ running
    → Fits st j none
lost-Fits pending j w f h = (f.0, λ v e. absurd (cc e))
lost-Fits processing j w f h = absurd (ground (arith, f, h))
lost-Fits completed j w f h = absurd (cc f.0)
lost-Fits failed j w f h = absurd (cc f.0)
lost-Fits cancelled j w f h = f

module _ {Value : Type 0} (id : String) (w : Worker) (s : System Value) (c : Coherent s)
    (mine : get text_eq id s.workers ≡ some w) where
  pub Fits-mine : (j : Job Value) → get text_eq id s.jobs ≡ some j → Fits j.state j (some w)
  Fits-mine j h = subst (Fits j.state j) mine (c.fits id j h)

  pub drop_cancelled :
      (n : ℕ) (j : Job Value)
      → get text_eq id s.jobs ≡ some j
      → j.state ≡ cancelled
      → Coherent (record s { inflight = n; workers = remove text_eq id s.workers })
  drop_cancelled n j h e = drop_worker-Coherent id s c n λ k g.
      let same : j ≡ k = ground arith in
      subst (λ (x : Job Value). Fits x.state x none) same (rw e (rw e at (Fits-mine j h)))

  pub spawn_worker-Coherent : w.phase ≡ unspawned → Coherent (spawn_worker id w s).0
  unfolding spawn_worker
  spawn_worker-Coherent ph =
      set_phase-Coherent id s c _ s.inflight
        (λ j h. move-Fits j.state j w waiting (Fits-mine j h) (λ r. cc) (λ r. cc))

  pub disconnect-Coherent : (p : Phase) → w.phase ≡ p → Coherent (disconnect id w s)
  unfolding disconnect
  disconnect-Coherent unspawned ph =
      rw (ph, disconnect)
        (drop_worker-Coherent id s c s.inflight
          (λ j h. lost-Fits j.state j w (Fits-mine j h) (λ r. cc)))
  disconnect-Coherent waiting ph = rw (ph, disconnect) c
  disconnect-Coherent checked ph = rw (ph, disconnect) c
  disconnect-Coherent admitted ph = rw (ph, disconnect) c
  disconnect-Coherent running ph = rw (ph, disconnect) c

  pub worker_check-Coherent : w.phase ≡ waiting → Coherent (worker_check id w s)
  unfolding worker_check
  worker_check-Coherent ph = elim (Option-cases (get text_eq id s.jobs)) [
    | inl e ↦ rw (e, worker_check) (drop_worker-Coherent id s c s.inflight (λ j h. cc))
    | inr (j, e) ↦ by_state j.state j e refl
  ]
    where
      moved :
          (st : JobState) (j : Job Value)
          → get text_eq id s.jobs ≡ some j
          → j.state ≡ st
          → Coherent
              (record s { workers = insert text_eq id (record w { phase = checked }) s.workers })
      moved st j e q =
          set_phase-Coherent id s c _ s.inflight
            λ k h. move-Fits k.state k w checked (Fits-mine k h) (λ r. cc) (λ r. cc)

      by_state :
          (st : JobState) (j : Job Value)
          → get text_eq id s.jobs ≡ some j
          → j.state ≡ st
          → Coherent (worker_check id w s)
      by_state cancelled j e q = rw (e, q, worker_check) (drop_cancelled s.inflight j e q)
      by_state pending j e q = rw (e, q, worker_check) (moved pending j e q)
      by_state processing j e q = rw (e, q, worker_check) (moved processing j e q)
      by_state completed j e q = rw (e, q, worker_check) (moved completed j e q)
      by_state failed j e q = rw (e, q, worker_check) (moved failed j e q)

  pub worker_acquire-Coherent :
      (pool : ℕ) → w.phase ≡ checked → Coherent (worker_acquire pool id w s)
  unfolding worker_acquire
  worker_acquire-Coherent pool ph = elim (Option-cases (try_acquire pool s.inflight [])) [
    | inl e ↦
        rw (e, worker_acquire)
          (set_phase-Coherent id s c _ s.inflight
            (λ j h. move-Fits j.state j w waiting (Fits-mine j h) (λ r. cc) (λ r. cc)))
    | inr (n, e) ↦
        rw (e, worker_acquire)
          (set_phase-Coherent id s c _ n
            (λ j h. move-Fits j.state j w admitted (Fits-mine j h) (λ r. cc) (λ r. cc)))
  ]
