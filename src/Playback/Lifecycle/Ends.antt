-- ===== src/Playback/Lifecycle/Ends.antt =====
-- The worker's last two stretches, and the schedule as a whole, keep jobs and workers coherent.
use hifi_api_rust.Base.{
  ℕ, ◌≡◌, ◌≢◌, refl, inl, inr, [], Option, none, some, String, arith, text_eq, Option-cases,
  Bool-cases, subst, sym,
}
use hifi_api_rust.Base.Dict.{
  get, insert, modify, Distinct, insert-Distinct, remove-Distinct, modify-Distinct,
}
use hifi_api_rust.Playback.Slots.{try_acquire, over_capacity}
use hifi_api_rust.Playback.Job.{
  Job, JobResult, JobState, pending, processing, cancelled, count_state, is_pending,
}
use hifi_api_rust.Playback.Queue.{
  System, Worker, Phase, unspawned, waiting, checked, admitted, running, prune, dispatch, enqueue,
  new_job, pool_of,
}
use hifi_api_rust.Playback.Worker.{
  Outcome, done, fails, times_out, worker_begin, worker_end, settle,
}
use hifi_api_rust.Playback.Events.{work}
use hifi_api_rust.Playback.Lifecycle.{Fits, Coherent, prune-Coherent}
use hifi_api_rust.Playback.Lifecycle.Steps.{
  change-AllFit, insert_elsewhere, remove_elsewhere, modify_elsewhere, insert_here, remove_here,
  modify_here, Fits-mine, drop_worker-Coherent, drop_cancelled, idle_worker-pending,
  worker_check-Coherent, spawn_worker-Coherent, worker_acquire-Coherent,
}

-- Job and worker of one id change together.
both-Coherent :
    {Value : Type 0} (id : String) (f : Job Value → Job Value) (s t : System Value)
    → Coherent s
    → t.jobs ≡ modify text_eq id f s.jobs
    → Distinct text_eq t.workers
    → ((k : String) → k ≢ id → get text_eq k t.workers ≡ get text_eq k s.workers)
    → ((j : Job Value)
        → get text_eq id s.jobs ≡ some j
        → Fits (f j).state (f j) (get text_eq id t.workers))
    → Coherent t
both-Coherent id f s t c ej d elsewhere here = record {
  jobs_distinct = rw ej (modify-Distinct text_eq id f s.jobs c.jobs_distinct);
  workers_distinct = d;
  fits = rw ej (
      change-AllFit id s.jobs (modify text_eq id f s.jobs) s.workers t.workers
        (modify_elsewhere id f s.jobs) elsewhere
        (λ j h.
          let (u, found, same) = modify_here id f s.jobs j h in
          subst (λ (x : Job _). Fits x.state x (get text_eq id t.workers)) (sym same)
            (here u found))
        c.fits);
}

settle-Fits :
    {Value : Type 0} (now : ℕ) (out : Outcome Value) (accounts : _) (st : JobState) (j : Job Value)
    (w : Option Worker)
    → j.state ≡ st
    → Fits st j w
    → Fits (settle now out accounts j).state (settle now out accounts j) none
unfolding settle
settle-Fits now (done r) accounts cancelled j w e f = rw (e, settle) (rw e f)
settle-Fits now (fails x) accounts cancelled j w e f = rw (e, settle) (rw e f)
settle-Fits now times_out accounts cancelled j w e f = rw (e, settle) (rw e f)
settle-Fits now (done r) accounts _ j w e f = rw (e, settle) (refl, (λ h. cc), (λ h. cc))
settle-Fits now (fails x) accounts _ j w e f = rw (e, settle) (refl, (λ h. cc), (λ h. cc))
settle-Fits now times_out accounts _ j w e f = rw (e, settle) (refl, (λ h. cc), (λ h. cc))

module _ {Value : Type 0} (id : String) (w : Worker) (s : System Value) (c : Coherent s)
    (mine : get text_eq id s.workers ≡ some w) where
  worker_begin-Coherent : w.phase ≡ admitted → Coherent (worker_begin id w s)
  unfolding worker_begin
  worker_begin-Coherent ph = elim (Option-cases (get text_eq id s.jobs)) [
    | inl e ↦ rw (e, worker_begin) (drop_worker-Coherent id s c _ (λ j h. cc))
    | inr (j, e) ↦ by_state j.state j e refl
  ]
    where
      begun :
          (j : Job Value)
          → get text_eq id s.jobs ≡ some j
          → j.state ≡ pending
          → Coherent (record s {
            jobs = modify text_eq id (λ k. record k { state = processing }) s.jobs;
            workers = insert text_eq id (record w { phase = running }) s.workers;
          })
      begun j e q =
          both-Coherent id (λ k. record k { state = processing }) s _ c refl
            (insert-Distinct text_eq id (record w { phase = running }) s.workers c.workers_distinct)
            (insert_elsewhere id (record w { phase = running }) s.workers)
            λ k h.
              let still : k.state ≡ pending = ground arith in
              (
                (subst (λ st. Fits st k (some w)) still (Fits-mine id w s c mine k h)).0,
                (record w { phase = running }, insert_here id _ s.workers, refl),
              )

      by_state :
          (st : JobState) (j : Job Value)
          → get text_eq id s.jobs ≡ some j
          → j.state ≡ st
          → Coherent (worker_begin id w s)
      by_state cancelled j e q = rw (e, q, worker_begin) (drop_cancelled id w s c mine _ j e q)
      by_state pending j e q = rw (e, q, worker_begin) (begun j e q)
      by_state other j e q = absurd (
          ground
            (arith, idle_worker-pending j.state j w refl (Fits-mine id w s c mine j e) (λ r. cc)))

  worker_end-Coherent :
      (now : ℕ) (t : _) (out : Outcome Value) (accounts : _)
      → Coherent (worker_end now t out accounts id w s)
  unfolding worker_end
  worker_end-Coherent now t out accounts =
      both-Coherent id (settle now out accounts) s _ c refl
        (remove-Distinct text_eq id s.workers c.workers_distinct) (remove_elsewhere id s.workers)
        λ j h.
          subst (Fits (settle now out accounts j).state (settle now out accounts j))
            (sym (remove_here id s.workers))
            (settle-Fits now out accounts j.state j (some w) refl (Fits-mine id w s c mine j h))

  pub work-Coherent :
      (pool now : ℕ) (t : _) (out : Outcome Value) (accounts : _) (p : Phase)
      → w.phase ≡ p
      → Coherent (work pool now t out accounts id w s)
  unfolding work
  work-Coherent pool now t out accounts unspawned e =
      rw (e, work) (spawn_worker-Coherent id w s c mine e)
  work-Coherent pool now t out accounts waiting e =
      rw (e, work) (worker_check-Coherent id w s c mine e)
  work-Coherent pool now t out accounts checked e =
      rw (e, work) (worker_acquire-Coherent id w s c mine pool e)
  work-Coherent pool now t out accounts admitted e = rw (e, work) (worker_begin-Coherent e)
  work-Coherent pool now t out accounts running e =
      rw (e, work) (worker_end-Coherent now t out accounts)

module _ {Value : Type 0} (message : ℕ → ℕ → String) where
  enqueue-Coherent :
      (pool now : ℕ) (id : String) (op : _) (key : Option String) (s : System Value)
      → Coherent s
      → Coherent (enqueue message pool now id op key s).0
  unfolding enqueue
  enqueue-Coherent pool now id op key s c =
      let worker : Worker = record { op = op; key = key; phase = unspawned } in
      let workers = insert text_eq id worker s.workers in
      elim (Bool-cases (over_capacity (count_state is_pending s.jobs) pool)) [
        | inl e ↦ rw (e, enqueue) c
        | inr e ↦
            rw (e, enqueue)
              (record {
                jobs_distinct = insert-Distinct text_eq id (new_job id now) s.jobs c.jobs_distinct;
                workers_distinct = insert-Distinct text_eq id worker s.workers c.workers_distinct;
                fits =
                    change-AllFit id s.jobs (insert text_eq id (new_job id now) s.jobs) s.workers
                      workers (insert_elsewhere id (new_job id now) s.jobs)
                      (insert_elsewhere id worker s.workers)
                      (λ j h.
                        let new : new_job id now ≡ j =
                          ground (arith, insert_here id (new_job id now) s.jobs) in
                        subst (λ (x : Job Value). Fits x.state x (get text_eq id workers)) new
                          (refl, λ v e r. absurd (cc (insert_here id worker s.workers, e, r))))
                      c.fits;
              })
      ]

  pub dispatch-Coherent :
      (now : ℕ) (hit : Option (JobResult Value)) (accounts per_account : ℕ) (id : String) (op : _)
      (key : Option String) (s : System Value)
      → Coherent s
      → Coherent (dispatch message now hit accounts per_account id op key s).0
  unfolding dispatch
  dispatch-Coherent now (some r) accounts per_account id op key s c =
      let p = prune-Coherent now s c in
      record {
        jobs_distinct = p.jobs_distinct;
        workers_distinct = p.workers_distinct;
        fits = p.fits;
      }
  dispatch-Coherent now none accounts per_account id op key s c =
      let p = prune-Coherent now s c in
      elim (Option-cases (try_acquire (pool_of accounts per_account) (prune now s).inflight [])) [
        | inl e ↦ rw (e, dispatch) (enqueue-Coherent _ now id op key (prune now s) p)
        | inr (n, e) ↦
            rw (e, dispatch)
              (record {
                jobs_distinct = p.jobs_distinct;
                workers_distinct = p.workers_distinct;
                fits = p.fits;
              })
      ]
