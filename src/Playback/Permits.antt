-- ===== src/Playback/Permits.antt =====
-- Every permit of the playback queue has exactly one holder, through every interleaving.
use hifi_api_rust.Base.{
  ℕ, zero, suc, ◌+◌, ◌-◌, ◌≡◌, refl, inl, inr, List, [], ◌∷◌, Option, none, some, String, arith,
  text_eq, Option-cases,
}
use hifi_api_rust.Base.Dict.{get, insert, remove, Distinct, insert-Distinct, remove-Distinct}
use hifi_api_rust.Playback.Slots.{try_acquire, release}
use hifi_api_rust.Playback.Job.{JobResult}
use hifi_api_rust.Playback.Queue.{
  System, Worker, Phase, unspawned, waiting, checked, admitted, running, init, prune, dispatch,
  enqueue, spawn_worker, disconnect,
}
use hifi_api_rust.Playback.Worker.{
  finish_direct, worker_check, worker_acquire, worker_begin, worker_end,
}
use hifi_api_rust.Playback.Handlers.{poll, cancel_request, clear_queue}
use hifi_api_rust.Playback.Events.{
  Event, arrives, direct_ends, works, disconnects, polls, cancels, clears, reaps, work, step, run,
}

abbrev pub holds : Phase → ℕ
holds unspawned = 0
holds waiting = 0
holds checked = 0
holds admitted = 1
holds running = 1

abbrev pub held : Option Worker → ℕ
held none = 0
held (some w) = holds w.phase

-- The permits that workers hold.
unfoldable pub holding : List (String × Worker) → ℕ
holding [] = 0
holding ((k, w) ∷ m) = holds w.phase + holding m

holding-insert :
    (k : String) (w : Worker) (m : List (String × Worker))
    → holding (insert text_eq k w m) + held (get text_eq k m) ≡ holding m + holds w.phase
unfolding holding insert get
holding-insert k w [] = omega arith
holding-insert k w ((j, v) ∷ m) = ground (arith, holding-insert k w m)

holding-remove_absent :
    (k : String) (m : List (String × Worker))
    → get text_eq k m ≡ none
    → holding (remove text_eq k m) ≡ holding m
unfolding holding remove get
holding-remove_absent k [] h = refl
holding-remove_absent k ((j, v) ∷ m) h = ground (arith, holding-remove_absent k m)

holding-remove :
    (k : String) (m : List (String × Worker))
    → Distinct text_eq m
    → holding (remove text_eq k m) + held (get text_eq k m) ≡ holding m
unfolding holding remove get
holding-remove k [] d = omega arith
holding-remove k ((j, v) ∷ m) d = ground (arith, holding-remove k m d.1, holding-remove_absent k m)

pub record Balanced {Value : Type 0} (s : System Value) : Type 0 where
  pub permits : s.inflight ≡ s.direct + holding s.workers
  pub distinct : Distinct text_eq s.workers

-- A new job's id is not that of a worker that is still there: ids are random UUIDs.
abbrev pub Fresh : {Value : Type 0} → System Value → Event Value → Type 0
Fresh s (arrives now hit accounts per_account id op key) = get text_eq id s.workers ≡ none
Fresh s _ = Unit

module _ {Value : Type 0} where
  pub init-Balanced : Balanced (init {Value = Value})
  unfolding init holding
  init-Balanced = record { permits = omega arith; distinct = tt }

  drop-Balanced :
      (id : String) (w : Worker) (s : System Value) (n d : ℕ)
      → get text_eq id s.workers ≡ some w
      → Distinct text_eq s.workers
      → n + holds w.phase ≡ d + holding s.workers
      → n ≡ d + holding (remove text_eq id s.workers)
  drop-Balanced id w s n d e distinct h = ground (arith, holding-remove id s.workers distinct)

  move-Balanced :
      (id : String) (w : Worker) (p : Phase) (s : System Value) (n d : ℕ)
      → get text_eq id s.workers ≡ some w
      → n + holds w.phase ≡ d + holding s.workers + holds p
      → n ≡ d + holding (insert text_eq id (record w { phase = p }) s.workers)
  move-Balanced id w p s n d e h =
      ground (arith, holding-insert id (record w { phase = p }) s.workers)

  dispatch-Balanced :
      (message : ℕ → ℕ → String) (now : ℕ) (hit : Option (JobResult Value))
      (accounts per_account : ℕ) (id : String) (op : _) (key : Option String) (s : System Value)
      → get text_eq id s.workers ≡ none
      → Balanced s
      → Balanced (dispatch message now hit accounts per_account id op key s).0
  unfolding dispatch enqueue prune try_acquire
  dispatch-Balanced message now hit accounts per_account id op key s fresh b = record {
    permits = ground (
      arith,
      b.permits,
      holding-insert id (record { op = op; key = key; phase = unspawned }) s.workers,
    );
    distinct = ground (
      arith,
      b.distinct,
      insert-Distinct text_eq id (record { op = op; key = key; phase = unspawned }) s.workers
          b.distinct,
    );
  }

  finish_direct-Balanced :
      (op : _) (key : Option String) (t : _) (out : _) (s : System Value) (n : ℕ)
      → s.direct ≡ suc n
      → Balanced s
      → Balanced (finish_direct op key t out s)
  unfolding finish_direct release
  finish_direct-Balanced op key t out s n h b = record {
    permits = ground (arith, b.permits);
    distinct = b.distinct;
  }

  -- A change of the jobs alone.
  quiet-Balanced :
      (t s : System Value)
      → t.inflight ≡ s.inflight
      → t.direct ≡ s.direct
      → t.workers ≡ s.workers
      → Balanced s
      → Balanced t
  quiet-Balanced t s i d w b = record {
    permits = rw (i, d, w) b.permits;
    distinct = rw w b.distinct;
  }

  spawn_worker-Balanced :
      (id : String) (w : Worker) (s : System Value)
      → get text_eq id s.workers ≡ some w
      → w.phase ≡ unspawned
      → Balanced s
      → Balanced (spawn_worker id w s).0
  unfolding spawn_worker
  spawn_worker-Balanced id w s e ph b =
      let moved = move-Balanced id w waiting s s.inflight s.direct e in
      record {
        permits = ground (arith, moved, b.permits);
        distinct = insert-Distinct text_eq id (record w { phase = waiting }) s.workers b.distinct;
      }

  disconnect-Balanced :
      (id : String) (w : Worker) (p : Phase) (s : System Value)
      → get text_eq id s.workers ≡ some w
      → w.phase ≡ p
      → Balanced s
      → Balanced (disconnect id w s)
  unfolding disconnect
  disconnect-Balanced id w unspawned s e ph b =
      let left = drop-Balanced id w s s.inflight s.direct e b.distinct in
      let dropped : Balanced (record s { workers = remove text_eq id s.workers }) = record {
        permits = ground (arith, left, b.permits);
        distinct = remove-Distinct text_eq id s.workers b.distinct;
      } in
      rw (ph, disconnect) dropped
  disconnect-Balanced id w waiting s e ph b = rw (ph, disconnect) b
  disconnect-Balanced id w checked s e ph b = rw (ph, disconnect) b
  disconnect-Balanced id w admitted s e ph b = rw (ph, disconnect) b
  disconnect-Balanced id w running s e ph b = rw (ph, disconnect) b

  worker_check-Balanced :
      (id : String) (w : Worker) (s : System Value)
      → get text_eq id s.workers ≡ some w
      → w.phase ≡ waiting
      → Balanced s
      → Balanced (worker_check id w s)
  unfolding worker_check
  worker_check-Balanced id w s e ph b =
      let gone = remove-Distinct text_eq id s.workers b.distinct in
      let stays = insert-Distinct text_eq id (record w { phase = checked }) s.workers b.distinct in
      let left = drop-Balanced id w s s.inflight s.direct e b.distinct in
      let moved = move-Balanced id w checked s s.inflight s.direct e in
      record {
        permits = ground (arith, left, moved, b.permits);
        distinct = ground (arith, gone, stays);
      }

  worker_acquire-Balanced :
      (pool : ℕ) (id : String) (w : Worker) (s : System Value)
      → get text_eq id s.workers ≡ some w
      → w.phase ≡ checked
      → Balanced s
      → Balanced (worker_acquire pool id w s)
  unfolding worker_acquire try_acquire
  worker_acquire-Balanced pool id w s e ph b =
      let back = insert-Distinct text_eq id (record w { phase = waiting }) s.workers b.distinct in
      let on = insert-Distinct text_eq id (record w { phase = admitted }) s.workers b.distinct in
      let stay = move-Balanced id w waiting s s.inflight s.direct e in
      let move = move-Balanced id w admitted s (s.inflight + 1) s.direct e in
      record {
        permits = ground (arith, stay, move, b.permits);
        distinct = ground (arith, back, on);
      }

  worker_begin-Balanced :
      (id : String) (w : Worker) (s : System Value)
      → get text_eq id s.workers ≡ some w
      → w.phase ≡ admitted
      → Balanced s
      → Balanced (worker_begin id w s)
  unfolding worker_begin release
  worker_begin-Balanced id w s e ph b =
      let gone = remove-Distinct text_eq id s.workers b.distinct in
      let on = insert-Distinct text_eq id (record w { phase = running }) s.workers b.distinct in
      let left = drop-Balanced id w s (s.inflight - 1) s.direct e b.distinct in
      let move = move-Balanced id w running s s.inflight s.direct e in
      record {
        permits = ground (arith, left, move, b.permits, holding-remove id s.workers b.distinct);
        distinct = ground (arith, gone, on);
      }

  worker_end-Balanced :
      (now : ℕ) (t : _) (out : _) (accounts : _) (id : String) (w : Worker) (s : System Value)
      → get text_eq id s.workers ≡ some w
      → w.phase ≡ running
      → Balanced s
      → Balanced (worker_end now t out accounts id w s)
  unfolding worker_end release
  worker_end-Balanced now t out accounts id w s e ph b = record {
    permits = ground (arith, b.permits, holding-remove id s.workers b.distinct);
    distinct = remove-Distinct text_eq id s.workers b.distinct;
  }

  work-Balanced :
      (pool now : ℕ) (t : _) (out : _) (accounts : _) (id : String) (w : Worker) (p : Phase)
      (s : System Value)
      → get text_eq id s.workers ≡ some w
      → w.phase ≡ p
      → Balanced s
      → Balanced (work pool now t out accounts id w s)
  unfolding work
  work-Balanced pool now t out accounts id w unspawned s e ph b =
      rw (ph, work) (spawn_worker-Balanced id w s e ph b)
  work-Balanced pool now t out accounts id w waiting s e ph b =
      rw (ph, work) (worker_check-Balanced id w s e ph b)
  work-Balanced pool now t out accounts id w checked s e ph b =
      rw (ph, work) (worker_acquire-Balanced pool id w s e ph b)
  work-Balanced pool now t out accounts id w admitted s e ph b =
      rw (ph, work) (worker_begin-Balanced id w s e ph b)
  work-Balanced pool now t out accounts id w running s e ph b =
      rw (ph, work) (worker_end-Balanced now t out accounts id w s e ph b)

module _ {Value : Type 0} (message : ℕ → ℕ → String) where
  pub step-Balanced :
      (s : System Value) (e : Event Value) → Fresh s e → Balanced s → Balanced (step message s e)
  unfolding step poll cancel_request clear_queue prune
  step-Balanced s (arrives now hit accounts per_account id op key) f b =
      dispatch-Balanced message now hit accounts per_account id op key s f b
  step-Balanced s (direct_ends op key t out) f b = direct_ends-Balanced s.direct refl
    where
      direct_ends-Balanced :
          (n : ℕ) → s.direct ≡ n → Balanced (step message s (direct_ends op key t out))
      direct_ends-Balanced zero h = rw (h, step) b
      direct_ends-Balanced (suc n) h = rw (h, step) (finish_direct-Balanced op key t out s n h b)
  step-Balanced s (works id pool now t out accounts) f b =
      elim (Option-cases (get text_eq id s.workers)) [
        | inl e ↦ rw (e, step) b
        | inr (w, e) ↦ rw (e, step) (work-Balanced pool now t out accounts id w w.phase s e refl b)
      ]
  step-Balanced s (disconnects id) f b = elim (Option-cases (get text_eq id s.workers)) [
    | inl e ↦ rw (e, step) b
    | inr (w, e) ↦ rw (e, step) (disconnect-Balanced id w w.phase s e refl b)
  ]
  step-Balanced s (polls now id) f b = quiet-Balanced (poll now id s) s refl refl refl b
  step-Balanced s (cancels now id) f b = quiet-Balanced (cancel_request now id s) s refl refl refl b
  step-Balanced s (clears now) f b = quiet-Balanced (clear_queue now s) s refl refl refl b
  step-Balanced s (reaps now) f b = quiet-Balanced (prune now s) s refl refl refl b

  -- Each new job has a fresh id, along the whole schedule.
  abbrev pub FreshRun : System Value → List (Event Value) → Type 0
  FreshRun s [] = Unit
  FreshRun s (e ∷ es) = Fresh s e × FreshRun (step message s e) es

  run-Balanced_from :
      (es : List (Event Value)) (s : System Value)
      → FreshRun s es
      → Balanced s
      → Balanced (run message es s)
  unfolding run
  run-Balanced_from [] s f b = b
  run-Balanced_from (e ∷ es) s f b =
      run-Balanced_from es (step message s e) f.1 (step-Balanced s e f.0 b)

  -- From the empty queue, after any interleaving of requests, workers, lost clients of queued jobs,
  -- polls, cancellations, drains and reaping in which ids are fresh, the permits in use are exactly
  -- those of the requests that run at once and of the workers that were admitted: none is lost and
  -- none is given back twice.
  pub run-permits :
      (es : List (Event Value))
      → FreshRun init es
      → (run message es init).inflight
        ≡ (run message es init).direct + holding (run message es init).workers
  run-permits es f = (run-Balanced_from es init f init-Balanced).permits
