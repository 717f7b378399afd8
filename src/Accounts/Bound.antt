-- ===== src/Accounts/Bound.antt =====
-- The counters of the accounts of src/account_manager.rs and the limit of requests that an account
-- sends to Tidal at once.
use hifi_api_rust.Base.{
  ℕ, zero, suc, ◌+◌, ◌≤◌, ◌<◌, ◌≡◌, refl, sym, subst, ap, true, false, List, [], ◌∷◌, some, String,
  Bool, ◌⊎◌, arith, map, Has, inl, inr, if◌then◌else◌, ◌==◌, Option-cases, ◌∙◌,
}
use hifi_api_rust.Accounts.State.{AccountState, pool_inflight}
use hifi_api_rust.Accounts.Lease.{
  LeaseKind, LeaseRules, playback, metadata, lease_kind, drop_lease, take_slot, free_slot,
  note_selection, is_free, has_slot, forget_hour,
}
use hifi_api_rust.Accounts.Select.{
  AccountManager, enumerate, update_at, tested, hand_out, try_lease, is_usable,
}
use hifi_api_rust.Accounts.Best.{choose-cases}
use hifi_api_rust.Accounts.Held.{
  Held, Pool, LeaseEvent, take, claim, drop, nth, without, hold, lease_step, lease_run, count,
  plays, of_playback, of_metadata, asks, limited, Each, Counts, IsCounted,
}

-- Below the index no account is counted.
Has-enumerate-le :
    (i j : ℕ) (a : AccountState) (accounts : List AccountState)
    → Has (j, a) (enumerate i accounts)
    → i ≤ j
unfolding enumerate
Has-enumerate-le i j a [] h = absurd h
Has-enumerate-le i j a (x ∷ xs) (inl e) = let k : j ≡ i = ap (λ c. c.0) e in omega (arith, k)
Has-enumerate-le i j a (x ∷ xs) (inr h) = omega (arith, Has-enumerate-le (suc i) j a xs h)

-- At most one account stands at an index.
pub Has-enumerate_unique :
    (i j : ℕ) (a b : AccountState) (accounts : List AccountState)
    → Has (j, a) (enumerate i accounts)
    → Has (j, b) (enumerate i accounts)
    → a ≡ b
unfolding enumerate
Has-enumerate_unique i j a b [] h k = absurd h
Has-enumerate_unique i j a b (x ∷ xs) (inl e) (inl f) = ap (λ c. c.1) e ∙ sym (ap (λ c. c.1) f)
Has-enumerate_unique i j a b (x ∷ xs) (inl e) (inr k) =
    let n : j ≡ i = ap (λ c. c.0) e in absurd (omega (arith, n, Has-enumerate-le (suc i) j b xs k))
Has-enumerate_unique i j a b (x ∷ xs) (inr h) (inl f) =
    let n : j ≡ i = ap (λ c. c.0) f in absurd (omega (arith, n, Has-enumerate-le (suc i) j a xs h))
Has-enumerate_unique i j a b (x ∷ xs) (inr h) (inr k) = Has-enumerate_unique (suc i) j a b xs h k

module _ (P Q : ℕ → AccountState → Type 0) (g f : AccountState → AccountState) (t : ℕ) where
  map-Each :
      (i : ℕ) (accounts : List AccountState)
      → t < i
      → ((k : ℕ) (a : AccountState) → (k == t) ≡ false → P k a → Q k (g a))
      → Each P i accounts
      → Each Q i (map g accounts)
  map-Each i [] b s h = tt
  map-Each i (x ∷ xs) b s h = (s i x (ground arith) h.0, map-Each (suc i) xs (omega arith) s h.1)

  update_at-Each :
      (i j : ℕ) (accounts : List AccountState)
      → t ≡ j + i
      → ((k : ℕ) (a : AccountState) → (k == t) ≡ false → P k a → Q k (g a))
      → ((a : AccountState) → Has (t, a) (enumerate j accounts) → P t a → Q t (f (g a)))
      → Each P j accounts
      → Each Q j (update_at i f (map g accounts))
  unfolding enumerate update_at
  update_at-Each i j [] e s p h = tt
  update_at-Each zero j (x ∷ xs) e s p h =
      let n : t ≡ j = omega (arith, e) in
      (
        subst (λ k. Q k (f (g x))) n
            (p x (inl (ap (λ k. (k, x)) n)) (subst (λ k. P k x) (sym n) h.0)),
        map-Each (suc j) xs (omega (arith, n)) s h.1,
      )
  update_at-Each (suc i) j (x ∷ xs) e s p h = (
    s j x (ground (arith, e)) h.0,
    update_at-Each i (suc j) xs (omega (arith, e)) s (λ a k. p a (inr k)) h.1,
  )

map_id : (accounts : List AccountState) → map (λ a. a) accounts ≡ accounts
map_id [] = refl
map_id (x ∷ xs) = ap (λ l. x ∷ l) (map_id xs)

count-without :
    (p : Held → Bool) (n : ℕ) (l : Held) (held : List Held)
    → nth n held ≡ some l
    → count p held ≡ (if p l then 1 else 0) + count p (without n held)
count-without p n l [] h = cc
count-without p zero l (x ∷ xs) h = let e : x ≡ l = ground arith in rw e refl
count-without p (suc n) l (x ∷ xs) h = omega (arith, count-without p n l xs h)

LeaseKind-cases : (k : LeaseKind) → (k ≡ playback) ⊎ (k ≡ metadata)
LeaseKind-cases playback = inl refl
LeaseKind-cases metadata = inr refl

kind-cases : (k : LeaseKind) → (of_playback k ≡ true) ⊎ (of_metadata k ≡ true)
kind-cases playback = inl refl
kind-cases metadata = inr refl

limited-le :
    (limit i : ℕ) (held : List Held)
    → count (limited limit i) held ≤ count (plays i) held + count (asks i) held
limited-le limit i [] = omega arith
limited-le limit i (l ∷ ls) = elim (kind-cases l.kind) [
  | inl e ↦ rw e (ground (arith, limited-le limit i ls))
  | inr e ↦ rw e (ground (arith, limited-le limit i ls))
]

-- A lease more at an account, and one less.
module _ (limit : ℕ) (held : List Held) (l : Held) where
  other-taken :
      (k : ℕ) (a : AccountState)
      → (k == l.index) ≡ false
      → Counts limit held k a
      → Counts limit (l ∷ held) k a
  other-taken k a e h = rw e (omega arith, omega arith, omega arith)

  taken :
      (now_ms : ℕ) (a : AccountState)
      → ((l.concurrency ≡ 0) ⊎ (limit < l.concurrency)) ⊎ (pool_inflight a < limit)
      → Counts limit held l.index a
      → Counts limit (l ∷ held) l.index (lease_kind l.kind now_ms a)
  unfolding pool_inflight lease_kind take_slot note_selection
  taken now_ms a free h = elim (LeaseKind-cases l.kind) [
    | inl e ↦ rw e (ground (arith, limited-le limit l.index held))
    | inr e ↦ rw e (ground (arith, limited-le limit l.index held))
  ]

module _ (limit : ℕ) (held : List Held) (n : ℕ) (l : Held) (listed : nth n held ≡ some l) where
  other-dropped :
      (k : ℕ) (a : AccountState)
      → (k == l.index) ≡ false
      → Counts limit held k a
      → Counts limit (without n held) k a
  other-dropped k a e h =
      let plays_less = count-without (plays k) n l held listed in
      let asks_less = count-without (asks k) n l held listed in
      let limited_less = count-without (limited limit k) n l held listed in
      (ground arith, ground arith, ground arith)

  dropped :
      (now_ms : ℕ) (a : AccountState)
      → Counts limit held l.index a
      → Counts limit (without n held) l.index (drop_lease l.kind l.rest_ms now_ms a)
  unfolding drop_lease free_slot
  dropped now_ms a h =
      let plays_less = count-without (plays l.index) n l held listed in
      let asks_less = count-without (asks l.index) n l held listed in
      let limited_less = count-without (limited limit l.index) n l held listed in
      elim (LeaseKind-cases l.kind) [ inl e ↦ rw e (ground arith) | inr e ↦ rw e (ground arith) ]

-- An event on the account at an index, where the others are as they were.
module _ (limit i : ℕ) (before after : List Held) (f : AccountState → AccountState)
    (m : AccountManager) where
  at_index :
      ((k : ℕ) (a : AccountState)
        → (k == i) ≡ false
        → Counts limit before k a
        → Counts limit after k a)
      → ((a : AccountState) → Counts limit before i a → Counts limit after i (f a))
      → Each (Counts limit before) 0 m.accounts
      → Each (Counts limit after) 0 (update_at i f m.accounts)
  at_index other here h =
      subst (λ l. Each (Counts limit after) 0 (update_at i f l)) (map_id m.accounts)
        (update_at-Each (Counts limit before) (Counts limit after) (λ a. a) f i i 0 m.accounts
          (omega arith) other (λ a k. here a) h)

tested-Counts :
    (limit : ℕ) (held : List Held) (now now_ms : ℕ) (exclude : List String) (rules : LeaseRules)
    (k : ℕ) (a : AccountState)
    → Counts limit held k a
    → Counts limit held k (if is_usable now exclude a then forget_hour rules now_ms a else a)
unfolding forget_hour
tested-Counts limit held now now_ms exclude rules k a h = ground arith

tested-Each :
    (limit : ℕ) (held : List Held) (now now_ms : ℕ) (exclude : List String) (rules : LeaseRules)
    (i : ℕ) (accounts : List AccountState)
    → Each (Counts limit held) i accounts
    → Each (Counts limit held) i (tested now now_ms exclude rules accounts)
unfolding tested
tested-Each limit held now now_ms exclude rules i [] h = tt
tested-Each limit held now now_ms exclude rules i (x ∷ xs) h = (
  tested-Counts limit held now now_ms exclude rules i x h.0,
  tested-Each limit held now now_ms exclude rules (suc i) xs h.1,
)

-- The account that a selection leases has a free slot, if the selection has a limit.
free-slot :
    (limit : ℕ) (now now_ms : ℕ) (exclude : List String) (rules : LeaseRules) (a : AccountState)
    → is_free rules now_ms a ≡ true
    → ((rules.concurrency ≡ 0) ⊎ (limit < rules.concurrency))
      ⊎ (pool_inflight (if is_usable now exclude a then forget_hour rules now_ms a else a) < limit)
unfolding is_free has_slot forget_hour pool_inflight
free-slot limit now now_ms exclude rules a h = ground arith

module _ (penalty : ℕ → List (ℕ × Bool) → ℕ) (limit : ℕ) where
  take-Counts :
      (now now_ms : ℕ) (exclude : List String) (kind : LeaseKind) (rules : LeaseRules) (s : Pool)
      → IsCounted limit s
      → IsCounted limit (lease_step penalty s (take now now_ms exclude kind rules))
  unfolding lease_step try_lease hold hand_out tested
  take-Counts now now_ms exclude kind rules s all =
      let test : AccountState → AccountState =
        λ a. if is_usable now exclude a then forget_hour rules now_ms a else a in
      let unchanged = tested-Each limit s.held now now_ms exclude rules 0 s.manager.accounts all in
      elim (choose-cases penalty now now_ms exclude kind rules s.manager.rr_seq
        s.manager.accounts) [
          | inl r ↦
              let l : Held = record {
                index = r.0.0;
                kind = kind;
                rest_ms = rules.rest_ms;
                concurrency = rules.concurrency;
              } in
              rw r.1 (
                update_at-Each (Counts limit s.held) (Counts limit (l ∷ s.held)) test
                  (lease_kind kind now_ms) r.0.0 r.0.0 0 s.manager.accounts (omega arith)
                  (λ k a e h.
                    other-taken limit s.held l k (test a) e
                      (tested-Counts limit s.held now now_ms exclude rules k a h))
                  (λ a k h.
                    taken limit s.held l now_ms (test a)
                      (free-slot limit now now_ms exclude rules a (
                        subst (λ b. is_free rules now_ms b ≡ true)
                          (Has-enumerate_unique 0 r.0.0 r.0.1 a s.manager.accounts r.2.0.0 k)
                          r.2.0.2))
                      (tested-Counts limit s.held now now_ms exclude rules r.0.0 a h))
                  all)
          | inr r ↦ elim r.1 [ inl u ↦ rw u.3 unchanged | inr f ↦ rw f.1.1 unchanged ]
        ]

  drop-Counts :
      (n now_ms : ℕ) (s : Pool)
      → IsCounted limit s
      → IsCounted limit (lease_step penalty s (drop n now_ms))
  unfolding lease_step
  drop-Counts n now_ms s all = elim (Option-cases (nth n s.held)) [
    | inl e ↦
        let run : lease_step penalty s (drop n now_ms) ≡ s = rw (lease_step, e) refl in
        subst (IsCounted limit) (sym run) all
    | inr (l, e) ↦
        let end = drop_lease l.kind l.rest_ms now_ms in
        let run : lease_step penalty s (drop n now_ms) ≡ record {
          manager = record (s.manager) { accounts = update_at l.index end s.manager.accounts };
          held = without n s.held;
        } =
          rw (lease_step, e) refl in
        subst (IsCounted limit) (sym run) (
          at_index limit l.index s.held (without n s.held) end s.manager
            (other-dropped limit s.held n l e) (dropped limit s.held n l e now_ms) all)
  ]

  claim-Counts :
      (index now_ms : ℕ) (s : Pool)
      → IsCounted limit s
      → IsCounted limit (lease_step penalty s (claim index now_ms))
  unfolding lease_step
  claim-Counts index now_ms s all =
      let l : Held = record { index = index; kind = playback; rest_ms = 0; concurrency = 0 } in
      at_index limit index s.held (l ∷ s.held) (lease_kind playback now_ms) s.manager
        (other-taken limit s.held l) (λ a. taken limit s.held l now_ms a (inl (inl refl))) all

  -- In any order of selections with any limits and exclusions, claims of a chosen account and ends of
  -- leases, the counters of every account are the numbers of its leases of each kind that are not yet
  -- dropped. And of the leases that an account holds at once, at most `limit` came from selections
  -- with a limit of at most `limit`, whatever else the account has in flight.
  pub lease_run-Counts :
      (es : List LeaseEvent) (s : Pool)
      → IsCounted limit s
      → IsCounted limit (lease_run penalty es s)
  unfolding lease_run
  lease_run-Counts [] s all = all
  lease_run-Counts (take now now_ms exclude kind rules ∷ es) s all =
      lease_run-Counts es (lease_step penalty s (take now now_ms exclude kind rules))
        (take-Counts now now_ms exclude kind rules s all)
  lease_run-Counts (claim index now_ms ∷ es) s all =
      lease_run-Counts es (lease_step penalty s (claim index now_ms))
        (claim-Counts index now_ms s all)
  lease_run-Counts (drop n now_ms ∷ es) s all =
      lease_run-Counts es (lease_step penalty s (drop n now_ms)) (drop-Counts n now_ms s all)
