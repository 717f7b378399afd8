-- ===== src/Tidal/Leases.antt =====
-- The leases that one request of src/tidal_client.rs takes, and what holds between two of them.
use Prim.Native.String.{String}
use hifi_api_rust.Base.{
  ℕ, ◌+◌, ◌≤◌, ◌≡◌, refl, subst, ◌⊎◌, inl, inr, List, [], ◌∷◌, Option, none, some, arith, Has,
  append-Has, split_bool, split_option, split_sum, ltb,
}
use hifi_api_rust.AppError.{AppError, rate_limited}
use hifi_api_rust.Accounts.Lease.{LeaseKind}
use hifi_api_rust.Tidal.Services.{Services, Json, Call, leased}
use hifi_api_rust.Tidal.Fallback.{Failover, schedule, with_session, at_world}
use hifi_api_rust.Tidal.Tries.{AccountChoice, lease_pool_account, lease_alternative, pick}
use hifi_api_rust.Tidal.Trace.{sends, pauses, leases, holder, IsUnderLease, Held}
use hifi_api_rust.Tidal.Attempts.{Shown}

abbrev pub IsDistinct : List String → Type 0
IsDistinct [] = Unit
IsDistinct (x ∷ xs) = (Has x xs → ⊥) × IsDistinct xs

-- A lease is never of an account that the caller excludes.
abbrev pub IsExcluding : {W : Type 0} → Services W → Type 0
IsExcluding {W = W} api =
    (ids : List String) (kind : LeaseKind) (w : W) (id : String)
    → (api.lease_account_for ids kind w).1 ≡ inr id
    → Has id ids
    → ⊥

module _ {W Value : Type 0} (api : Services W) (json : Json Value) where
  -- Between two accounts: no lease is held, and every account that was leased has failed.
  pub record Idle (f : Failover W) : Type 0 where
    pub free : holder f.session.calls ≡ none
    pub under : IsUnderLease f.session.calls
    pub few : f.rate_limits.hits ≤ 2
    pub rests : pauses f.session.calls ≤ f.rate_limits.hits
    pub behind : (x : String) → Has x (leases f.session.calls) → Has x f.failed_ids
    pub distinct : IsExcluding api → IsDistinct (leases f.session.calls)

  -- An account was leased.
  pub record Leased (id : String) (f g : Failover W) : Type 0 where
    pub held : Held id g.session.calls
    pub requests : sends g.session.calls ≤ sends f.session.calls
    pub few : g.rate_limits.hits ≤ 2
    pub rests : pauses g.session.calls ≤ g.rate_limits.hits
    pub behind : (x : String) → Has x (leases g.session.calls) → (x ≡ id) ⊎ Has x g.failed_ids
    pub distinct : IsExcluding api → IsDistinct (leases g.session.calls)

  -- The request is over, after at most `n` more messages to Tidal.
  pub record Done (n : ℕ) (f : Failover W) (cs : List Call) : Type 0 where
    pub free : holder cs ≡ none
    pub under : IsUnderLease cs
    pub requests : sends cs ≤ sends f.session.calls + n
    pub rests : pauses cs ≤ 3
    pub distinct : IsExcluding api → IsDistinct (leases cs)

  abbrev pub Answers : ℕ → Failover W → Failover W × (AppError ⊎ Value) → Type 0
  Answers n f (g, out) =
      Done n f g.session.calls
      × ((value : Value) → out ≡ inr value → (id : String) × Shown json id value g.session.calls)

  pub Idle-Done : (n : ℕ) (f : Failover W) → Idle f → Done n f f.session.calls
  Idle-Done n f i = record {
    free = i.free;
    under = i.under;
    requests = omega arith;
    rests = omega (arith, i.rests, i.few);
    distinct = i.distinct;
  }

  pub Done-weaken : (n m : ℕ) (f : Failover W) (cs : List Call) → n ≤ m → Done n f cs → Done m f cs
  Done-weaken n m f cs le d = record {
    free = d.free;
    under = d.under;
    requests = omega (arith, d.requests);
    rests = d.rests;
    distinct = d.distinct;
  }

  abbrev pub Chooses : Failover W → Failover W → AppError ⊎ String → Type 0
  Chooses f g (inl e) = Done 0 f g.session.calls
  Chooses f g (inr id) = Leased id f g

  take_lease-Leased :
      (id : String) (f g : Failover W)
      → Idle g
      → sends g.session.calls ≤ sends f.session.calls
      → (IsExcluding api → Has id (leases g.session.calls) → ⊥)
      → Leased id f (with_session (record g.session { calls = leased id ∷ g.session.calls }) g)
  unfolding with_session
  take_lease-Leased id f g i le new = record {
    held = (refl, (i.free, i.under));
    requests = le;
    few = i.few;
    rests = i.rests;
    behind = λ x h. ground (arith, i.behind x);
    distinct = λ law. (new law, i.distinct law);
  }

  Idle-world : (w : W) (f : Failover W) → Idle f → Idle (at_world w f)
  unfolding at_world
  Idle-world w f i = record {
    free = i.free;
    under = i.under;
    few = i.few;
    rests = i.rests;
    behind = i.behind;
    distinct = i.distinct;
  }

  lease_pool_account-Chooses :
      (kind : LeaseKind) (f : Failover W)
      → Idle f
      → let r = lease_pool_account api json kind f in Chooses f r.0 r.1
  unfolding lease_pool_account at_world
  lease_pool_account-Chooses kind f i =
      let (w, got) = api.lease_account_for f.failed_ids kind f.session.world in
      split_sum (λ (z : Failover W × (AppError ⊎ String)). Chooses f z.0 z.1)
        (api.lease_account_for f.failed_ids kind f.session.world).1 _ _ (λ e h. Idle-Done 0 f i)
        (λ id h.
          take_lease-Leased id f (at_world w f) (Idle-world w f i) (omega arith)
            (λ law k. law f.failed_ids kind f.session.world id h (i.behind id k)))

  schedule-Idle :
      (account_try : ℕ) (id : String) (error : AppError) (f : Failover W)
      → Idle f
      → let r = schedule account_try id error f in
        Done 0 f r.0.session.calls
        × (sends r.0.session.calls ≤ sends f.session.calls)
        × (r.1 ≡ none → Idle r.0)
  unfolding schedule
  schedule-Idle account_try id error f i =
      let over = ltb 2 (f.rate_limits.hits + 1) in
      split_bool
        (λ (r : Failover W × Option AppError).
          Done 0 f r.0.session.calls
          × (sends r.0.session.calls ≤ sends f.session.calls)
          × (r.1 ≡ none → Idle r.0))
        over _ _ (λ h. (Idle-Done 0 f i, omega arith, λ k. absurd (cc k)))
        (λ h. (
          Idle-Done 0 f i,
          omega arith,
          λ k. record {
            free = i.free;
            under = i.under;
            few = ground arith;
            rests = omega (arith, i.rests);
            behind = λ x l. append-Has x f.failed_ids (id ∷ []) (inl (i.behind x l));
            distinct = i.distinct;
          },
        ))

  lease_alternative-Chooses :
      (kind : LeaseKind) (account_try seconds : ℕ) (id : String) (f : Failover W)
      → Idle f
      → let p = lease_alternative api json kind account_try seconds id f in
        Chooses f p.state p.chosen
  unfolding lease_alternative at_world
  lease_alternative-Chooses kind account_try seconds id f i =
      let P : AccountChoice W → Type 0 = λ p. Chooses f p.state p.chosen in
      let g = (schedule account_try id (rate_limited seconds) f).0 in
      let (done, le, next) = schedule-Idle account_try id (rate_limited seconds) f i in
      split_option P (schedule account_try id (rate_limited seconds) f).1 _ _
        (λ h.
          let w = (api.lease_account_for g.failed_ids kind g.session.world).0 in
          split_sum P (api.lease_account_for g.failed_ids kind g.session.world).1 _ _ (λ e k. done)
            (λ other k.
              take_lease-Leased other f (at_world w g) (Idle-world w g (next h)) le
                (λ law l. law g.failed_ids kind g.session.world other k ((next h).behind other l))))
        (λ e h. done)

  pub pick-Chooses :
      (kind : LeaseKind) (account_try : ℕ) (preferred : Option String) (f : Failover W)
      → Idle f
      → (preferred ≡ none) ⊎ (leases f.session.calls ≡ [])
      → let p = pick api json kind account_try preferred f in Chooses f p.state p.chosen
  unfolding pick at_world
  pick-Chooses kind account_try none f i first = lease_pool_account-Chooses kind f i
  pick-Chooses kind account_try (some id) f i (inl e) = absurd (cc e)
  pick-Chooses kind account_try (some id) f i (inr e) =
      split_option (λ (p : AccountChoice W). Chooses f p.state p.chosen)
        (api.rate_limit_remaining id f.session.world) _ _
        (λ h.
          take_lease-Leased id f (at_world (api.lease id f.session.world) f) (Idle-world _ f i)
            (omega arith) (λ law k. subst (λ xs. Has id xs) e k))
        (λ seconds h. lease_alternative-Chooses kind account_try seconds id f i)
