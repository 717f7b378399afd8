-- ===== src/Tidal/Runs.antt =====
-- One request of src/tidal_client.rs over all the accounts that it tries: how often it is sent, under
-- which leases, and where its value comes from.
use Prim.Native.String.{String}
use hifi_api_rust.Base.{
  ℕ, zero, suc, ◌+◌, ◌*◌, ◌≤◌, ◌<◌, ◌≡◌, refl, sym, subst, ◌⊎◌, inl, inr, Bool, false, ◌&&◌, ◌||◌,
  [], Option, none, some, arith, Has, split_case, split_option, ltb, max,
}
use hifi_api_rust.AppError.{AppError}
use hifi_api_rust.Accounts.Lease.{LeaseKind}
use hifi_api_rust.Tidal.Services.{Services, Json}
use hifi_api_rust.Tidal.Fallback.{Failover, exhausted, with_session, at_world}
use hifi_api_rust.Tidal.Request.{attempts}
use hifi_api_rust.Tidal.Tries.{
  give_back, pick, on_account, tries, first_state, max_account_attempts, make_request,
}
use hifi_api_rust.Tidal.Trace.{sends, pauses, leases, holder, IsUnderLease}
use hifi_api_rust.Tidal.Steps.{Moves-nothing, Moves-world, Ends-after, Ends-now}
use hifi_api_rust.Tidal.Attempts.{Shown, Finishes, attempts-Finishes}
use hifi_api_rust.Tidal.Leases.{
  IsDistinct, IsExcluding, Idle, Leased, Done, Answers, Chooses, Idle-Done, Done-weaken,
  pick-Chooses,
}
use native.Mathlib.Nat.{suc-mul}

suc_times : (n m : ℕ) → suc n * m ≡ m + n * m
suc_times n m = omega (arith, suc-mul n m)

module _ {W Value : Type 0} (api : Services W) (json : Json Value) where
  released-Finishes :
      (id : String) (requests : ℕ) (f g : Failover W) (e : Failover W × Option (AppError ⊎ Value))
      → Leased api json id f g
      → Finishes api json id requests g e
      → let k = with_session (give_back api json id e.0.session) e.0 in
        Done api json requests f k.session.calls
        × (e.1 ≡ none → Idle api json k)
        × ((value : Value) → e.1 ≡ some (inr value) → Shown json id value k.session.calls)
  unfolding give_back with_session
  released-Finishes id requests f g e l (ends, shown) =
      let w = ends.moves.work in
      let held = w.held l.held in
      let same = w.same_leases in
      let distinct : IsExcluding api → IsDistinct (leases e.0.session.calls) =
        λ law. subst IsDistinct (sym same) (l.distinct law) in
      (
        record {
          free = refl;
          under = held;
          requests = omega (arith, w.requests, l.requests);
          rests = omega (arith, w.rests, l.rests, ends.moves.hit, ends.hits_at_end l.few);
          distinct = distinct;
        },
        λ h.
            let (failed, few) = ends.goes_on h in
            record {
              free = refl;
              under = held;
              few = few l.few;
              rests = omega (arith, w.rests, l.rests, ends.moves.hit);
              behind = λ x k. elim (l.behind x (subst (λ xs. Has x xs) same k)) [
                | inl p ↦ subst (λ y. Has y e.0.failed_ids) (sym p) failed
                | inr p ↦ ends.moves.failed x p
              ];
              distinct = distinct;
            },
        λ v h. let (token, r, has, serves) = shown v h in (token, r, inr has, serves),
      )

  on_account-Finishes :
      (kind : LeaseKind) (account_try requests : ℕ) (id : String) (f g : Failover W)
      → 0 < requests
      → Leased api json id f g
      → let r = on_account api json kind account_try requests id g in
        Done api json requests f r.0.session.calls
        × (r.1 ≡ none → Idle api json r.0)
        × ((value : Value) → r.1 ≡ some (inr value) → Shown json id value r.0.session.calls)
  unfolding on_account give_back with_session at_world
  on_account-Finishes kind account_try requests id f g lt l =
      let v = (api.working_client_for id g.session.world).0 in
      let e : Failover W × Option (AppError ⊎ Value) =
        elim (api.working_client_for id g.session.world).1 [
          | some e ↦ (at_world v g, some (inl e))
          | none ↦ attempts api json kind account_try id requests false (at_world v g)
        ] in
      let work : Finishes api json id requests g e =
        split_option (Finishes api json id requests g) (api.working_client_for id g.session.world).1
          _ _
          (λ h.
            let (ends, shown) =
              attempts-Finishes api json kind account_try id requests false (at_world v g) lt in
            (
              Ends-after api json id 0 requests requests g (at_world v g) _ (Moves-world id v g)
                  refl ends (omega arith),
              shown,
            ))
          (λ e h. (
            Ends-after api json id 0 0 requests g (at_world v g) _ (Moves-world id v g) refl
                (Ends-now api json id (at_world v g) (at_world v g) (inl e)
                  (Moves-nothing id (at_world v g)) refl)
                (omega arith),
            λ v o. cc o,
          )) in
      released-Finishes id requests f g e l work

  -- What follows a choice.
  continue-Answers :
      (kind : LeaseKind) (requests left account_try : ℕ) (consumed : Bool) (f g : Failover W)
      (chosen : AppError ⊎ String)
      → 0 < requests
      → Chooses api json f g chosen
      → ((h : Failover W)
          → Idle api json h
          → Answers api json
              (left * requests)
              h
              (tries api json kind requests left (account_try + 1) none consumed h))
      → Answers api json (suc left * requests) f (elim chosen [
        | inl e ↦ (g, inl e)
        | inr id ↦
            let (h, end) = on_account api json kind account_try requests id g in
            elim end [
              | some out ↦ (h, out)
              | none ↦ tries api json kind requests left (account_try + 1) none consumed h
            ]
      ])
  continue-Answers kind requests left account_try consumed f g (inl e) lt done ih = (
    Done-weaken api json 0 (suc left * requests) f g.session.calls (omega arith) done,
    λ v h. cc h,
  )
  continue-Answers kind requests left account_try consumed f g (inr id) lt l ih =
      let r = on_account api json kind account_try requests id g in
      let (done, idle, shown) = on_account-Finishes kind account_try requests id f g lt l in
      split_option (Answers api json (suc left * requests) f) r.1 _ _
        (λ h.
          let (rest, found) = ih r.0 (idle h) in
          (
            record {
              free = rest.free;
              under = rest.under;
              requests = omega (arith, rest.requests, done.requests, suc_times left requests);
              rests = rest.rests;
              distinct = rest.distinct;
            },
            found,
          ))
        (λ out h. (
          Done-weaken api json requests (suc left * requests) f r.0.session.calls
              (omega (arith, suc_times left requests)) done,
          λ v k. (id, shown v (cc (h, k))),
        ))

  tries-Answers :
      (kind : LeaseKind) (requests left account_try : ℕ) (preferred : Option String)
      (consumed : Bool) (f : Failover W)
      → 0 < requests
      → Idle api json f
      → (preferred ≡ none) ⊎ (leases f.session.calls ≡ [])
      → Answers api json
          (left * requests)
          f
          (tries api json kind requests left account_try preferred consumed f)
  unfolding tries
  tries-Answers kind requests zero account_try preferred consumed f lt i first =
      (Idle-Done api json (0 * requests) f i, λ v h. cc h)
  tries-Answers kind requests (suc left) account_try preferred consumed f lt i first =
      split_case (Answers api json (suc left * requests) f)
        (consumed && ltb 0 account_try || exhausted account_try f.rate_limits) _ _
        (λ h. (Idle-Done api json (suc left * requests) f i, λ v h. cc h))
        (λ h.
          let p = pick api json kind account_try preferred f in
          continue-Answers kind requests left account_try p.cooldown_consumed f p.state p.chosen lt
            (pick-Chooses api json kind account_try preferred f i first)
            (λ g j.
              tries-Answers kind requests left (account_try + 1) none p.cooldown_consumed g lt j
                (inl refl)))

  pub request-Answers :
      (preferred : Option String) (account_limit : Option ℕ) (requests_per_account : ℕ)
      (kind : LeaseKind) (w : W)
      → let f = first_state api json (record { world = w; calls = [] }) in
        Answers api json
          (max_account_attempts api json account_limit w * max requests_per_account 1)
          f
          (tries api json kind
            (max requests_per_account 1)
            (max_account_attempts api json account_limit w)
            0
            preferred
            false
            f)
  request-Answers preferred account_limit requests_per_account kind w =
      tries-Answers kind (max requests_per_account 1)
        (max_account_attempts api json account_limit w) 0 preferred false _ (ground arith)
        (record {
          free = refl;
          under = tt;
          few = omega arith;
          rests = omega arith;
          behind = λ x h. h;
          distinct = λ law. tt;
        })
        (inr refl)

  -- One request, whatever Tidal and the other parts answer, as long as no excluded account is ever
  -- leased: it is sent at most once for each attempt that each of the accounts is allowed, at most
  -- three 429s pause an account for it, every message and every pause is of the account whose lease is
  -- held at that time, one lease is held at a time and none at the end, and no account is leased twice.
  pub make_request-Done :
      (preferred : Option String) (account_limit : Option ℕ) (requests_per_account : ℕ)
      (kind : LeaseKind) (w : W)
      → IsExcluding api
      → let cs =
          (make_request api json preferred account_limit requests_per_account kind
            (record { world = w; calls = [] })).0.calls in
        (sends cs ≤ max_account_attempts api json account_limit w * max requests_per_account 1)
        × (pauses cs ≤ 3)
        × (holder cs ≡ none)
        × IsUnderLease cs
        × IsDistinct (leases cs)
  unfolding make_request
  make_request-Done preferred account_limit requests_per_account kind w law =
      let d = (request-Answers preferred account_limit requests_per_account kind w).0 in
      (omega (arith, d.requests), d.rests, d.free, d.under, d.distinct law)

  -- A value that one request returns is the body of a successful answer of Tidal to a request of its
  -- own, and is not marked as a preview.
  pub make_request-Shown :
      (preferred : Option String) (account_limit : Option ℕ) (requests_per_account : ℕ)
      (kind : LeaseKind) (w : W) (value : Value)
      → let r =
          make_request api json preferred account_limit requests_per_account kind
            (record { world = w; calls = [] }) in
        r.1 ≡ inr value → (id : String) × Shown json id value r.0.calls
  unfolding make_request
  make_request-Shown preferred account_limit requests_per_account kind w value h =
      (request-Answers preferred account_limit requests_per_account kind w).1 value h
