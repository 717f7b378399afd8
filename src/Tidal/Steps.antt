-- ===== src/Tidal/Steps.antt =====
-- What the steps of `make_request_with_limit` in src/tidal_client.rs leave of the state on one account.
use Prim.Native.String.{String}
use hifi_api_rust.Base.{
  ℕ, ◌+◌, ◌≤◌, ◌≡◌, refl, ap, ◌⊎◌, inl, inr, Bool, true, false, List, [], ◌∷◌, ◌++◌, Option, none,
  some, arith, Has, append-Has, split_bool, ltb,
}
use hifi_api_rust.AppError.{AppError}
use hifi_api_rust.Tokens.Cycle.{is_success}
use hifi_api_rust.Tidal.Services.{Services, Json, Response, Session}
use hifi_api_rust.Tidal.Fallback.{Failover, schedule, leave_account, with_session, at_world}
use hifi_api_rust.Tidal.Request.{
  Reaction, retry, conclude, is_preview, give_way, mark_failed, settled,
}
use hifi_api_rust.Tidal.Trace.{Work, Work-nothing, Work-then}

-- The value is read from a successful answer that is no preview.
abbrev pub Serves : {Value : Type 0} → Json Value → Response → Value → Type 0
Serves json r value =
    (is_success r.status ≡ true)
    × (body : String) × (r.text ≡ inr body)
    × (json.from_str body ≡ some value)
    × (is_preview json value ≡ false)

-- The step from `f` to `g` on an account: at most `n` requests, and no pause that is not a hit.
pub record Moves {W : Type 0} (id : String) (n : ℕ) (f g : Failover W) : Type 0 where
  pub rests : ℕ
  pub work : Work id n rests f.session.calls g.session.calls
  pub hit : f.rate_limits.hits + rests ≤ g.rate_limits.hits
  pub failed : (x : String) → Has x f.failed_ids → Has x g.failed_ids

-- The end of the work on an account, which failed if the next one is asked.
pub record Ends {W Value : Type 0} (id : String) (n : ℕ) (f : Failover W)
    (e : Failover W × Option (AppError ⊎ Value)) : Type 0 where
  pub moves : Moves id n f e.0
  pub hits_at_end : f.rate_limits.hits ≤ 2 → e.0.rate_limits.hits ≤ 3
  pub goes_on :
      e.1 ≡ none → Has id e.0.failed_ids × (f.rate_limits.hits ≤ 2 → e.0.rate_limits.hits ≤ 2)

-- An end that serves no value.
abbrev pub IsFailure : {W Value : Type 0} → Failover W × Option (AppError ⊎ Value) → Type 0
IsFailure {Value = Value} e = (value : Value) → e.1 ≡ some (inr value) → ⊥

abbrev pub Fails :
    {W Value : Type 0} → String → Failover W → Failover W × Option (AppError ⊎ Value) → Type 0
Fails id f e = Ends id 0 f e × IsFailure e

pub Has-last : (x : String) (xs : List String) → Has x (xs ++ x ∷ [])
Has-last x xs = append-Has x xs (x ∷ []) (inr (inl refl))

pub Has-more : (x y : String) (xs : List String) → Has x xs → Has x (xs ++ y ∷ [])
Has-more x y xs h = append-Has x xs (y ∷ []) (inl h)

module _ {W : Type 0} where
  pub Moves-nothing : (id : String) (f : Failover W) → Moves id 0 f f
  Moves-nothing id f = record {
    rests = 0;
    work = Work-nothing id f.session.calls;
    hit = omega arith;
    failed = λ x h. h;
  }

  pub Moves-world : (id : String) (w : W) (f : Failover W) → Moves id 0 f (at_world w f)
  unfolding at_world
  Moves-world id w f = record {
    rests = 0;
    work = Work-nothing id f.session.calls;
    hit = omega arith;
    failed = λ x h. h;
  }

  pub Moves-weaken :
      (id : String) (n m : ℕ) (f g : Failover W) → n ≤ m → Moves id n f g → Moves id m f g
  Moves-weaken id n m f g le a = record {
    rests = a.rests;
    work = record {
      held = a.work.held;
      requests = omega (arith, a.work.requests);
      rests = a.work.rests;
      same_leases = a.work.same_leases;
      kept = a.work.kept;
    };
    hit = a.hit;
    failed = a.failed;
  }

  pub Moves-then :
      (id : String) (n m : ℕ) (f g h : Failover W)
      → Moves id n f g
      → Moves id m g h
      → Moves id (n + m) f h
  Moves-then id n m f g h a b = record {
    rests = a.rests + b.rests;
    work =
        Work-then id n m a.rests b.rests f.session.calls g.session.calls h.session.calls a.work
          b.work;
    hit = omega (arith, a.hit, b.hit);
    failed = λ x k. b.failed x (a.failed x k);
  }

module _ {W Value : Type 0} (api : Services W) (json : Json Value) where
  abbrev pub End : Type 0
  End = Failover W × Option (AppError ⊎ Value)

  -- Another attempt follows only where one is left, and a value comes from the answer.
  abbrev pub GoodReaction : String → Bool → Response → Failover W → Reaction W Value → Type 0
  GoodReaction id more r f (retry refreshed g) =
      (more ≡ true) × Moves id 0 f g × (g.rate_limits ≡ f.rate_limits)
  GoodReaction id more r f (conclude g end) =
      Ends id 0 f (g, end) × ((value : Value) → end ≡ some (inr value) → Serves json r value)

  pub Ends-after :
      (id : String) (n m k : ℕ) (f g : Failover W) (e : End)
      → Moves id n f g
      → g.rate_limits ≡ f.rate_limits
      → Ends id m g e
      → n + m ≤ k
      → Ends id k f e
  Ends-after id n m k f g e a same b le = record {
    moves = Moves-weaken id (n + m) k f e.0 le (Moves-then id n m f g e.0 a b.moves);
    hits_at_end = λ h. b.hits_at_end (omega (arith, ap (λ c. c.hits) same));
    goes_on = λ h.
        let (failed, few) = b.goes_on h in
        (failed, λ l. few (omega (arith, ap (λ c. c.hits) same)));
  }

  pub settled-GoodReaction :
      (id : String) (more : Bool) (r : Response) (f : Failover W) (e : End)
      → Fails id f e
      → GoodReaction id more r f (settled api json e)
  settled-GoodReaction id more r f (g, end) h = (h.0, λ v k. absurd (h.1 v k))

  -- What `give_way` makes of the result of `schedule`.
  abbrev passed_on : Failover W × Option AppError → End
  passed_on (g, end) = elim end [ none ↦ (g, none) | some e ↦ (g, some (inl e)) ]

  -- A 429 that was met on the way may have paused the account.
  pub give_way-Fails :
      (account_try : ℕ) (id : String) (e : AppError) (f : Failover W) (s : Session W) (p : ℕ)
      → Work id 0 p f.session.calls s.calls
      → p ≤ 1
      → Fails {Value = Value} id f (give_way api json account_try id e (with_session s f))
  unfolding give_way schedule with_session
  give_way-Fails account_try id e f s p work le =
      split_bool (λ z. Fails {Value = Value} id f (passed_on z)) (ltb 2 (f.rate_limits.hits + 1)) _
        _
        (λ h. (
          record {
            moves = record { rests = p; work = work; hit = omega arith; failed = λ x k. k };
            hits_at_end = λ k. omega arith;
            goes_on = λ k. absurd (cc k);
          },
          λ v k. cc k,
        ))
        (λ h. (
          record {
            moves = record {
              rests = p;
              work = work;
              hit = omega arith;
              failed = λ x k. Has-more x id f.failed_ids k;
            };
            hits_at_end = λ k. omega arith;
            goes_on = λ k. (Has-last id f.failed_ids, λ l. ground arith);
          },
          λ v k. cc k,
        ))

  pub mark_failed-Fails :
      (id reason : String) (e : AppError) (w : W) (f : Failover W)
      → Fails {Value = Value} id f (mark_failed api json id reason e (at_world w f))
  unfolding mark_failed leave_account at_world
  mark_failed-Fails id reason e w f = (
    record {
      moves = record {
        rests = 0;
        work = Work-nothing id f.session.calls;
        hit = omega arith;
        failed = λ x k. Has-more x id f.failed_ids k;
      };
      hits_at_end = λ k. omega arith;
      goes_on = λ k. (Has-last id f.failed_ids, λ l. l);
    },
    λ v k. cc k,
  )

  pub Ends-now :
      (id : String) (f g : Failover W) (out : AppError ⊎ Value)
      → Moves id 0 f g
      → g.rate_limits ≡ f.rate_limits
      → Ends id 0 f (g, some out)
  Ends-now id f g out moves same = record {
    moves = moves;
    hits_at_end = λ h. omega (arith, ap (λ c. c.hits) same);
    goes_on = λ h. absurd (cc h);
  }
