-- ===== src/Tidal/Attempts.antt =====
-- The attempts on one account in `make_request_with_limit` of src/tidal_client.rs.
use Prim.Native.String.{String}
use hifi_api_rust.Base.{
  ℕ, zero, suc, ◌<◌, ◌≡◌, refl, ◌⊎◌, inl, inr, Bool, List, Option, none, some, arith, Has,
  split_bool, split_option, split_sum, ltb, ltb→lt,
}
use hifi_api_rust.AppError.{AppError, rate_limited}
use hifi_api_rust.Accounts.Lease.{LeaseKind}
use hifi_api_rust.Tidal.Services.{Services, Json, Response, Session, Call, sent, deliver}
use hifi_api_rust.Tidal.Fallback.{Failover, with_session, at_world}
use hifi_api_rust.Tidal.Request.{Reaction, retry, conclude, is_rate_limited, react, attempts}
use hifi_api_rust.Tidal.Trace.{Work, Work-nothing, Work-sent}
use hifi_api_rust.Tidal.Reactions.{react-GoodReaction}
use hifi_api_rust.Tidal.Steps.{
  Serves, Moves, Ends, Fails, GoodReaction, Moves-nothing, Moves-world, Ends-after, Ends-now,
  give_way-Fails, mark_failed-Fails,
}

-- A value comes from an answer to a request for the account `id`.
abbrev pub Shown : {Value : Type 0} → Json Value → String → Value → List Call → Type 0
Shown json id value cs =
    (token : String) × (r : Response) × Has (sent id token (some r)) cs × Serves json r value

module _ {W Value : Type 0} (api : Services W) (json : Json Value) where
  abbrev pub Finishes : String → ℕ → Failover W → Failover W × Option (AppError ⊎ Value) → Type 0
  Finishes id n f e =
      Ends id n f e
      × ((value : Value) → e.1 ≡ some (inr value) → Shown json id value e.0.session.calls)

  Fails-Finishes :
      (id : String) (n : ℕ) (f : Failover W) (e : Failover W × Option (AppError ⊎ Value))
      → Fails id f e
      → Finishes id n f e
  Fails-Finishes id n f e (ends, none_served) = (
    Ends-after api json id 0 0 n f f e (Moves-nothing id f) refl ends (omega arith),
    λ v h. absurd (none_served v h),
  )

  pub deliver-sent :
      (id token : String) (s : Session W)
      → Work id 1 0 s.calls (deliver api id token s).0.calls
        × ((r : Response)
            → (deliver api id token s).1 ≡ inr r
            → Has (sent id token (some r)) (deliver api id token s).0.calls)
  unfolding deliver
  deliver-sent id token s =
      split_sum
        (λ (z : Session W × (AppError ⊎ Response)).
          Work id 1 0 s.calls z.0.calls
          × ((r : Response) → z.1 ≡ inr r → Has (sent id token (some r)) z.0.calls))
        (api.send id token s.world).1 _ _ (λ e h. (Work-sent id token none s.calls, λ r k. cc k))
        (λ a h. (Work-sent id token (some a) s.calls, λ r k. inl (cc k)))

  follow-Finishes :
      (id token : String) (n left : ℕ) (r : Response) (f g : Failover W)
      (next : Bool → Failover W → Failover W × Option (AppError ⊎ Value))
      → Moves id 1 f g
      → g.rate_limits ≡ f.rate_limits
      → Has (sent id token (some r)) g.session.calls
      → ((refreshed : Bool) (h : Failover W) → 0 < left → Finishes id left h (next refreshed h))
      → (z : Reaction W Value) → GoodReaction api json id (ltb 0 left) r g z
      → Finishes id
          (suc left)
          f
          (elim z [ retry refreshed h ↦ next refreshed h | conclude h end ↦ (h, end) ])
  follow-Finishes id token n left r f g next moves same has ih (retry refreshed h)
        (more, steps, kept) =
      let (ends, shown) = ih refreshed h (ltb→lt 0 left more) in
      (
        Ends-after api json id 1 left (suc left) f g _ moves same
            (Ends-after api json id 0 left left g h _ steps kept ends (omega arith)) (omega arith),
        shown,
      )
  follow-Finishes id token n left r f g next moves same has ih (conclude h end) (ends, serves) = (
    Ends-after api json id 1 0 (suc left) f g _ moves same ends (omega arith),
    λ v e. (token, r, ends.moves.work.kept (sent id token (some r)) has, serves v e),
  )

  pub attempts-Finishes :
      (kind : LeaseKind) (account_try : ℕ) (id : String) (left : ℕ) (refreshed : Bool)
      (f : Failover W)
      → 0 < left
      → Finishes id left f (attempts api json kind account_try id left refreshed f)
  unfolding attempts at_world with_session
  attempts-Finishes kind account_try id zero refreshed f h = absurd (omega (arith, h))
  attempts-Finishes kind account_try id (suc left) refreshed f h =
      let P = Finishes id (suc left) f in
      let (w, got) = api.get_token id f.session.world in
      let g = at_world w f in
      split_sum P got _ _
        (λ e k.
          split_bool P (is_rate_limited e) _ _
            (λ l. Fails-Finishes id (suc left) f _ (
              give_way-Fails api json account_try id e f g.session 0
                (Work-nothing id f.session.calls) (omega arith)))
            (λ l. Fails-Finishes id (suc left) f _ (mark_failed-Fails api json id _ e w f)))
        (λ token k.
          split_option P (api.rate_limit_remaining id w) _ _
            (λ l.
              let v = (api.working_client_for id w).0 in
              split_option P (api.working_client_for id w).1 _ _
                (λ m.
                  let start = (at_world v f).session in
                  let s = (deliver api id token start).0 in
                  let (work, has) = deliver-sent id token start in
                  let moves : Moves id 1 f (with_session s f) = record {
                    rests = 0;
                    work = work;
                    hit = omega arith;
                    failed = λ x n. n;
                  } in
                  split_sum P (deliver api id token start).1 _ _
                    (λ e n. (
                      Ends-after api json id 1 0 (suc left) f (with_session s f) _ moves refl
                          (Ends-now api json id (with_session s f) (with_session s f) (inl e)
                            (Moves-nothing id (with_session s f)) refl)
                          (omega arith),
                      λ v o. cc o,
                    ))
                    (λ r n.
                      follow-Finishes id token 0 left r f (with_session s f)
                        (attempts api json kind account_try id left) moves refl (has r n)
                        (λ now_refreshed h lt.
                          attempts-Finishes kind account_try id left now_refreshed h lt)
                        (react api json (ltb 0 left) refreshed kind account_try id token r
                          (with_session s f))
                        (react-GoodReaction api json (ltb 0 left) refreshed kind account_try id
                          token r (with_session s f))))
                (λ e m. (
                  Ends-after api json id 0 0 (suc left) f (at_world v f) _ (Moves-world id v f) refl
                      (Ends-now api json id (at_world v f) (at_world v f) (inl e)
                        (Moves-nothing id (at_world v f)) refl)
                      (omega arith),
                  λ v o. cc o,
                )))
            (λ seconds l. Fails-Finishes id (suc left) f _ (
              give_way-Fails api json account_try id (rate_limited seconds) f g.session 0
                (Work-nothing id f.session.calls) (omega arith))))
