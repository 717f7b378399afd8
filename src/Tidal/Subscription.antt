-- ===== src/Tidal/Subscription.antt =====
-- The end of the subscription lookup in src/tidal_client.rs.
use hifi_api_rust.Base.{
  ℕ, suc, ◌+◌, ◌≤◌, ◌≡◌, refl, ◌⊎◌, inl, Bool, true, false, not, ◌&&◌, ◌∷◌, Option, inr, String,
  some, arith, split_bool, split_case, split_option, split_sum, ◌==◌,
}
use hifi_api_rust.AppError.{AppError, rate_limited, upstream_error}
use hifi_api_rust.Tidal.Services.{Services, Json, Session, paused, deliver_timed, pause}
use hifi_api_rust.Tidal.Probe.{world_of, subscription_get}
use hifi_api_rust.Tidal.Account.{known_user, find_user, user_subscription, account_subscription}
use hifi_api_rust.Tidal.Trace.{sends}
use hifi_api_rust.Tidal.Asks.{Asks, Asks-nothing, Asks-then, Asks-paused}
use hifi_api_rust.Tidal.Tracks.{deliver_timed-Asks}

module _ {W Value : Type 0} (api : Services W) (json : Json Value) where
  abbrev LookupEnds : ℕ → Session W → Session W × Option (String × (AppError ⊎ Value)) → Type 0
  LookupEnds n s (t, end) =
      (e : String × (AppError ⊎ Value)) × (end ≡ some e) × Asks json n s.calls t.calls

  -- One round of the loop, with what the next one sends.
  subscription_get-step :
      (fuel m : ℕ) (retried : Bool) (id token : String) (s : Session W)
      → ((new : String) (t : Session W)
          → retried ≡ false
          → LookupEnds m t (subscription_get api json fuel true id new t))
      → LookupEnds (1 + m) s (subscription_get api json (suc fuel) retried id token s)
  unfolding subscription_get pause
  subscription_get-step fuel m retried id token s next =
      let P = LookupEnds (1 + m) s in
      split_option P (api.rate_limit_remaining id s.world) _ _
        (λ h.
          let t = (deliver_timed api id token s).0 in
          let (asks, answered) = deliver_timed-Asks api json id token s in
          let over : Asks json (1 + m) s.calls t.calls =
            Asks-then json 1 0 (1 + m) s.calls t.calls t.calls asks (Asks-nothing json 0 t.calls)
              (omega arith) in
          split_sum P (deliver_timed api id token s).1 _ _ (λ e l. ((token, inl e), refl, over))
            (λ r l.
              split_case P (r.status == 401 && not retried) _ _
                (λ again.
                  let v = (api.refresh_after_unauthorized id token t.world).0 in
                  split_sum P (api.refresh_after_unauthorized id token t.world).1 _ _
                    (λ e n. ((token, inl e), refl, over))
                    (λ new n.
                      let (e, same, later) = next new (world_of api json v t) (ground arith) in
                      (
                        e,
                        same,
                        Asks-then json 1 m (1 + m) s.calls t.calls
                            (subscription_get api json fuel true id new
                              (world_of api json v t)).0.calls
                            asks later (omega arith),
                      )))
                (λ once.
                  split_bool P (r.status == 200) _ _ (λ a. (_, refl, over))
                    (λ a.
                      split_bool P (r.status == 429) _ _
                        (λ b. (
                          (
                            token,
                            inl (rate_limited (api.pause_account id r.retry_after t.world).1),
                          ),
                          refl,
                          Asks-then json 1 0 (1 + m) s.calls t.calls
                              (paused id (api.pause_account id r.retry_after t.world).1 ∷ t.calls)
                              asks (Asks-paused json id _ t.calls) (omega arith),
                        ))
                        (λ b.
                          split_bool
                            (λ (u : Session W).
                              LookupEnds (1 + m) s
                                (u, some (token, inl (upstream_error 502 "Tidal HTTP error"))))
                            (r.status == 401) _ _ (λ c. (_, refl, over)) (λ c. (_, refl, over)))))))
        (λ seconds h.
          ((token, inl (rate_limited seconds)), refl, Asks-nothing json (1 + m) s.calls))

  -- The loop of a subscription lookup ends: it comes to an answer after at most two requests, whatever
  -- the account, its tokens and Tidal do, since only the first 401 leads to another round.
  subscription_get-Ends :
      (id token : String) (s : Session W)
      → let r = subscription_get api json 2 false id token s in
        (end : String × (AppError ⊎ Value)) × (r.1 ≡ some end)
        × (sends r.0.calls ≤ sends s.calls + 2)
  subscription_get-Ends id token s =
      let (e, h, asks) =
        subscription_get-step 1 1 false id token s
          (λ new t h. subscription_get-step 0 0 true id new t (λ again u k. absurd (cc k))) in
      (e, h, asks.requests)

  -- An end that is reached, after at most `n` requests.
  abbrev Reaches : {A : Type 0} → ℕ → Session W → Session W × Option A → Type 0
  Reaches {A = A} n s (t, end) = (a : A) × (end ≡ some a) × (sends t.calls ≤ sends s.calls + n)

  find_user-Reaches :
      (id token : String) (s : Session W) → Reaches 2 s (find_user api json id token s)
  unfolding find_user
  find_user-Reaches id token s =
      let P : Session W × Option (AppError ⊎ (String × String)) → Type 0 = Reaches 2 s in
      let r = subscription_get api json 2 false id token s in
      let (p, same, le) = subscription_get-Ends id token s in
      split_option P (known_user api json id s.world) _ _
        (λ a.
          split_option P r.1 _ _ (λ b. absurd (cc (b, same)))
            (λ q b.
              split_sum P q.1 _ _ (λ e c. (inl e, refl, le))
                (λ session c.
                  split_option P (json.session_user session) _ _ (λ d. (inl _, refl, le))
                    (λ user d. (inr (q.0, user), refl, le)))))
        (λ user a. (inr (token, user), refl, omega arith))

  user_subscription-Reaches :
      (id token user : String) (s : Session W)
      → Reaches 2 s (user_subscription api json id token user s)
  unfolding user_subscription
  user_subscription-Reaches id token user s =
      let P : Session W × Option (AppError ⊎ (String × Value)) → Type 0 = Reaches 2 s in
      let r = subscription_get api json 2 false id token s in
      let (p, same, le) = subscription_get-Ends id token s in
      split_option P r.1 _ _ (λ b. absurd (cc (b, same)))
        (λ q b.
          split_sum P q.1 _ _ (λ e c. (inl e, refl, le)) (λ body c. (inr (user, body), refl, le)))

  -- A subscription lookup ends: its loops come to an answer after at most four requests, two for the
  -- session and two for the subscription, whatever the account, its tokens and Tidal do, since only
  -- the first 401 of a loop leads to another round.
  pub account_subscription-Ends :
      (id : String) (s : Session W)
      → let r = account_subscription api json id s in
        (out : AppError ⊎ (String × Value)) × (r.1 ≡ some out)
        × (sends r.0.calls ≤ sends s.calls + 4)
  unfolding account_subscription
  account_subscription-Ends id s =
      let P : Session W × Option (AppError ⊎ (String × Value)) → Type 0 = Reaches 4 s in
      let w = (api.working_client_for id s.world).0 in
      split_option P (api.working_client_for id s.world).1 _ _
        (λ a.
          split_sum P (api.get_token id w).1 _ _ (λ e b. (inl e, refl, omega arith))
            (λ token b.
              let start = world_of api json (api.get_token id w).0 s in
              let r = find_user api json id token start in
              let (p, same, le) = find_user-Reaches id token start in
              split_option P r.1 _ _ (λ c. absurd (cc (c, same)))
                (λ out c.
                  split_sum P out _ _ (λ e d. (inl e, refl, omega (arith, le)))
                    (λ who d.
                      let (end, last, more) = user_subscription-Reaches id who.0 who.1 r.0 in
                      (end, last, omega (arith, le, more))))))
        (λ e a. (inl e, refl, omega arith))
