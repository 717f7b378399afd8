-- ===== src/Tidal/Tracks.antt =====
-- The requests of the subscription lookup and of the probe in src/tidal_client.rs, and what one track
-- of the probe shows.
use Prim.Native.String.{String}
use hifi_api_rust.Base.{
  ℕ, suc, ◌+◌, ◌≤◌, ◌≡◌, refl, subst, sym, ◌⊎◌, inr, Bool, true, false, not, ◌&&◌, List, ◌∷◌,
  Option, some, arith, split_bool, split_case, split_option, split_sum, ◌==◌, if◌then◌else◌,
}
use hifi_api_rust.AppError.{AppError}
use hifi_api_rust.Tidal.Services.{
  Services, Json, Response, Session, Call, sent, paused, is_text, deliver_timed, pause,
}
use hifi_api_rust.Tidal.Probe.{
  json_body, premium, preview_only, unknown, error, Probed, verdict, preview, world_of, judge,
  probe_track,
}
use hifi_api_rust.Tidal.Asks.{
  is_presented, presented, Asks, Asks-nothing, Asks-answered, Asks-unanswered, Asks-paused,
  Asks-then, Fits,
}

module _ {W Value : Type 0} (api : Services W) (json : Json Value) where
  abbrev pub TrackEnds : ℕ → Session W → Session W × Option Probed → Type 0
  TrackEnds n s (t, end) =
      (p : Probed) × (end ≡ some p) × Asks json n s.calls t.calls × Fits json s.calls t.calls p

  -- An answer was taken since `cs`.
  abbrev pub Answered : List Call → Response → List Call → Type 0
  Answered cs r ds =
      Asks json 1 cs ds
      × ((text : String)
          → presented json text cs + (if is_presented json text r then 1 else 0)
            ≤ presented json text ds)

  pub deliver_timed-Asks :
      (id token : String) (s : Session W)
      → let r = deliver_timed api id token s in
        Asks json 1 s.calls r.0.calls
        × ((a : Response) → r.1 ≡ inr a → Answered s.calls a r.0.calls)
  unfolding deliver_timed
  deliver_timed-Asks id token s =
      let P : Session W × (AppError ⊎ Response) → Type 0 = λ r.
        Asks json 1 s.calls r.0.calls
        × ((a : Response) → r.1 ≡ inr a → Answered s.calls a r.0.calls) in
      split_sum P (api.timed_send id token s.world).1 _ _
        (λ lost h.
          split_option P lost _ _ (λ k. (Asks-unanswered json id token s.calls, λ a l. cc l))
            (λ e k. (Asks-unanswered json id token s.calls, λ a l. cc l)))
        (λ r h. (
          Asks-answered json id token r s.calls,
          λ a l.
              let same : r ≡ a = cc l in
              subst (λ x. Answered s.calls x (sent id token (some r) ∷ s.calls)) same
                (Asks-answered json id token r s.calls, λ text. omega arith),
        ))

  is_presented-true :
      (text : String) (r : Response) (value : Value)
      → r.status == 200 ≡ true
      → json_body json r ≡ some value
      → is_text text (json.asset_presentation value) ≡ true
      → is_presented json text r ≡ true
  is_presented-true text r value a b c = rw (a, b) c

  Answered-presented :
      (text : String) (r : Response) (cs ds : List Call)
      → Answered cs r ds
      → is_presented json text r ≡ true
      → presented json text cs + 1 ≤ presented json text ds
  Answered-presented text r cs ds (asks, shown) h =
      subst (λ b. presented json text cs + (if b then 1 else 0) ≤ presented json text ds) h
        (shown text)

  judge-Ends :
      (id token : String) (r : Response) (s t : Session W)
      → Answered s.calls r t.calls
      → TrackEnds 1 s (judge api json id token r t)
  unfolding judge pause
  judge-Ends id token r s t (asks, shown) =
      let P = TrackEnds 1 s in
      split_bool P (r.status == 200) _ _
        (λ a.
          split_option P (json_body json r) _ _ (λ b. (verdict (unknown _), refl, asks, tt))
            (λ value b.
              split_bool P (is_text "FULL" (json.asset_presentation value)) _ _
                (λ c. (
                  verdict premium,
                  refl,
                  asks,
                  Answered-presented "FULL" r s.calls t.calls (asks, shown)
                      (is_presented-true "FULL" r value a b c),
                ))
                (λ c.
                  split_bool P (is_text "PREVIEW" (json.asset_presentation value)) _ _
                    (λ d. (
                      preview token,
                      refl,
                      asks,
                      Answered-presented "PREVIEW" r s.calls t.calls (asks, shown)
                          (is_presented-true "PREVIEW" r value a b d),
                    ))
                    (λ d. (verdict (unknown _), refl, asks, tt)))))
        (λ a.
          split_bool P (r.status == 401) _ _ (λ b. (verdict (unknown _), refl, asks, tt))
            (λ b.
              split_bool P (r.status == 403) _ _ (λ c. (verdict (unknown _), refl, asks, tt))
                (λ c.
                  split_bool P (r.status == 429) _ _
                    (λ d. (
                      verdict (unknown _),
                      refl,
                      Asks-then json 1 0 1 s.calls t.calls (paused id _ ∷ t.calls) asks
                          (Asks-paused json id _ t.calls) (omega arith),
                      tt,
                    ))
                    (λ d. (verdict (unknown _), refl, asks, tt)))))

  Fits-from :
      (cs ds es : List Call) (p : Probed)
      → presented json "FULL" cs ≤ presented json "FULL" ds
      → presented json "PREVIEW" cs ≤ presented json "PREVIEW" ds
      → Fits json ds es p
      → Fits json cs es p
  Fits-from cs ds es (verdict premium) f g h = omega (arith, f, h)
  Fits-from cs ds es (verdict preview_only) f g h = h
  Fits-from cs ds es (verdict (unknown reason)) f g h = h
  Fits-from cs ds es (verdict (error reason)) f g h = h
  Fits-from cs ds es (preview token) f g h = omega (arith, g, h)

  TrackEnds-after :
      (n m k : ℕ) (s t : Session W) (e : Session W × Option Probed)
      → Asks json n s.calls t.calls
      → n + m ≤ k
      → TrackEnds m t e
      → TrackEnds k s e
  TrackEnds-after n m k s t e a le (p, h, asks, fits) = (
    p,
    h,
    Asks-then json n m k s.calls t.calls e.0.calls a asks le,
    Fits-from s.calls t.calls e.0.calls p a.full a.previews fits,
  )

  -- One round of the loop, with what the next one sends.
  probe_track-step :
      (fuel m : ℕ) (retried : Bool) (id token : String) (s : Session W)
      → ((new : String) (t : Session W)
          → retried ≡ false
          → TrackEnds m t (probe_track api json fuel true id new t))
      → TrackEnds (1 + m) s (probe_track api json (suc fuel) retried id token s)
  unfolding probe_track
  probe_track-step fuel m retried id token s next =
      let P = TrackEnds (1 + m) s in
      let none_asked : (reason : String) (t : Session W)
          → t.calls ≡ s.calls
          → P (t, some (verdict (unknown reason))) =
        λ reason t e. (
          verdict (unknown reason),
          refl,
          subst (Asks json (1 + m) s.calls) (sym e) (Asks-nothing json (1 + m) s.calls),
          tt,
        ) in
      split_option P (api.rate_limit_remaining id s.world) _ _
        (λ h.
          let start = world_of api json (api.working_client_for id s.world).0 s in
          split_option P (api.working_client_for id s.world).1 _ _
            (λ k.
              let t = (deliver_timed api id token start).0 in
              let (asks, answered) = deliver_timed-Asks id token start in
              split_sum P (deliver_timed api id token start).1 _ _
                (λ e l. (
                  verdict (unknown _),
                  refl,
                  Asks-then json 1 0 (1 + m) s.calls t.calls t.calls asks
                      (Asks-nothing json 0 t.calls) (omega arith),
                  tt,
                ))
                (λ r l.
                  split_case P (r.status == 401 && not retried) _ _
                    (λ again.
                      let v = (api.refresh_after_unauthorized id token t.world).0 in
                      split_sum P (api.refresh_after_unauthorized id token t.world).1 _ _
                        (λ e n. (
                          verdict (unknown _),
                          refl,
                          Asks-then json 1 0 (1 + m) s.calls t.calls t.calls asks
                              (Asks-nothing json 0 t.calls) (omega arith),
                          tt,
                        ))
                        (λ new n.
                          TrackEnds-after 1 m (1 + m) s (world_of api json v t)
                            (probe_track api json fuel true id new (world_of api json v t)) asks
                            (omega arith) (next new (world_of api json v t) (ground arith))))
                    (λ once.
                      TrackEnds-after 0 1 (1 + m) s s (judge api json id token r t)
                        (Asks-nothing json 0 s.calls) (omega arith)
                        (judge-Ends id token r s t (answered r l)))))
            (λ e k. none_asked _ start refl))
        (λ seconds h. none_asked _ s refl)

  -- Fuel for two rounds is enough: the second one has refreshed the token.
  pub probe_track-Ends :
      (id token : String) (s : Session W) → TrackEnds 2 s (probe_track api json 2 false id token s)
  probe_track-Ends id token s =
      probe_track-step 1 1 false id token s
        (λ new t h. probe_track-step 0 0 true id new t (λ again u k. absurd (cc k)))
