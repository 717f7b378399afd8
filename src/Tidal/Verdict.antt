-- ===== src/Tidal/Verdict.antt =====
-- What a verdict of the probe in src/tidal_client.rs rests on, and the end of its loops.
use Prim.Native.String.{String}
use hifi_api_rust.Base.{
  ℕ, suc, ◌+◌, ◌*◌, ◌≤◌, ◌≡◌, refl, subst, sym, false, List, [], ◌∷◌, Option, none, some, arith,
  split_bool, split_option, split_sum, ◌==◌, length,
}
use hifi_api_rust.Tidal.Services.{Services, Json, Session, Call}
use hifi_api_rust.Tidal.Probe.{
  Verdict, premium, preview_only, unknown, error, Probed, verdict, preview, probe_track_ids,
  probe_track, probe_tracks, probe_account_premium,
}
use hifi_api_rust.Tidal.Trace.{sends}
use hifi_api_rust.Tidal.Asks.{presented, Asks, Fits}
use hifi_api_rust.Tidal.Tracks.{probe_track-Ends}

module _ {W Value : Type 0} (api : Services W) (json : Json Value) where
  -- The verdict `v` of a probe rests on the answers.
  abbrev pub Rests : List Call → Verdict → Type 0
  Rests cs premium = 1 ≤ presented json "FULL" cs
  Rests cs preview_only = length probe_track_ids ≤ presented json "PREVIEW" cs
  Rests cs (unknown reason) = Unit
  Rests cs (error reason) = Unit

  abbrev ProbeEnds : ℕ → List Call → Session W × Option Verdict → Type 0
  ProbeEnds n cs r =
      (v : Verdict) × (r.1 ≡ some v) × (sends r.0.calls ≤ sends cs + n) × Rests r.0.calls v

  ProbeEnds-weaken :
      (n m : ℕ) (cs : List Call) (r : Session W × Option Verdict)
      → n ≤ m
      → ProbeEnds n cs r
      → ProbeEnds m cs r
  ProbeEnds-weaken n m cs r le (v, h, asks, rests) = (v, h, omega (arith, asks), rests)

  Probed-Ends :
      (n : ℕ) (s t : Session W) (p : Probed) (next : String → Session W × Option Verdict)
      → Asks json 2 s.calls t.calls
      → Fits json s.calls t.calls p
      → ((token : String)
          → presented json "PREVIEW" s.calls + 1 ≤ presented json "PREVIEW" t.calls
          → ProbeEnds n t.calls (next token))
      → ProbeEnds (2 + n) s.calls (elim p [ verdict v ↦ (t, some v) | preview token ↦ next token ])
  Probed-Ends n s t (verdict premium) next asks fits ih =
      (premium, refl, omega (arith, asks.requests), omega (arith, fits))
  Probed-Ends n s t (verdict preview_only) next asks fits ih = absurd fits
  Probed-Ends n s t (verdict (unknown reason)) next asks fits ih =
      (unknown reason, refl, omega (arith, asks.requests), tt)
  Probed-Ends n s t (verdict (error reason)) next asks fits ih =
      (error reason, refl, omega (arith, asks.requests), tt)
  Probed-Ends n s t (preview token) next asks fits ih =
      let (v, h, le, rests) = ih token fits in (v, h, omega (arith, le, asks.requests), rests)

  probe_tracks-Ends :
      (tracks : List ℕ) (previews : ℕ) (id token : String) (s : Session W)
      → previews ≤ presented json "PREVIEW" s.calls
      → ProbeEnds (2 * length tracks) s.calls (probe_tracks api json tracks previews id token s)
  unfolding probe_tracks
  probe_tracks-Ends [] previews id token s le =
      let P : Verdict → Type 0 = λ v. ProbeEnds 0 s.calls (s, some v) in
      split_bool P (previews == length probe_track_ids) _ _
        (λ h. (preview_only, refl, omega arith, ground arith))
        (λ h. (unknown _, refl, omega arith, tt))
  probe_tracks-Ends (track_id ∷ tracks) previews id token s le =
      let r = probe_track api json 2 false id token s in
      let n = 2 * length tracks in
      let next : String → Session W × Option Verdict =
        λ token. probe_tracks api json tracks (previews + 1) id token r.0 in
      let (p, h, asks, fits) = probe_track-Ends api json id token s in
      let rest : ProbeEnds (2 + n) s.calls
          (elim p [ verdict v ↦ (r.0, some v) | preview token ↦ next token ]) =
        Probed-Ends n s r.0 p next asks fits (λ token more.
          probe_tracks-Ends tracks (previews + 1) id token r.0 (omega (arith, le, more))) in
      ProbeEnds-weaken (2 + n) (2 * suc (length tracks)) s.calls
        (probe_tracks api json (track_id ∷ tracks) previews id token s) (omega arith)
        (subst
          (λ o. ProbeEnds (2 + n) s.calls (elim o [
            | none ↦ (r.0, none)
            | some p ↦ elim p [ verdict v ↦ (r.0, some v) | preview token ↦ next token ]
          ]))
          (sym h) rest)

  -- A probe comes to a verdict, and the verdict rests on Tidal's answers: `premium` only if one of them
  -- was FULL, and `preview_only` only if all the probe's tracks were answered with PREVIEW. It sends at
  -- most two requests for each track, whatever the account, its token, its proxy and Tidal do.
  pub probe_account_premium-Ends :
      (id : String) (w : W)
      → let r = probe_account_premium api json id (record { world = w; calls = [] }) in
        (v : Verdict) × (r.1 ≡ some v) × (sends r.0.calls ≤ 8) × Rests r.0.calls v
  unfolding probe_account_premium
  probe_account_premium-Ends id w =
      let P = ProbeEnds 8 [] in
      split_option P (api.rate_limit_remaining id w) _ _
        (λ h.
          let v = (api.working_client_for id w).0 in
          split_option P (api.working_client_for id w).1 _ _
            (λ k.
              split_sum P (api.get_token id v).1 _ _ (λ e l. (error _, refl, omega arith, tt))
                (λ token l.
                  probe_tracks-Ends probe_track_ids 0 id token
                    (record { world = (api.get_token id v).0; calls = [] }) (omega arith)))
            (λ e k. (unknown _, refl, omega arith, tt)))
        (λ seconds h. (unknown _, refl, omega arith, tt))
