-- ===== src/Tidal/Reactions.antt =====
-- What follows an answer in `make_request_with_limit` of src/tidal_client.rs.
use Prim.Native.String.{String}
use hifi_api_rust.Base.{
  ℕ, ◌≡◌, refl, ap, Bool, true, List, [], ◌∷◌, arith, split_bool, split_option, split_sum, leb,
  ◌==◌, ◌&&◌,
}
use hifi_api_rust.Accounts.Lease.{LeaseKind}
use hifi_api_rust.Tokens.Cycle.{is_success}
use hifi_api_rust.Tidal.Services.{
  Services, Json, Response, Session, pause, full_confirmed, preview_noted,
}
use hifi_api_rust.Tidal.Fallback.{Failover, leave_account, with_session, at_world}
use hifi_api_rust.Tidal.Request.{
  Reaction, is_preview, is_full, for_playback, is_rate_limited, settled, rejected, throttled,
  forbidden, note_previews, note_full, accept_body, react,
}
use hifi_api_rust.Tidal.Trace.{
  Work, Work-nothing, Work-paused, Work-confirmed, Work-noted, Work-then,
}
use hifi_api_rust.Tidal.Steps.{
  Moves, Has-last, Has-more, Moves-nothing, Moves-world, Ends-now, give_way-Fails,
  mark_failed-Fails, settled-GoodReaction, GoodReaction, End,
}

module _ {W Value : Type 0} (api : Services W) (json : Json Value) where
  rejected-GoodReaction :
      (more refreshed : Bool) (account_try : ℕ) (id token : String) (r : Response) (f : Failover W)
      → GoodReaction api json id more r f (rejected api json more refreshed account_try id token f)
  unfolding rejected at_world with_session
  rejected-GoodReaction more refreshed account_try id token r f =
      split_bool (GoodReaction api json id more r f) refreshed _ _
        (λ h. settled-GoodReaction api json id more r f _ (mark_failed-Fails api json id _ _ _ f))
        (λ h.
          split_bool (GoodReaction api json id more r f) more _ _
            (λ m.
              split_sum (GoodReaction api json id more r f)
                (api.refresh_after_unauthorized id token f.session.world).1 _ _
                (λ e k.
                  split_bool (GoodReaction api json id more r f) (is_rate_limited e) _ _
                    (λ l. settled-GoodReaction api json id more r f _ (
                      give_way-Fails api json account_try id e f
                        (at_world (api.refresh_after_unauthorized id token f.session.world).0
                          f).session
                        0 (Work-nothing id f.session.calls) (omega arith)))
                    (λ l.
                      settled-GoodReaction api json id more r f _
                        (mark_failed-Fails api json id _ e _ f)))
                (λ t k. (m, Moves-world id _ f, refl)))
            (λ m.
              settled-GoodReaction api json id more r f _
                (mark_failed-Fails api json id _ _ f.session.world f)))

  throttled-GoodReaction :
      (more : Bool) (account_try : ℕ) (id : String) (r : Response) (f : Failover W)
      → GoodReaction api json id more r f (throttled api json account_try id r f)
  unfolding throttled pause
  throttled-GoodReaction more account_try id r f = settled-GoodReaction api json id more r f _ (
      give_way-Fails api json account_try id _ f _ 1 (Work-paused id _ f.session.calls)
        (omega arith))

  forbidden-GoodReaction :
      (more : Bool) (id : String) (r : Response) (f : Failover W)
      → GoodReaction api json id more r f (forbidden api json id f)
  unfolding forbidden leave_account at_world
  forbidden-GoodReaction more id r f = (
    record {
      moves = record {
        rests = 0;
        work = Work-nothing id f.session.calls;
        hit = omega arith;
        failed = λ x k. Has-more x id f.failed_ids k;
      };
      hits_at_end = λ k. omega arith;
      goes_on = λ k. (Has-last id f.failed_ids, λ l. l);
    },
    λ v k. cc k,
  )

  note_previews-Work :
      (id : String) (ids : List String) (s : Session W)
      → Work id 0 0 s.calls (note_previews api json ids s).calls
  unfolding note_previews
  note_previews-Work id [] s = Work-nothing id s.calls
  note_previews-Work id (x ∷ ids) s =
      Work-then id 0 0 0 0 s.calls (preview_noted x ∷ s.calls) _ (Work-noted id x s.calls)
        (note_previews-Work id ids _)

  note_full-Moves :
      (kind : LeaseKind) (id : String) (value : Value) (f : Failover W)
      → Moves id 0 f (note_full api json kind id value f)
        × ((note_full api json kind id value f).rate_limits ≡ f.rate_limits)
  unfolding note_full with_session
  note_full-Moves kind id value f =
      split_bool (λ g. Moves id 0 f g × (g.rate_limits ≡ f.rate_limits))
        (is_full json value && for_playback kind) _ _
        (λ h. (
          record {
            rests = 0;
            work =
                Work-then id 0 0 0 0 f.session.calls (full_confirmed id ∷ f.session.calls) _
                  (Work-confirmed id f.session.calls) (note_previews-Work id f.previewed _);
            hit = omega arith;
            failed = λ x k. k;
          },
          refl,
        ))
        (λ h. (Moves-nothing id f, refl))

  accept_body-GoodReaction :
      (more : Bool) (kind : LeaseKind) (id : String) (r : Response) (f : Failover W)
      → is_success r.status ≡ true
      → GoodReaction api json id more r f (settled api json (accept_body api json kind id r f))
  unfolding accept_body leave_account
  accept_body-GoodReaction more kind id r f ok =
      let P : End api json → Type 0 = λ e. GoodReaction api json id more r f (settled api json e) in
      split_sum P r.text _ _
        (λ e k. (Ends-now api json id f f _ (Moves-nothing id f) refl, λ v l. cc l))
        (λ body k.
          split_option P (json.from_str body) _ _
            (λ l. (Ends-now api json id f f _ (Moves-nothing id f) refl, λ v m. cc m))
            (λ value l.
              let g = note_full api json kind id value f in
              let (moves, same) = note_full-Moves kind id value f in
              split_bool P (is_preview json value) _ _
                (λ m. (
                  record {
                    moves = record {
                      rests = moves.rests;
                      work = moves.work;
                      hit = moves.hit;
                      failed = λ x n. Has-more x id g.failed_ids (moves.failed x n);
                    };
                    hits_at_end = λ n. omega (arith, ap (λ c. c.hits) same);
                    goes_on =
                        λ n. (Has-last id g.failed_ids, λ o. omega (arith, ap (λ c. c.hits) same));
                  },
                  λ v n. cc n,
                ))
                (λ m. (
                  Ends-now api json id f g _ moves same,
                  λ v n. (ok, body, k, cc (l, n), cc (m, n)),
                ))))

  pub react-GoodReaction :
      (more refreshed : Bool) (kind : LeaseKind) (account_try : ℕ) (id token : String)
      (r : Response) (f : Failover W)
      → GoodReaction api json id more r f
          (react api json more refreshed kind account_try id token r f)
  unfolding react
  react-GoodReaction more refreshed kind account_try id token r f =
      let P : Reaction W Value → Type 0 = GoodReaction api json id more r f in
      split_bool P (r.status == 401) _ _
        (λ a. rejected-GoodReaction more refreshed account_try id token r f)
        (λ a.
          split_bool P (r.status == 404) _ _
            (λ b. (Ends-now api json id f f _ (Moves-nothing id f) refl, λ v l. cc l))
            (λ b.
              split_bool P (r.status == 429) _ _
                (λ c. throttled-GoodReaction more account_try id r f)
                (λ c.
                  split_bool P (r.status == 403) _ _
                    (λ d.
                      split_bool P more _ _ (λ m. (m, Moves-nothing id f, refl))
                        (λ m. forbidden-GoodReaction more id r f))
                    (λ d.
                      split_bool P (is_success r.status) _ _
                        (λ e. accept_body-GoodReaction more kind id r f e)
                        (λ e.
                          split_bool P (more && leb 500 r.status) _ _
                            (λ m. (ground arith, Moves-nothing id f, refl))
                            (λ m.
                              settled-GoodReaction api json id more r f _
                                (mark_failed-Fails api json id _ _ f.session.world f)))))))
