-- ===== src/Tidal/CatalogAttempts.antt =====
-- What a catalog request of src/tidal_client.rs does with the static token and one catalog account.
use Prim.Native.String.{String}
use hifi_api_rust.Base.{
  ℕ, zero, suc, ◌+◌, ◌-◌, ◌≤◌, ◌≡◌, refl, subst, sym, ◌⊎◌, inl, inr, true, false, ◌&&◌, ◌||◌, List,
  ◌∷◌, none, some, arith, Has, split_bool, split_case, split_option, split_sum, ltb, leb, ◌==◌,
}
use hifi_api_rust.AppError.{AppError, upstream_error}
use hifi_api_rust.Tokens.Cycle.{is_success}
use hifi_api_rust.Tidal.Services.{
  Services, Json, Response, Session, Call, sent, paused, static_sent, deliver, pause,
}
use hifi_api_rust.Tidal.CatalogAccount.{at, read_body, catalog_static_get, catalog_attempts}
use hifi_api_rust.Tidal.Trace.{Work, Work-nothing, Work-more, Work-paused, Work-then}
use hifi_api_rust.Tidal.Attempts.{deliver-sent}
use hifi_api_rust.Tidal.Segments.{Segment-nothing, Segment-static, Brought, Gives}

module _ {W Value : Type 0} (api : Services W) (json : Json Value) where
  pub catalog_static_get-Gives :
      (until : ℕ) (s : Session W)
      → let r = catalog_static_get api json until s in Gives api json 1 s.calls r.0.calls r.1.1
  unfolding catalog_static_get
  catalog_static_get-Gives until s =
      let P : Session W × (ℕ × (AppError ⊎ Value)) → Type 0 =
        λ z. Gives api json 1 s.calls z.0.calls z.1.1 in
      split_bool P (ltb 0 (until - api.now s.world)) _ _
        (λ a. (Segment-nothing 1 s.calls, λ v h. cc h))
        (λ a.
          let w = (api.working_client s.world).0 in
          split_option P (api.working_client s.world).1 _ _
            (λ b.
              split_sum P (api.static_send w).1 _ _
                (λ e c. (Segment-static none s.calls, λ v h. cc h))
                (λ r c.
                  split_bool P (r.status == 429) _ _
                    (λ d. (Segment-static (some r) s.calls, λ v h. cc h))
                    (λ d.
                      split_bool P (is_success r.status) _ _
                        (λ ok. (
                          Segment-static (some r) s.calls,
                          λ v h. (static_sent (some r), r, inl refl, refl, ok, h),
                        ))
                        (λ ok. (Segment-static (some r) s.calls, λ v h. cc h)))))
            (λ e b. (Segment-nothing 1 s.calls, λ v h. cc h)))

  -- The work on a claimed account.
  abbrev pub Works : String → ℕ → List Call → Session W × (AppError ⊎ Value) → Type 0
  Works id n cs (t, out) =
      ((p : ℕ) × Work id n p cs t.calls)
      × ((value : Value) → out ≡ inr value → Brought api json value t.calls)

  pub Works-nothing :
      (id : String) (n : ℕ) (cs : List Call) (t : Session W) (e : AppError)
      → t.calls ≡ cs
      → Works id n cs (t, inl e)
  Works-nothing id n cs t e same = (
    (
      0,
      subst (Work id n 0 cs) (sym same)
          (Work-more id 0 n 0 cs cs (omega arith) (Work-nothing id cs)),
    ),
    λ v h. cc h,
  )

  Works-after :
      (id : String) (n p m k : ℕ) (cs ds : List Call) (z : Session W × (AppError ⊎ Value))
      → Work id n p cs ds
      → n + m ≤ k
      → Works id m ds z
      → Works id k cs z
  Works-after id n p m k cs ds z a le ((q, b), shown) = (
    (
      p + q,
      Work-more id (n + m) k (p + q) cs z.0.calls le (Work-then id n m p q cs ds z.0.calls a b),
    ),
    shown,
  )

  -- An answer that is neither a 429 nor a 401 before the last attempt.
  judged :
      (left attempt : ℕ) (id token : String) (r : Response) (s t u : Session W)
      → u.calls ≡ t.calls
      → Work id 1 0 s.calls t.calls
      → Has (sent id token (some r)) t.calls
      → Works id left u.calls (catalog_attempts api json left (attempt + 1) id token u)
      → Works id (suc left) s.calls (elim (is_success r.status) [
        | true ↦ (u, read_body api json r)
        | false ↦ elim (ltb 0 left && (r.status == 403 || leb 500 r.status)) [
          | true ↦ catalog_attempts api json left (attempt + 1) id token u
          | false ↦ (u, inl (upstream_error r.status "Catalog account request failed"))
        ]
      ])
  judged left attempt id token r s t u same work has rest =
      let P = Works id (suc left) s.calls in
      let done : Work id 1 0 s.calls u.calls = subst (Work id 1 0 s.calls) (sym same) work in
      split_case P (is_success r.status) _ _
        (λ ok. (
          (0, Work-more id 1 (suc left) 0 s.calls u.calls (omega arith) done),
          λ v h. (
            sent id token (some r),
            r,
            subst (Has (sent id token (some r))) (sym same) has,
            refl,
            ok,
            h,
          ),
        ))
        (λ ok.
          split_case P (ltb 0 left && (r.status == 403 || leb 500 r.status)) _ _
            (λ more.
              Works-after id 1 0 left (suc left) s.calls u.calls
                (catalog_attempts api json left (attempt + 1) id token u) done (omega arith) rest)
            (λ more.
              Works-after id 1 0 0 (suc left) s.calls u.calls (u, inl _) done (omega arith)
                (Works-nothing id 0 u.calls u _ refl)))

  pub catalog_attempts-Works :
      (left attempt : ℕ) (id token : String) (s : Session W)
      → Works id left s.calls (catalog_attempts api json left attempt id token s)
  unfolding catalog_attempts pause
  catalog_attempts-Works zero attempt id token s = Works-nothing id 0 s.calls s _ refl
  catalog_attempts-Works (suc left) attempt id token s =
      let P = Works id (suc left) s.calls in
      split_option P (api.rate_limit_remaining id s.world) _ _
        (λ a.
          let start = at api json (api.working_client_for id s.world).0 s in
          split_option P (api.working_client_for id s.world).1 _ _
            (λ b.
              let t = (deliver api id token start).0 in
              let (work, has) = deliver-sent api json id token start in
              let over : (e : AppError) → P (t, inl e) = λ e.
                Works-after id 1 0 0 (suc left) s.calls t.calls (t, inl e) work (omega arith)
                  (Works-nothing id 0 t.calls t e refl) in
              split_sum P (deliver api id token start).1 _ _ (λ e c. over e)
                (λ r c.
                  split_case P (r.status == 429) _ _
                    (λ d. (
                      (
                        1,
                        Work-more id 1 (suc left) 1 s.calls (paused id _ ∷ t.calls) (omega arith) (
                            Work-then id 1 0 0 1 s.calls t.calls (paused id _ ∷ t.calls) work
                              (Work-paused id _ t.calls)),
                      ),
                      λ v h. cc h,
                    ))
                    (λ d.
                      split_case P (r.status == 401 && ltb 0 left) _ _
                        (λ e.
                          let v = (api.refresh_after_unauthorized id token t.world).0 in
                          split_sum P (api.refresh_after_unauthorized id token t.world).1 _ _
                            (λ lost f. over lost)
                            (λ new f.
                              Works-after id 1 0 left (suc left) s.calls t.calls
                                (catalog_attempts api json left (attempt + 1) id new
                                  (at api json v t))
                                work (omega arith)
                                (catalog_attempts-Works left (attempt + 1) id new
                                  (at api json v t))))
                        (λ e.
                          let v = api.reject_refreshed_token id token t.world in
                          split_bool
                            (λ (u : Session W). P (elim (is_success r.status) [
                              | true ↦ (u, read_body api json r)
                              | false ↦ elim (ltb 0 left && (r.status == 403 || leb 500 r.status)) [
                                | true ↦ catalog_attempts api json left (attempt + 1) id token u
                                | false ↦ (
                                  u,
                                  inl (upstream_error r.status "Catalog account request failed"),
                                )
                              ]
                            ]))
                            (r.status == 401 && ltb 0 attempt) _ _
                            (λ f.
                              judged left attempt id token r s t (at api json v t) refl work
                                (has r c)
                                (catalog_attempts-Works left (attempt + 1) id token
                                  (at api json v t)))
                            (λ f.
                              judged left attempt id token r s t t refl work (has r c)
                                (catalog_attempts-Works left (attempt + 1) id token t))))))
            (λ e b. Works-nothing id (suc left) s.calls start e refl))
        (λ seconds a. Works-nothing id (suc left) s.calls s _ refl)
