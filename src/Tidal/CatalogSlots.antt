-- ===== src/Tidal/CatalogSlots.antt =====
-- What a catalog request of src/tidal_client.rs does on the slots of catalog accounts.
use Prim.Native.String.{String}
use native.Mathlib.Nat.{suc-mul}
use hifi_api_rust.Base.{
  ℕ, zero, suc, ◌+◌, ◌*◌, ◌≤◌, ◌≡◌, refl, inr, true, false, List, ◌∷◌, Option, none, some, arith,
  split_case, split_option, split_sum, max,
}
use hifi_api_rust.AppError.{AppError}
use hifi_api_rust.Tidal.Services.{
  Services, Json, Session, Call, Claim, slot, all_busy, unavailable, leased,
}
use hifi_api_rust.Tidal.Request.{is_rate_limited}
use hifi_api_rust.Tidal.CatalogAccount.{at, catalog_account_get}
use hifi_api_rust.Tidal.Catalog.{Settings, CatalogEnd, answered, to_pool, on_slot, catalog_accounts}
use hifi_api_rust.Tidal.CatalogAttempts.{Works, Works-nothing, catalog_attempts-Works}
use hifi_api_rust.Tidal.Segments.{Segment, Segment-nothing, Segment-then, Segment-leased, Gives}

split_claim :
    {A : Type 0} (P : A → Type 0) (c : Claim) (x : String → A) (y z : A)
    → ((id : String) → c ≡ slot id → P (x id))
    → (c ≡ all_busy → P y)
    → (c ≡ unavailable → P z)
    → P (elim c [ slot id ↦ x id | all_busy ↦ y | unavailable ↦ z ])
split_claim P (slot id) x y z f g h = f id refl
split_claim P all_busy x y z f g h = g refl
split_claim P unavailable x y z f g h = h refl

module _ {W Value : Type 0} (api : Services W) (json : Json Value) where
  catalog_account_get-Works :
      (requests : ℕ) (id : String) (s : Session W)
      → Works api json id (max requests 1) s.calls (catalog_account_get api json requests id s)
  unfolding catalog_account_get
  catalog_account_get-Works requests id s =
      let P = Works api json id (max requests 1) s.calls in
      let w = (api.working_client_for id s.world).0 in
      let v = (api.get_token id w).0 in
      split_option P (api.rate_limit_remaining id s.world) _ _
        (λ a.
          split_option P (api.working_client_for id s.world).1 _ _
            (λ b.
              split_sum P (api.get_token id w).1 _ _
                (λ e c. Works-nothing api json id (max requests 1) s.calls (at api json v s) e refl)
                (λ token c.
                  catalog_attempts-Works api json (max requests 1) 0 id token (at api json v s)))
            (λ e b. Works-nothing api json id (max requests 1) s.calls (at api json w s) e refl))
        (λ seconds a. Works-nothing api json id (max requests 1) s.calls s _ refl)

  on_slot-Gives :
      (config : Settings) (id : String) (s : Session W)
      → let r = on_slot api json config id s in
        Gives api json (max config.requests_per_account 1) s.calls r.0.calls r.1
  unfolding on_slot
  on_slot-Gives config id s =
      let start : Session W = record s { calls = leased id ∷ s.calls } in
      let r = catalog_account_get api json config.requests_per_account id start in
      let ((p, work), shown) = catalog_account_get-Works config.requests_per_account id start in
      (
        Segment-leased id (max config.requests_per_account 1) p s.calls r.0.calls work,
        λ v h. let (c, a, has, rest, ok, read) = shown v h in (c, a, inr has, rest, ok, read),
      )

  -- What the loop over the catalog accounts ends with. The way to the pool is open.
  abbrev pub EndsWith : ℕ → List Call → Session W × CatalogEnd Value → Type 0
  EndsWith n cs (t, answered out) = Gives api json n cs t.calls out
  EndsWith n cs (t, to_pool limited tried busy) = Segment n cs t.calls × (tried ≡ false)

  EndsWith-after :
      (n m k : ℕ) (cs ds : List Call) (z : Session W × CatalogEnd Value)
      → Segment n cs ds
      → n + m ≤ k
      → EndsWith m ds z
      → EndsWith k cs z
  EndsWith-after n m k cs ds (t, answered out) a le (b, shown) =
      (Segment-then n m k cs ds t.calls a b le, shown)
  EndsWith-after n m k cs ds (t, to_pool limited tried busy) a le (b, untried) =
      (Segment-then n m k cs ds t.calls a b le, untried)

  pub catalog_accounts-EndsWith :
      (config : Settings) (left : ℕ) (limited : Option AppError) (s : Session W)
      → EndsWith
          (left * max config.requests_per_account 1)
          s.calls
          (catalog_accounts api json config left limited false s)
  unfolding catalog_accounts
  catalog_accounts-EndsWith config zero limited s = (Segment-nothing _ s.calls, refl)
  catalog_accounts-EndsWith config (suc left) limited s =
      let n = max config.requests_per_account 1 in
      let times = suc-mul left n in
      let P = EndsWith (suc left * n) s.calls in
      let w = (api.claim_catalog_slot config.catalog_concurrency s.world).0 in
      split_claim P (api.claim_catalog_slot config.catalog_concurrency s.world).1 _ _ _
        (λ id a.
          let r = on_slot api json config id (at api json w s) in
          let (done, shown) = on_slot-Gives config id (at api json w s) in
          let here : Segment (suc left * n) s.calls r.0.calls =
            Segment-then n 0 (suc left * n) s.calls r.0.calls r.0.calls done
              (Segment-nothing 0 r.0.calls) (omega (arith, times)) in
          split_sum P r.1 _ _
            (λ e b.
              split_case P (elim limited [ none ↦ false | some e ↦ true ]) _ _
                (λ c. (here, λ v h. cc h))
                (λ c.
                  split_case P (is_rate_limited e) _ _
                    (λ d.
                      EndsWith-after n (left * n) (suc left * n) s.calls r.0.calls
                        (catalog_accounts api json config left (some e) false r.0) done
                        (omega (arith, times)) (catalog_accounts-EndsWith config left (some e) r.0))
                    (λ d. (here, refl))))
            (λ value b. (here, λ v h. shown v (cc (b, h)))))
        (λ a. (Segment-nothing _ s.calls, refl)) (λ a. (Segment-nothing _ s.calls, refl))
