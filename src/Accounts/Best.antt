-- ===== src/Accounts/Best.antt =====
-- The account that `try_lease` of src/account_manager.rs leases: it is free, and no free one is better.
use hifi_api_rust.Base.{
  ℕ, ◌%◌, ◌≡◌, ◌∙◌, ap, refl, subst, Bool, true, List, [], ◌∷◌, String, map, length, Has, Has-keep,
  keep-Has, Has-map, map-Has, ◌⊎◌, inl, inr,
}
use hifi_api_rust.AppError.{AppError}
use hifi_api_rust.Accounts.State.{AccountState}
use hifi_api_rust.Accounts.Lease.{LeaseKind, LeaseRules, is_free}
use hifi_api_rust.Accounts.Order.{Score, not_after, Best, rotated-Best}
use hifi_api_rust.Accounts.Select.{
  granted, busy, failed, enumerate, usable, eligible, is_usable, score, first_index, pick_from,
  choose, unavailable,
}

-- An account of the pool that a request may use now.
abbrev pub IsCandidate :
    ℕ → ℕ → List String → LeaseRules → List AccountState → ℕ × AccountState → Type 0
IsCandidate now now_ms exclude rules accounts c =
    Has c (enumerate 0 accounts)
    × (is_usable now exclude c.1 ≡ true)
    × (is_free rules now_ms c.1 ≡ true)

eligible-IsCandidate :
    (now now_ms : ℕ) (exclude : List String) (rules : LeaseRules) (accounts : List AccountState)
    (c : ℕ × AccountState)
    → Has c (eligible now now_ms exclude rules accounts)
    → IsCandidate now now_ms exclude rules accounts c
unfolding eligible usable
eligible-IsCandidate now now_ms exclude rules accounts c h =
    let free = Has-keep (λ p. is_free rules now_ms p.1) c (usable now exclude accounts) h in
    let fit = Has-keep (λ p. is_usable now exclude p.1) c (enumerate 0 accounts) free.0 in
    (fit.0, fit.1, free.1)

candidate-eligible :
    (now now_ms : ℕ) (exclude : List String) (rules : LeaseRules) (accounts : List AccountState)
    (c : ℕ × AccountState)
    → IsCandidate now now_ms exclude rules accounts c
    → Has c (eligible now now_ms exclude rules accounts)
unfolding eligible usable
candidate-eligible now now_ms exclude rules accounts c h =
    keep-Has (λ p. is_free rules now_ms p.1) c (usable now exclude accounts)
      (keep-Has (λ p. is_usable now exclude p.1) c (enumerate 0 accounts) h.0 h.1) h.2

pick_from-Best :
    (seq : ℕ) (error : AppError) (us : List (ℕ × AccountState)) (s : Score) (ss : List Score)
    → (t : Score) × (pick_from seq error us (s ∷ ss) ≡ granted t.index) × Best t (s ∷ ss)
unfolding pick_from first_index
pick_from-Best seq error us s ss =
    let b = rotated-Best (seq % length (s ∷ ss)) s ss in (b.0, ap first_index b.2, b.3)

module _ (penalty : ℕ → List (ℕ × Bool) → ℕ) where
  -- The candidate goes before every other.
  abbrev pub IsBest :
      ℕ → ℕ → List String → LeaseKind → LeaseRules → List AccountState → ℕ × AccountState → Type 0
  IsBest now now_ms exclude kind rules accounts c =
      IsCandidate now now_ms exclude rules accounts c
      × ((d : ℕ × AccountState)
          → IsCandidate now now_ms exclude rules accounts d
          → not_after (score penalty kind now now_ms c) (score penalty kind now now_ms d) ≡ true)

  pick_free-best :
      (kind : LeaseKind) (now now_ms seq : ℕ) (error : AppError) (us : List (ℕ × AccountState))
      (c : ℕ × AccountState) (cs : List (ℕ × AccountState))
      → (d : ℕ × AccountState) × Has d (c ∷ cs)
        × (pick_from seq error us (map (score penalty kind now now_ms) (c ∷ cs)) ≡ granted d.0)
        × ((x : ℕ × AccountState)
            → Has x (c ∷ cs)
            → not_after (score penalty kind now now_ms d) (score penalty kind now now_ms x) ≡ true)
  unfolding Best score
  pick_free-best kind now now_ms seq error us c cs =
      let f = score penalty kind now now_ms in
      let b = pick_from-Best seq error us (f c) (map f cs) in
      let m = Has-map f b.0 (c ∷ cs) b.2.0 in
      (
        m.0,
        m.1,
        b.1 ∙ ap (λ t. granted t.index) m.2,
        λ x h. subst (λ t. not_after t (f x) ≡ true) m.2 (b.2.1 (f x) (map-Has f x (c ∷ cs) h)),
      )

  pick_from-cases :
      (kind : LeaseKind) (now now_ms seq : ℕ) (error : AppError) (us free : List (ℕ × AccountState))
      → ((d : ℕ × AccountState) × Has d free
          × (pick_from seq error us (map (score penalty kind now now_ms) free) ≡ granted d.0)
          × ((x : ℕ × AccountState)
              → Has x free
              → not_after (score penalty kind now now_ms d) (score penalty kind now now_ms x)
                ≡ true))
        ⊎ (free ≡ [])
          × (((u : ℕ × AccountState) × Has u us
                × (pick_from seq error us (map (score penalty kind now now_ms) free) ≡ busy))
              ⊎ (us ≡ [])
                × (pick_from seq error us (map (score penalty kind now now_ms) free)
                    ≡ failed error))
  unfolding pick_from
  pick_from-cases kind now now_ms seq error [] [] = inr (refl, inr (refl, refl))
  pick_from-cases kind now now_ms seq error (u ∷ us) [] = inr (refl, inl (u, inl refl, refl))
  pick_from-cases kind now now_ms seq error us (c ∷ cs) =
      inl (pick_free-best kind now now_ms seq error us c cs)

  -- One pass of the selection gives exactly one of three answers. It leases an account that serves
  -- playback, is not excluded, paused or waiting for a token, and is within the limits, when there is
  -- one, and then one that no other such account goes before: by tier, requests in flight, recent
  -- 429s and last use, in this order. It waits when accounts are usable and all of them are at their
  -- limits, and it fails only when no account is usable.
  pub choose-cases :
      (now now_ms : ℕ) (exclude : List String) (kind : LeaseKind) (rules : LeaseRules) (seq : ℕ)
      (accounts : List AccountState)
      → ((c : ℕ × AccountState) × (choose penalty now now_ms exclude kind rules seq accounts
            ≡ granted c.0)
          × IsBest now now_ms exclude kind rules accounts c)
        ⊎ ((c : ℕ × AccountState) → ¬ IsCandidate now now_ms exclude rules accounts c)
          × (((u : ℕ × AccountState) × Has u (enumerate 0 accounts)
                × (is_usable now exclude u.1 ≡ true)
                × (choose penalty now now_ms exclude kind rules seq accounts ≡ busy))
              ⊎ ((u : ℕ × AccountState)
                  → Has u (enumerate 0 accounts)
                  → ¬ (is_usable now exclude u.1 ≡ true))
                × ((e : AppError) × (choose penalty now now_ms exclude kind rules seq accounts
                      ≡ failed e)))
  unfolding choose enumerate usable
  choose-cases now now_ms exclude kind rules seq [] = inr (λ c h. h.0, inr (λ u h k. h, (_, refl)))
  choose-cases now now_ms exclude kind rules seq (a ∷ rest) =
      let accounts = a ∷ rest in
      let us = usable now exclude accounts in
      elim (pick_from-cases kind now now_ms seq (unavailable now exclude accounts) us
        (eligible now now_ms exclude rules accounts)) [
          | inl p ↦ inl (
            p.0,
            p.2,
            (
              eligible-IsCandidate now now_ms exclude rules accounts p.0 p.1,
              λ d h. p.3 d (candidate-eligible now now_ms exclude rules accounts d h),
            ),
          )
          | inr p ↦ inr (
            λ c h.
                subst (λ l. Has c l) p.0 (candidate-eligible now now_ms exclude rules accounts c h),
            elim p.1 [
              | inl q ↦
                  let fit =
                    Has-keep (λ u. is_usable now exclude u.1) q.0 (enumerate 0 accounts) q.1 in
                  inl (q.0, fit.0, fit.1, q.2)
              | inr q ↦ inr (
                λ u h k.
                    subst (λ l. Has u l) q.0
                      (keep-Has (λ v. is_usable now exclude v.1) u (enumerate 0 accounts) h k),
                (unavailable now exclude accounts, q.1),
              )
            ],
          )
        ]
