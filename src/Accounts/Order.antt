-- ===== src/Accounts/Order.antt =====
-- The order in which `try_lease` of src/account_manager.rs prefers accounts.
use hifi_api_rust.Base.{
  ℕ, ◌≡◌, refl, Bool, true, false, List, [], ◌∷◌, ◌++◌, ltb, leb, arith, if◌then◌else◌, take, drop,
  Bool-cases, inl, inr, Has, Has-split, Has-append, append-Has, ap, sym, ◌∙◌, subst,
}

-- A tuple of `scored`.
pub record Score : Type 0 where
  pub tier : ℕ
  pub busy : ℕ
  pub heat : ℕ
  pub last_use : ℕ
  pub index : ℕ

abbrev pub then_by : ℕ → ℕ → Bool → Bool
then_by a b rest = if ltb a b then true else (if ltb b a then false else rest)

-- The order of the keys `(tier, busy, heat, last_use)`: the first may stand before the second.
unfoldable pub not_after : Score → Score → Bool
not_after s t =
    then_by s.tier t.tier
      (then_by s.busy t.busy (then_by s.heat t.heat (leb s.last_use t.last_use)))

unfoldable pub insert_score : Score → List Score → List Score
insert_score s [] = s ∷ []
insert_score s (t ∷ ts) =
    let rest = insert_score s ts in if not_after s t then s ∷ t ∷ ts else t ∷ rest

-- `sort_by_key`, which is stable
unfoldable pub sort_scores : List Score → List Score
sort_scores [] = []
sort_scores (s ∷ ss) = insert_score s (sort_scores ss)

-- `rotate_left`
unfoldable pub rotate_left {ℓ} : {A : Type ℓ} → ℕ → List A → List A
rotate_left n xs = drop n xs ++ take n xs

pub not_after-total : (s t : Score) → not_after s t ≡ false → not_after t s ≡ true
unfolding not_after
not_after-total s t h = ground arith

pub not_after_trans :
    (s t u : Score) → not_after s t ≡ true → not_after t u ≡ true → not_after s u ≡ true
unfolding not_after
not_after_trans s t u h k = ground arith

-- The score is one of the list, and none of the list goes before it.
unfoldable pub Best : Score → List Score → Type 0
Best s xs = Has s xs × ((t : Score) → Has t xs → not_after s t ≡ true)

not_after_refl : (s : Score) → not_after s s ≡ true
unfolding not_after
not_after_refl s = ground arith

insert_score-front :
    (s t : Score) (us : List Score) → Best t us → not_after s t ≡ true → Best s (s ∷ us)
unfolding Best
insert_score-front s t us b h = (
  inl refl,
  λ u m. elim m [ inl e ↦ cc (e, not_after_refl s) | inr k ↦ not_after_trans s t u h (b.1 u k) ],
)

insert_score-behind :
    (s t : Score) (us : List Score) → Best t us → not_after s t ≡ false → Best t (s ∷ us)
unfolding Best
insert_score-behind s t us b h =
    (inr b.0, λ u m. elim m [ inl e ↦ cc (e, not_after-total s t h) | inr k ↦ b.1 u k ])

insert_score-Best :
    (s t : Score) (rest us : List Score)
    → Best t us
    → (u : Score) × (after : List Score) × (insert_score s (t ∷ rest) ≡ u ∷ after) × Best u (s ∷ us)
unfolding insert_score
insert_score-Best s t rest us b = elim (Bool-cases (not_after s t)) [
  | inl h ↦ (s, t ∷ rest, ground arith, insert_score-front s t us b h)
  | inr h ↦ (t, insert_score s rest, ground arith, insert_score-behind s t us b h)
]

-- The first of the sorted scores.
pub sort_scores-Best :
    (s : Score) (ss : List Score)
    → (t : Score) × (rest : List Score) × (sort_scores (s ∷ ss) ≡ t ∷ rest) × Best t (s ∷ ss)
unfolding sort_scores insert_score Best
sort_scores-Best s [] = (
  s,
  [],
  refl,
  (inl refl, λ t h. elim h [ inl e ↦ cc (e, not_after_refl s) | inr bad ↦ absurd bad ]),
)
sort_scores-Best s (u ∷ us) =
    let rest = sort_scores-Best u us in
    let all = insert_score-Best s rest.0 rest.1 (u ∷ us) rest.3 in
    (all.0, all.1, ap (insert_score s) rest.2 ∙ all.2, all.3)

-- What a rotation keeps.
pub rotate_left-Has :
    (n : ℕ) (t : Score) (ss : List Score)
    → (Has t (rotate_left n ss) → Has t ss) × (Has t ss → Has t (rotate_left n ss))
unfolding rotate_left
rotate_left-Has n t ss = (
  λ h. (Has-split n t ss).1 (Has-append t (drop n ss) (take n ss) h),
  λ h. append-Has t (drop n ss) (take n ss) ((Has-split n t ss).0 h),
)

-- The first score after the rotation and the sort.
pub rotated-Best :
    (n : ℕ) (s : Score) (ss : List Score)
    → (t : Score) × (rest : List Score) × (sort_scores (rotate_left n (s ∷ ss)) ≡ t ∷ rest)
      × Best t (s ∷ ss)
unfolding Best
rotated-Best n s ss = from (rotate_left n (s ∷ ss)) refl
  where
    from :
        (rs : List Score)
        → rotate_left n (s ∷ ss) ≡ rs
        → (t : Score) × (rest : List Score) × (sort_scores (rotate_left n (s ∷ ss)) ≡ t ∷ rest)
          × Best t (s ∷ ss)
    from [] e = absurd (subst (λ l. Has s l) e ((rotate_left-Has n s (s ∷ ss)).1 (inl refl)))
    from (r ∷ rs) e =
        let b = sort_scores-Best r rs in
        (
          b.0,
          b.1,
          ap sort_scores e ∙ b.2,
          (
            (rotate_left-Has n b.0 (s ∷ ss)).0 (subst (λ l. Has b.0 l) (sym e) b.3.0),
            λ u h. b.3.1 u (subst (λ l. Has u l) e ((rotate_left-Has n u (s ∷ ss)).1 h)),
          ),
        )
