-- ===== src/Cache/Keys.antt =====
-- Which queries share a cache key in src/cache.rs.
use mathlib.Core.List.{Perm, Permᴰ}
use mathlib.Core.List.Perm
use mathlib.Core.Logic.{∥∥₁_elim}
use hifi_api_rust.Base.{
  ◌≡◌, ◌↔◌, refl, sym, ap, subst, ◌∙◌, true, false, List, [], ◌∷◌, Option, none, some, arith,
  Bool-cases, split_bool, All, inl, inr,
}
use hifi_api_rust.Base.Bytes.{same, same_eq, same_refl}
use hifi_api_rust.Cache.Query.{
  Bytes, Pair, AreTexts, FormUrlencoded, bytes_le, pair_le, insert_pair, sort_pairs,
  normalize_pairs, normalize_query,
}

bytes_le_total : (a b : Bytes) → bytes_le a b ≡ false → bytes_le b a ≡ true
unfolding bytes_le
bytes_le_total [] b h = cc
bytes_le_total (x ∷ xs) [] h = refl
bytes_le_total (x ∷ xs) (y ∷ ys) h = ground (arith, bytes_le_total xs ys)

bytes_le_antisym : (a b : Bytes) → bytes_le a b ≡ true → bytes_le b a ≡ true → a ≡ b
unfolding bytes_le
bytes_le_antisym [] [] h k = refl
bytes_le_antisym [] (y ∷ ys) h k = cc
bytes_le_antisym (x ∷ xs) [] h k = cc
bytes_le_antisym (x ∷ xs) (y ∷ ys) h k = ground (arith, bytes_le_antisym xs ys)

bytes_le_trans : (a b c : Bytes) → bytes_le a b ≡ true → bytes_le b c ≡ true → bytes_le a c ≡ true
unfolding bytes_le
bytes_le_trans [] b c h k = refl
bytes_le_trans (x ∷ xs) [] c h k = cc
bytes_le_trans (x ∷ xs) (y ∷ ys) [] h k = cc
bytes_le_trans (x ∷ xs) (y ∷ ys) (z ∷ zs) h k = ground (arith, bytes_le_trans xs ys zs)

same_sym : (a b : Bytes) → same a b ≡ same b a
same_sym [] [] = refl
same_sym [] (y ∷ ys) = refl
same_sym (x ∷ xs) [] = refl
same_sym (x ∷ xs) (y ∷ ys) = ground (arith, same_sym xs ys)

pair_le_total : (p q : Pair) → pair_le p q ≡ false → pair_le q p ≡ true
unfolding pair_le
pair_le_total (a, b) (c, d) h = ground (arith, same_sym a c, bytes_le_total b d, bytes_le_total a c)

pair_le_antisym : (p q : Pair) → pair_le p q ≡ true → pair_le q p ≡ true → p ≡ q
unfolding pair_le
pair_le_antisym (a, b) (c, d) h k =
    ground
      (arith, same_sym a c, same_eq a c, bytes_le_antisym b d, bytes_le_antisym a c, same_refl a)

pair_le_trans : (p q r : Pair) → pair_le p q ≡ true → pair_le q r ≡ true → pair_le p r ≡ true
unfolding pair_le
pair_le_trans (a, b) (c, d) (e, f) h k = ground (
  arith,
  same_eq a c,
  same_eq c e,
  same_eq a e,
  same_refl a,
  same_refl c,
  bytes_le_antisym a c,
  bytes_le_trans a c e,
  bytes_le_trans b d f,
)

insert_comm :
    (p q : Pair) (l : List Pair) → insert_pair p (insert_pair q l) ≡ insert_pair q (insert_pair p l)
unfolding insert_pair
insert_comm p q [] = ground (arith, pair_le_total p q, pair_le_antisym p q)
insert_comm p q (r ∷ l) = ground (
  arith,
  insert_comm p q l,
  pair_le_total p q,
  pair_le_antisym p q,
  pair_le_trans p q r,
  pair_le_trans q p r,
)

sort-perm : {l m : List Pair} → Permᴰ l m → sort_pairs l ≡ sort_pairs m
unfolding sort_pairs
sort-perm Permᴰ.nil = refl
sort-perm (Permᴰ.cons e d) = cc (e, sort-perm d)
sort-perm (Permᴰ.swap {a} {b} {l = l} e k) = insert_comm a b (sort_pairs l) ∙ cc (e, k)
sort-perm (Permᴰ.trans d e) = sort-perm d ∙ sort-perm e

Bytes-set : IsSet Bytes
Bytes-set = hlevel

insert-perm : (p : Pair) (l : List Pair) → Perm (insert_pair p l) (p ∷ l)
unfolding insert_pair
insert-perm p [] = Perm.refl (p ∷ [])
insert-perm p (q ∷ l) = elim (Bool-cases (pair_le p q)) [
  | inl h ↦ rw h (Perm.refl (p ∷ q ∷ l))
  | inr h ↦ rw h (Perm.trans (Perm.cons q (insert-perm p l)) (Perm.swap p q l))
]

perm-sort : (l : List Pair) → Perm (sort_pairs l) l
unfolding sort_pairs
perm-sort [] = Perm.refl []
perm-sort (p ∷ l) = Perm.trans (insert-perm p (sort_pairs l)) (Perm.cons p (perm-sort l))

insert-All :
    (P : Pair → Type 0) (p : Pair) (l : List Pair) → P p → All P l → All P (insert_pair p l)
unfolding insert_pair
insert-All P p [] h all = (h, tt)
insert-All P p (q ∷ l) h all =
    split_bool (All P) (pair_le p q) _ _ (λ e. (h, all)) (λ e. (all.0, insert-All P p l h all.1))

sort-All : (P : Pair → Type 0) (l : List Pair) → All P l → All P (sort_pairs l)
unfolding sort_pairs
sort-All P [] all = tt
sort-All P (p ∷ l) all = insert-All P p (sort_pairs l) all.0 (sort-All P l all.1)

module _ (form : FormUrlencoded) where
  abbrev pub pairs_of : Option Bytes → List Pair
  pairs_of none = []
  pairs_of (some q) = form.parse q

  sorted-AreTexts : (q : Option Bytes) → AreTexts (sort_pairs (pairs_of q))
  sorted-AreTexts none = sort-All _ [] tt
  sorted-AreTexts (some q) = sort-All _ (form.parse q) (form.parse-texts q)

  normalize_sorts :
      (q : Option Bytes) → normalize_query form q ≡ form.serialize (sort_pairs (pairs_of q))
  unfolding normalize_query sort_pairs
  normalize_sorts none = sym form.serialize_empty
  normalize_sorts (some []) = rw form.parse_empty (sym form.serialize_empty)
  normalize_sorts (some (c ∷ q)) = short (form.parse (c ∷ q))
    where
      short : (ps : List Pair) → normalize_pairs form ps ≡ form.serialize (sort_pairs ps)
      short [] = refl
      short (p ∷ []) = refl
      short (p ∷ r ∷ ps) = ground arith

  -- Two queries share a cache key exactly when they decode to the same parameters, each as often, in
  -- any order and encoding.
  pub normalize_query-perm :
      (q r : Option Bytes)
      → (normalize_query form q ≡ normalize_query form r) ↔ Perm (pairs_of q) (pairs_of r)
  normalize_query-perm q r = (
    λ same_key.
        let sorted : sort_pairs (pairs_of q) ≡ sort_pairs (pairs_of r) =
          sym (form.parse-serialize (sort_pairs (pairs_of q)) (sorted-AreTexts q))
          ∙ ap form.parse (sym (normalize_sorts q) ∙ same_key ∙ normalize_sorts r)
          ∙ form.parse-serialize (sort_pairs (pairs_of r)) (sorted-AreTexts r) in
        Perm.trans (Perm.symm (perm-sort (pairs_of q)))
          (subst (λ l. Perm l (pairs_of r)) (sym sorted) (perm-sort (pairs_of r))),
    λ permuted.
        ∥∥₁_elim permuted (Bytes-set (normalize_query form q) (normalize_query form r))
          (λ d. normalize_sorts q ∙ ap form.serialize (sort-perm d) ∙ sym (normalize_sorts r)),
  )
