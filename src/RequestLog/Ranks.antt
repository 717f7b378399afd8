-- ===== src/RequestLog/Ranks.antt =====
-- What the percentiles of src/request_log.rs are of the latencies, whatever their order.
use hifi_api_rust.Base.{
  ℕ, zero, suc, ◌-◌, ◌≤◌, ◌<◌, ◌≡◌, refl, ap, subst, ◌∙◌, Bool, List, [], ◌∷◌, some, leb, ltb,
  if◌then◌else◌, length, min, max, arith, Bool-cases, inl, inr, All,
}
use hifi_api_rust.RequestLog.Percentile.{insert_number, sort_unstable, get_elem?, percentile, pct}

abbrev pub count : (ℕ → Bool) → List ℕ → ℕ
count p [] = 0
count p (x ∷ xs) = let rest = count p xs in if p x then suc rest else rest

count-insert_number :
    (p : ℕ → Bool) (x : ℕ) (xs : List ℕ) → count p (insert_number x xs) ≡ count p (x ∷ xs)
unfolding insert_number
count-insert_number p x [] = refl
count-insert_number p x (y ∷ ys) = ground (arith, count-insert_number p x ys)

count-sort_unstable : (p : ℕ → Bool) (xs : List ℕ) → count p (sort_unstable xs) ≡ count p xs
unfolding sort_unstable
count-sort_unstable p [] = refl
count-sort_unstable p (x ∷ xs) =
    count-insert_number p x (sort_unstable xs) ∙ ground (arith, count-sort_unstable p xs)

length-insert_number : (x : ℕ) (xs : List ℕ) → length (insert_number x xs) ≡ suc (length xs)
unfolding insert_number
length-insert_number x [] = refl
length-insert_number x (y ∷ ys) = ground (arith, length-insert_number x ys)

length-sort_unstable : (xs : List ℕ) → length (sort_unstable xs) ≡ length xs
unfolding sort_unstable
length-sort_unstable [] = refl
length-sort_unstable (x ∷ xs) =
    length-insert_number x (sort_unstable xs) ∙ omega (arith, length-sort_unstable xs)

abbrev IsSorted : List ℕ → Type 0
IsSorted [] = Unit
IsSorted (x ∷ xs) = All (λ y. x ≤ y) xs × IsSorted xs

All-insert_number :
    (a x : ℕ) (xs : List ℕ) → a ≤ x → All (λ y. a ≤ y) xs → All (λ y. a ≤ y) (insert_number x xs)
unfolding insert_number
All-insert_number a x [] h k = (h, tt)
All-insert_number a x (y ∷ ys) h k = elim (Bool-cases (leb x y)) [
  | inl e ↦ rw e (h, k)
  | inr e ↦ rw e (k.0, All-insert_number a x ys h k.1)
]

All-trans : (a b : ℕ) (xs : List ℕ) → a ≤ b → All (λ y. b ≤ y) xs → All (λ y. a ≤ y) xs
All-trans a b [] h k = tt
All-trans a b (x ∷ xs) h k = (omega (arith, k.0), All-trans a b xs h k.1)

insert_number-IsSorted : (x : ℕ) (xs : List ℕ) → IsSorted xs → IsSorted (insert_number x xs)
unfolding insert_number
insert_number-IsSorted x [] s = (tt, tt)
insert_number-IsSorted x (y ∷ ys) s = elim (Bool-cases (leb x y)) [
  | inl e ↦ rw e ((ground arith, All-trans x y ys (ground arith) s.0), s)
  | inr e ↦ rw e (All-insert_number y x ys (ground arith) s.0, insert_number-IsSorted x ys s.1)
]

sort_unstable-IsSorted : (xs : List ℕ) → IsSorted (sort_unstable xs)
unfolding sort_unstable
sort_unstable-IsSorted [] = tt
sort_unstable-IsSorted (x ∷ xs) =
    insert_number-IsSorted x (sort_unstable xs) (sort_unstable-IsSorted xs)

-- The element at index `i` of a sorted list: at most `i` elements are below it, and more than `i` are
-- not above it.
get_elem?-above :
    (a : ℕ) (xs : List ℕ) (i v : ℕ) → All (λ y. a ≤ y) xs → get_elem? xs i ≡ some v → a ≤ v
get_elem?-above a [] i v k h = cc
get_elem?-above a (x ∷ xs) zero v k h = let same : x ≡ v = cc in ground (arith, k.0)
get_elem?-above a (x ∷ xs) (suc i) v k h = get_elem?-above a xs i v k.1 h

count-none_below : (a : ℕ) (xs : List ℕ) → All (λ y. a ≤ y) xs → count (λ y. ltb y a) xs ≡ 0
count-none_below a [] k = refl
count-none_below a (x ∷ xs) k = ground (arith, count-none_below a xs k.1, k.0)

get_elem?-rank :
    (xs : List ℕ) (i v : ℕ)
    → IsSorted xs
    → get_elem? xs i ≡ some v
    → (count (λ y. ltb y v) xs ≤ i) × (i < count (λ y. leb y v) xs)
get_elem?-rank [] i v s h = cc
get_elem?-rank (x ∷ xs) zero v s h =
    let same : x ≡ v = cc in
    subst (λ w. (count (λ y. ltb y w) (x ∷ xs) ≤ 0) × (0 < count (λ y. leb y w) (x ∷ xs))) same
      (ground (arith, count-none_below x xs s.0), ground arith)
get_elem?-rank (x ∷ xs) (suc i) v s h =
    let ih = get_elem?-rank xs i v s.1 h in
    let above = get_elem?-above x xs i v s.0 h in (ground arith, ground arith)

get_elem?-inside : (xs : List ℕ) (i : ℕ) → i < length xs → (v : ℕ) × (get_elem? xs i ≡ some v)
get_elem?-inside [] i h = absurd (omega arith)
get_elem?-inside (x ∷ xs) zero h = (x, refl)
get_elem?-inside (x ∷ xs) (suc i) h = get_elem?-inside xs i (omega arith)

-- The rank that is looked for among `n` latencies.
abbrev pub rank : (ℕ → ℕ) → ℕ → ℕ
rank ceil n = min (max (ceil n) 1) n

percentile-sorted :
    (ceil : ℕ → ℕ) (xs : List ℕ)
    → IsSorted xs
    → 0 < length xs
    → (v : ℕ) × (percentile ceil xs ≡ some v)
      × (count (λ y. ltb y v) xs < rank ceil (length xs))
      × (rank ceil (length xs) ≤ count (λ y. leb y v) xs)
unfolding percentile
percentile-sorted ceil [] s h = absurd (omega arith)
percentile-sorted ceil (x ∷ xs) s h =
    let found = get_elem?-inside (x ∷ xs) (rank ceil (length (x ∷ xs)) - 1) (omega arith) in
    let r = get_elem?-rank (x ∷ xs) _ found.0 s found.1 in
    (found.0, found.1, omega (arith, r.0), omega (arith, r.1))

-- A percentile of latencies in any order exists where there are latencies, and is their nearest rank:
-- fewer than `rank` of them are below it, and at least `rank` are not above it, where the rank is the
-- rounded product, at least 1 and at most the number of latencies.
pub percentile-rank :
    (ceil : ℕ → ℕ) (xs : List ℕ)
    → 0 < length xs
    → (v : ℕ) × (percentile ceil (sort_unstable xs) ≡ some v)
      × (count (λ y. ltb y v) xs < rank ceil (length xs))
      × (rank ceil (length xs) ≤ count (λ y. leb y v) xs)
percentile-rank ceil xs h =
    let n = length-sort_unstable xs in
    let r =
      percentile-sorted ceil (sort_unstable xs) (sort_unstable-IsSorted xs) (omega (arith, n)) in
    let below = count-sort_unstable (λ y. ltb y r.0) xs in
    let upto = count-sort_unstable (λ y. leb y r.0) xs in
    let same = ap (rank ceil) n in
    (r.0, r.1, omega (arith, r.2, below, same), omega (arith, r.3, upto, same))

-- `summary` and the other statistics agree on a percentile of the same latencies, unless the product
-- is a whole number, where rounding up and down give the same.
pub pct-percentile :
    (ceil floor : ℕ → ℕ) (x : ℕ) (xs : List ℕ)
    → ceil (length (x ∷ xs)) ≡ suc (floor (length (x ∷ xs)))
    → floor (length (x ∷ xs)) < length (x ∷ xs)
    → percentile ceil (x ∷ xs) ≡ some (pct floor (x ∷ xs))
unfolding percentile pct
pct-percentile ceil floor x xs up inside =
    let n = length (x ∷ xs) in
    let found = get_elem?-inside (x ∷ xs) (floor n) inside in
    let higher : min (max (ceil n) 1) n - 1 ≡ floor n = omega arith in
    let lower : min (floor n) (n - 1) ≡ floor n = omega arith in
    rw (higher, pct, lower, found.1) refl
