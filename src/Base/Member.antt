-- ===== src/Base/Member.antt =====
-- Membership in a list, and what filters, maps and rotations keep of it.
use Prim.Native.Nat.{ℕ, zero, suc}
use mathlib.Core.Path.{◌≡◌, refl}
use mathlib.Core.Logic.{◌⊎◌, inl, inr}
use mathlib.Core.Bool.{Bool, true}
use mathlib.Core.List.{List, [], ◌∷◌, ◌++◌, map}
use native.Mathlib.Omega.{arith}
use hifi_api_rust.Base.Lists.{keep, take, drop}

abbrev pub Has : {A : Type 0} → A → List A → Type 0
Has x [] = ⊥
Has x (y ∷ ys) = (x ≡ y) ⊎ Has x ys

module _ {A : Type 0} where
  pub Has-keep : (p : A → Bool) (x : A) (xs : List A) → Has x (keep p xs) → Has x xs × (p x ≡ true)
  Has-keep p x [] h = absurd h
  Has-keep p x (y ∷ ys) h = ground (arith, Has-keep p x ys)

  pub keep-Has : (p : A → Bool) (x : A) (xs : List A) → Has x xs → p x ≡ true → Has x (keep p xs)
  keep-Has p x [] h t = h
  keep-Has p x (y ∷ ys) h t = ground (arith, keep-Has p x ys)

  pub Has-append : (x : A) (xs ys : List A) → Has x (xs ++ ys) → Has x xs ⊎ Has x ys
  Has-append x [] ys h = inr h
  Has-append x (y ∷ xs) ys h = ground (arith, Has-append x xs ys)

  pub append-Has : (x : A) (xs ys : List A) → Has x xs ⊎ Has x ys → Has x (xs ++ ys)
  append-Has x [] ys h = ground arith
  append-Has x (y ∷ xs) ys h = ground (arith, append-Has x xs ys)

  pub Has-split :
      (n : ℕ) (x : A) (xs : List A)
      → (Has x xs → Has x (drop n xs) ⊎ Has x (take n xs))
        × (Has x (drop n xs) ⊎ Has x (take n xs) → Has x xs)
  Has-split zero x xs = ground arith
  Has-split (suc n) x [] = ground arith
  Has-split (suc n) x (y ∷ xs) = ground (arith, Has-split n x xs)

module _ {A B : Type 0} where
  pub Has-map :
      (f : A → B) (y : B) (xs : List A) → Has y (map f xs) → (x : A) × Has x xs × (y ≡ f x)
  Has-map f y [] h = absurd h
  Has-map f y (x ∷ xs) (inl e) = (x, inl refl, e)
  Has-map f y (x ∷ xs) (inr h) = let r = Has-map f y xs h in (r.0, inr r.1, r.2)

  pub map-Has : (f : A → B) (x : A) (xs : List A) → Has x xs → Has (f x) (map f xs)
  map-Has f x [] h = absurd h
  map-Has f x (y ∷ xs) h = ground (arith, map-Has f x xs)
