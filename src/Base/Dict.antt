-- ===== src/Base/Dict.antt =====
-- Association lists: the source's `HashMap`s. Where the source walks a map, the list's order is
-- the order of that walk, so a theorem for every list holds for every order.
use mathlib.Core.Option
use hifi_api_rust.Base.Tests.{if◌then◌else◌}
use hifi_api_rust.Base.Lists.{length}
use Prim.Native.Nat.{◌+◌, ◌≤◌}
use mathlib.Core.Path.{◌≡◌, refl}
use mathlib.Core.Logic.{ite}
use mathlib.Core.Bool.{Bool, true, false}
use mathlib.Core.Option.{Option, none, some}
use mathlib.Core.List.{List, [], ◌∷◌}
use native.Mathlib.Omega.{arith}

-- A value that a filter lets through.
abbrev pub only {ℓ} : {V : Type ℓ} → (V → Bool) → Option V → Option V
only p none = none
only p (some v) = if p v then some v else none

module _ {ℓ} {K V : Type ℓ} (dec : Discrete K) where
  unfoldable pub get : K → List (K × V) → Option V
  get k [] = none
  get k ((j, v) ∷ m) = ite (dec j k) (some v) (get k m)

  unfoldable pub insert : K → V → List (K × V) → List (K × V)
  insert k v [] = (k, v) ∷ []
  insert k v ((j, w) ∷ m) = ite (dec j k) ((j, v) ∷ m) ((j, w) ∷ insert k v m)

  unfoldable pub remove : K → List (K × V) → List (K × V)
  remove k [] = []
  remove k ((j, v) ∷ m) = let rest = remove k m in ite (dec j k) rest ((j, v) ∷ rest)

  -- `get_mut` followed by an update of the value.
  unfoldable pub modify : K → (V → V) → List (K × V) → List (K × V)
  modify k f [] = []
  modify k f ((j, v) ∷ m) = ite (dec j k) ((j, f v) ∷ m) ((j, v) ∷ modify k f m)

  unfoldable pub contains_key : K → List (K × V) → Bool
  contains_key k m = elim (get k m) [ none ↦ false | some v ↦ true ]

  -- No key stands twice.
  abbrev pub Distinct : List (K × V) → Type ℓ
  Distinct [] = Unit
  Distinct ((k, v) ∷ m) = (get k m ≡ none) × Distinct m

  -- Every stored value has the property.
  abbrev pub Every {κ} : (V → Type κ) → List (K × V) → Type (ℓ ⊔ κ)
  Every P m = (k : K) (v : V) → get k m ≡ some v → P v

module _ {ℓ} {K V : Type ℓ} where
  unfoldable pub retain : (V → Bool) → List (K × V) → List (K × V)
  retain p [] = []
  retain p ((k, v) ∷ m) = let rest = retain p m in if p v then (k, v) ∷ rest else rest

  unfoldable pub map_values : (V → V) → List (K × V) → List (K × V)
  map_values f [] = []
  map_values f ((k, v) ∷ m) = (k, f v) ∷ map_values f m

module _ {ℓ} {K V : Type ℓ} (dec : Discrete K) where
  pub get-insert :
      (j k : K) (v : V) (m : List (K × V))
      → get dec j (insert dec k v m) ≡ ite (dec k j) (some v) (get dec j m)
  unfolding get insert
  get-insert j k v [] = refl
  get-insert j k v ((i, w) ∷ m) = ground (arith, get-insert j k v m)

  pub get-remove :
      (j k : K) (m : List (K × V)) → get dec j (remove dec k m) ≡ ite (dec k j) none (get dec j m)
  unfolding get remove
  get-remove j k [] = ground arith
  get-remove j k ((i, w) ∷ m) = ground (arith, get-remove j k m)

  pub get-modify :
      (j k : K) (f : V → V) (m : List (K × V))
      → get dec j (modify dec k f m) ≡ ite (dec k j) (Option.map f (get dec k m)) (get dec j m)
  unfolding get modify
  get-modify j k f [] = ground arith
  get-modify j k f ((i, w) ∷ m) = ground (arith, get-modify j k f m)

  pub get-map_values :
      (j : K) (f : V → V) (m : List (K × V))
      → get dec j (map_values f m) ≡ Option.map f (get dec j m)
  unfolding get map_values
  get-map_values j f [] = refl
  get-map_values j f ((i, w) ∷ m) = ground (arith, get-map_values j f m)

  pub get-retain :
      (j : K) (p : V → Bool) (m : List (K × V))
      → Distinct dec m
      → get dec j (retain p m) ≡ only p (get dec j m)
  unfolding get retain
  get-retain j p [] d = refl
  get-retain j p ((i, w) ∷ m) d = ground (arith, get-retain j p m d.1)

  get-retain-none :
      (j : K) (p : V → Bool) (m : List (K × V)) → get dec j m ≡ none → get dec j (retain p m) ≡ none
  unfolding get retain
  get-retain-none j p [] h = refl
  get-retain-none j p ((i, w) ∷ m) h = ground (arith, get-retain-none j p m)

  pub insert-Distinct :
      (k : K) (v : V) (m : List (K × V)) → Distinct dec m → Distinct dec (insert dec k v m)
  unfolding get insert
  insert-Distinct k v [] d = (refl, tt)
  insert-Distinct k v ((i, w) ∷ m) d = ground (arith, insert-Distinct k v m d.1, get-insert i k v m)

  pub remove-Distinct : (k : K) (m : List (K × V)) → Distinct dec m → Distinct dec (remove dec k m)
  unfolding get remove
  remove-Distinct k [] d = tt
  remove-Distinct k ((i, w) ∷ m) d = ground (arith, remove-Distinct k m d.1, get-remove i k m)

  pub modify-Distinct :
      (k : K) (f : V → V) (m : List (K × V)) → Distinct dec m → Distinct dec (modify dec k f m)
  unfolding get modify
  modify-Distinct k f [] d = tt
  modify-Distinct k f ((i, w) ∷ m) d = ground (arith, modify-Distinct k f m d.1, get-modify i k f m)

  pub map_values-Distinct :
      (f : V → V) (m : List (K × V)) → Distinct dec m → Distinct dec (map_values f m)
  unfolding get map_values
  map_values-Distinct f [] d = tt
  map_values-Distinct f ((i, w) ∷ m) d =
      ground (arith, map_values-Distinct f m d.1, get-map_values i f m)

  pub retain-Distinct :
      (p : V → Bool) (m : List (K × V)) → Distinct dec m → Distinct dec (retain p m)
  unfolding get retain
  retain-Distinct p [] d = tt
  retain-Distinct p ((i, w) ∷ m) d =
      ground (arith, retain-Distinct p m d.1, get-retain-none i p m d.0)

  pub length-insert :
      (k : K) (v : V) (m : List (K × V))
      → length (insert dec k v m) ≡ (if contains_key dec k m then length m else length m + 1)
  unfolding get insert contains_key
  length-insert k v [] = omega arith
  length-insert k v ((i, w) ∷ m) = ground (arith, length-insert k v m)

  pub length-remove-le : (k : K) (m : List (K × V)) → length (remove dec k m) ≤ length m
  unfolding remove
  length-remove-le k [] = omega arith
  length-remove-le k ((i, w) ∷ m) = ground (arith, length-remove-le k m)

  -- A key that is present gives up one place.
  pub length-remove_present :
      (k : K) (v : V) (m : List (K × V))
      → get dec k m ≡ some v
      → length (remove dec k m) + 1 ≤ length m
  unfolding get remove
  length-remove_present k v [] h = cc
  length-remove_present k v ((i, w) ∷ m) h =
      ground (arith, length-remove_present k v m, length-remove-le k m)

  pub length-modify : (k : K) (f : V → V) (m : List (K × V)) → length (modify dec k f m) ≡ length m
  unfolding modify
  length-modify k f [] = refl
  length-modify k f ((i, w) ∷ m) = ground (arith, length-modify k f m)

module _ {ℓ} {K V : Type ℓ} where
  pub length-retain-le : (p : V → Bool) (m : List (K × V)) → length (retain p m) ≤ length m
  unfolding retain
  length-retain-le p [] = omega arith
  length-retain-le p ((i, w) ∷ m) = ground (arith, length-retain-le p m)

  pub length-map_values : (f : V → V) (m : List (K × V)) → length (map_values f m) ≡ length m
  unfolding map_values
  length-map_values f [] = refl
  length-map_values f ((i, w) ∷ m) = ground (arith, length-map_values f m)
