-- ===== src/Base/Split.antt =====
-- A property of a choice holds when it holds of both ways. The property is named, so that nothing else
-- in the goal is touched by the split.
use mathlib.Core.Path.{◌≡◌, refl}
use mathlib.Core.Logic.{◌⊎◌, inl, inr}
use mathlib.Core.Bool.{Bool, true, false}
use mathlib.Core.Option.{Option, none, some}
use hifi_api_rust.Base.Tests.{if◌then◌else◌}

module _ {A : Type 0} (P : A → Type 0) where
  pub split_bool :
      (b : Bool) (x y : A) → (b ≡ true → P x) → (b ≡ false → P y) → P (if b then x else y)
  split_bool true x y f g = f refl
  split_bool false x y f g = g refl

  pub split_case :
      (b : Bool) (x y : A)
      → (b ≡ true → P x)
      → (b ≡ false → P y)
      → P (elim b [ true ↦ x | false ↦ y ])
  split_case true x y f g = f refl
  split_case false x y f g = g refl

  pub split_option :
      {B : Type 0} (o : Option B) (x : A) (y : B → A)
      → (o ≡ none → P x)
      → ((b : B) → o ≡ some b → P (y b))
      → P (elim o [ none ↦ x | some b ↦ y b ])
  split_option none x y f g = f refl
  split_option (some b) x y f g = g b refl

  pub split_sum :
      {B C : Type 0} (o : B ⊎ C) (x : B → A) (y : C → A)
      → ((b : B) → o ≡ inl b → P (x b))
      → ((c : C) → o ≡ inr c → P (y c))
      → P (elim o [ inl b ↦ x b | inr c ↦ y c ])
  split_sum (inl b) x y f g = f b refl
  split_sum (inr c) x y f g = g c refl
