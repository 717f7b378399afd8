-- ===== src/Base/Bytes.antt =====
-- Texts as lists of their bytes or code points, and what the source asks of them.
use Prim.Native.Char.{code}
use Prim.Native.Nat.{ℕ, ◌+◌, ◌-◌, ◌*◌}
use mathlib.Core.Path.{◌≡◌, refl}
use mathlib.Core.Option.{Option, none, some}
use native.Mathlib.Omega.{arith}
use Prim.Native.String.{String}
use mathlib.Core.Bool.{Bool, true, false, ◌&&◌}
use mathlib.Core.List.{List, [], ◌∷◌}
use hifi_api_rust.Base.Tests.{leb, ltb, ◌==◌, if◌then◌else◌}

abbrev pub codes : String → List ℕ
codes String.[] = []
codes (String.◌∷◌ c s) = code c ∷ codes s

-- `char::to_ascii_lowercase`
unfoldable pub to_lower : ℕ → ℕ
to_lower c = if leb b'A' c && leb c b'Z' then c + 32 else c

abbrev pub same : List ℕ → List ℕ → Bool
same [] [] = true
same [] (y ∷ ys) = false
same (x ∷ xs) [] = false
same (x ∷ xs) (y ∷ ys) = (x == y) && same xs ys

abbrev pub starts_with : List ℕ → List ℕ → Bool
starts_with p [] = elim p [ [] ↦ true | c ∷ q ↦ false ]
starts_with [] (y ∷ ys) = true
starts_with (x ∷ xs) (y ∷ ys) = (x == y) && starts_with xs ys

-- `str::parse` for a type of integers below `limit`: its digits, and its other texts.
unfoldable pub parse_digits : ℕ → ℕ → List ℕ → Option ℕ
parse_digits limit n [] = if ltb n limit then some n else none
parse_digits limit n (c ∷ r) =
    let rest = parse_digits limit (n * 10 + (c - b'0')) r in
    if leb b'0' c && leb c b'9' then rest else none

unfoldable pub parse_number : ℕ → List ℕ → Option ℕ
unfolding parse_digits
parse_number limit [] = none
parse_number limit (c ∷ []) = if c == b'+' then none else parse_digits limit 0 (c ∷ [])
parse_number limit (c ∷ d ∷ r) = parse_digits limit 0 (if c == b'+' then d ∷ r else c ∷ d ∷ r)

pub same_eq : (a b : List ℕ) → same a b ≡ true → a ≡ b
same_eq [] [] h = refl
same_eq [] (y ∷ ys) h = cc
same_eq (x ∷ xs) [] h = cc
same_eq (x ∷ xs) (y ∷ ys) h = ground (arith, same_eq xs ys)

pub same_refl : (a : List ℕ) → same a a ≡ true
same_refl [] = refl
same_refl (x ∷ xs) = ground (arith, same_refl xs)
