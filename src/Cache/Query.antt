-- ===== src/Cache/Query.antt =====
-- The cache key of src/cache.rs: `normalize_query`. The crate form_urlencoded is a parameter, and
-- texts are the lists of their bytes, which `Vec::sort` compares.
use hifi_api_rust.Base.{
  ℕ, ◌≡◌, Bool, true, false, List, [], ◌∷◌, Option, none, some, ltb, leb, ◌==◌, ◌&&◌, zero, suc,
  All, if◌then◌else◌, length,
}
use hifi_api_rust.Base.Bytes.{same}

abbrev pub Bytes : Type 0
Bytes = List ℕ

abbrev pub Pair : Type 0
Pair = Bytes × Bytes

-- Which bytes may follow one: the number that is left of a character, and the range of the next.
abbrev pub lead : ℕ → Option (ℕ × (ℕ × ℕ))
lead b =
    if ltb b 128
    then some (0, (0, 0))
    else if leb 194 b && leb b 223
    then some (1, (128, 191))
    else if b == 224
    then some (2, (160, 191))
    else if b == 237
    then some (2, (128, 159))
    else if leb 225 b && leb b 239
    then some (2, (128, 191))
    else if b == 240
    then some (3, (144, 191))
    else if leb 241 b && leb b 243
    then some (3, (128, 191))
    else if b == 244
    then some (3, (128, 143))
    else none

-- The bytes of a `str`: well-formed UTF-8, inside a character of which `left` bytes are missing.
abbrev pub is_utf8_from : (left low high : ℕ) → Bytes → Bool
is_utf8_from zero low high [] = true
is_utf8_from (suc left) low high [] = false
is_utf8_from zero low high (b ∷ bs) = elim (lead b) [
  | none ↦ false
  | some (left, (l, h)) ↦ is_utf8_from left l h bs
]
is_utf8_from (suc left) low high (b ∷ bs) = elim (leb low b && leb b high) [
  | true ↦ is_utf8_from left 128 191 bs
  | false ↦ false
]

abbrev pub is_text_pair : Pair → Bool
is_text_pair (a, b) = is_utf8_from 0 0 0 a && is_utf8_from 0 0 0 b

abbrev pub AreTexts : List Pair → Type 0
AreTexts = All (λ p. is_text_pair p ≡ true)

-- What the code calls of form_urlencoded, as it is documented: `parse` decodes to texts (lossily,
-- where the bytes are none), and reads back what `serialize` writes of texts.
pub record FormUrlencoded : Type 0 where
  pub parse : Bytes → List Pair
  pub serialize : List Pair → Bytes
  pub parse_empty : parse [] ≡ []
  pub serialize_empty : serialize [] ≡ []
  pub parse-texts : (query : Bytes) → AreTexts (parse query)
  pub parse-serialize : (pairs : List Pair) → AreTexts pairs → parse (serialize pairs) ≡ pairs

unfoldable pub bytes_le : Bytes → Bytes → Bool
bytes_le [] ys = true
bytes_le (x ∷ xs) [] = false
bytes_le (x ∷ xs) (y ∷ ys) =
    let rest = bytes_le xs ys in if ltb x y then true else (if ltb y x then false else rest)

unfoldable pub pair_le : Pair → Pair → Bool
unfolding bytes_le
pair_le (a, b) (c, d) = if same a c then bytes_le b d else bytes_le a c

-- `pairs.sort()`
unfoldable pub insert_pair : Pair → List Pair → List Pair
insert_pair p [] = p ∷ []
insert_pair p (q ∷ qs) = let rest = insert_pair p qs in if pair_le p q then p ∷ q ∷ qs else q ∷ rest

unfoldable pub sort_pairs : List Pair → List Pair
unfolding insert_pair pair_le
sort_pairs [] = []
sort_pairs (p ∷ ps) = insert_pair p (sort_pairs ps)

module _ (form : FormUrlencoded) where
  -- The part of `normalize_query` for a query that is not empty.
  unfoldable pub normalize_pairs : List Pair → Bytes
  unfolding sort_pairs
  normalize_pairs pairs =
      if ltb (length pairs) 2 then form.serialize pairs else form.serialize (sort_pairs pairs)

  unfoldable pub normalize_query : Option Bytes → Bytes
  unfolding normalize_pairs
  normalize_query none = []
  normalize_query (some []) = []
  normalize_query (some (c ∷ q)) = normalize_pairs (form.parse (c ∷ q))
