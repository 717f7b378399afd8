-- ===== src/Examples/Form.antt =====
-- A form encoding and a store that meet what src/cache.rs relies on.
use hifi_api_rust.Base.{
  ℕ, zero, suc, ◌≡◌, refl, ap, ◌⊎◌, List, [], ◌∷◌, Option, none, some, arith, if◌then◌else◌, length,
  ◌==◌, keep, split_bool, ◌∙◌,
}
use hifi_api_rust.Base.Bytes.{same, same_eq}
use hifi_api_rust.Cache.Query.{Bytes, Pair, is_text_pair, AreTexts, FormUrlencoded}
use hifi_api_rust.Cache.Store.{CacheStore}

-- Bytes are raised by two; 0 stands before a pair and 1 before its value.
abbrev raise : Bytes → Bytes → Bytes
raise [] t = t
raise (x ∷ xs) t = suc (suc x) ∷ raise xs t

abbrev serialize : List Pair → Bytes
serialize [] = []
serialize ((k, v) ∷ ps) = 0 ∷ raise k (1 ∷ raise v (serialize ps))

record Parsing : Type 0 where
  text : Bytes
  value : Bytes
  pairs : List Pair

abbrev read : ℕ → Parsing → Parsing
read zero p = record { text = []; value = []; pairs = (p.text, p.value) ∷ p.pairs }
read (suc zero) p = record { text = []; value = p.text; pairs = p.pairs }
read (suc (suc x)) p = record p { text = x ∷ p.text }

abbrev parsing : Bytes → Parsing
parsing [] = record { text = []; value = []; pairs = [] }
parsing (x ∷ xs) = read x (parsing xs)

parsing-raise :
    (xs t : Bytes) (p : Parsing)
    → parsing t ≡ record p { text = [] }
    → parsing (raise xs t) ≡ record p { text = xs }
parsing-raise [] t p h = h
parsing-raise (x ∷ xs) t p h = ap (λ q. read (suc (suc x)) q) (parsing-raise xs t p h)

parsing-serialize :
    (ps : List Pair) → parsing (serialize ps) ≡ record { text = []; value = []; pairs = ps }
parsing-serialize [] = refl
parsing-serialize ((k, v) ∷ ps) =
    ap (λ q. read 0 q)
      (parsing-raise k (1 ∷ raise v (serialize ps)) (record { text = []; value = v; pairs = ps })
        (ap (λ q. read 1 q)
          (parsing-raise v (serialize ps) (record { text = []; value = []; pairs = ps })
            (parsing-serialize ps))))

pub parse-serialize_lem : (ps : List Pair) → (parsing (serialize ps)).pairs ≡ ps
parse-serialize_lem ps = ap (λ q. q.pairs) (parsing-serialize ps)

pub keep-AreTexts : (ps : List Pair) → AreTexts (keep is_text_pair ps)
keep-AreTexts [] = tt
keep-AreTexts (p ∷ ps) =
    split_bool AreTexts (is_text_pair p) _ _ (λ h. (h, keep-AreTexts ps)) (λ h. keep-AreTexts ps)

pub keep_texts : (ps : List Pair) → AreTexts ps → keep is_text_pair ps ≡ ps
keep_texts [] h = refl
keep_texts (p ∷ ps) h = rw h.0 (ap (λ qs. p ∷ qs) (keep_texts ps h.1))

-- Pairs that are no texts are left out.
abbrev pub plain_form : FormUrlencoded
plain_form = record {
  parse = λ q. keep is_text_pair (parsing q).pairs;
  serialize = serialize;
  parse_empty = refl;
  serialize_empty = refl;
  parse-texts = λ q. keep-AreTexts (parsing q).pairs;
  parse-serialize = λ ps h. ap (keep is_text_pair) (parse-serialize_lem ps) ∙ keep_texts ps h;
}

-- A store that drops the keys of one length at a time.
module _ (V : Type 0) where
  abbrev put : Bytes → V → (Bytes → Option V) → Bytes → Option V
  put k v t j = if same k j then some v else t j

  abbrev forget : ℕ → (Bytes → Option V) → Bytes → Option V
  forget n t j = if length j == n then none else t j

  pub get-put :
      (k : Bytes) (v : V) (t : Bytes → Option V) (j : Bytes) (w : V)
      → put k v t j ≡ some w
      → ((j ≡ k) × (w ≡ v)) ⊎ (t j ≡ some w)
  get-put k v t j w h = ground (arith, same_eq k j)

  pub get-forget :
      (n : ℕ) (t : Bytes → Option V) (j : Bytes) (w : V) → forget n t j ≡ some w → t j ≡ some w
  get-forget n t j w h = ground arith

  abbrev pub plain_store : CacheStore V
  plain_store = record {
    Table = Bytes → Option V;
    new = λ k. none;
    get = λ t k. t k;
    insert = put;
    invalidate_all = λ t k. none;
    evict = forget;
    get-new = λ k. refl;
    get-insert = get-put;
    get-invalidate_all = λ t j. refl;
    get-evict = get-forget;
  }
