-- ===== src/ApiKeys/Merging.antt =====
-- What `merge_keys_from_redis` of src/api_keys.rs may change.
use hifi_api_rust.Base.{
  ◌<◌, ◌≡◌, refl, sym, subst, ◌∙◌, ◌⊎◌, inl, inr, List, [], ◌∷◌, ◌++◌, Option, none, some, arith,
  Bool-cases, ◌==◌, length,
}
use hifi_api_rust.Base.Bytes.{same}
use hifi_api_rust.ApiKeys.Keys.{Bytes, ApiKeyState}
use hifi_api_rust.ApiKeys.Sync.{
  RemoteKey, adopt, adopt_at, restore, merge_key, merge_loop, merge_keys, is_known, or_empty,
}

-- A key and what a merge makes of it: the same key, with the requests it has used, and a definition
-- that is either untouched or newer.
abbrev pub Follows : ApiKeyState → ApiKeyState → Type 0
Follows k m =
    (m.id ≡ k.id)
    × (m.label ≡ k.label)
    × (m.key_hash ≡ k.key_hash)
    × (m.key_prefix ≡ k.key_prefix)
    × (m.used ≡ k.used)
    × ((m ≡ k) ⊎ (k.updated_at < m.updated_at))

-- The keys stay in their places, and those that a merge adds follow them: unused, and with a hash of
-- 64 bytes.
abbrev pub Extends : List ApiKeyState → List ApiKeyState → Type 0
Extends [] [] = Unit
Extends [] (m ∷ ms) = (length m.key_hash ≡ 64) × (m.used ≡ 0) × Extends [] ms
Extends (k ∷ ks) [] = ⊥
Extends (k ∷ ks) (m ∷ ms) = Follows k m × Extends ks ms

Extends-refl : (keys : List ApiKeyState) → Extends keys keys
Extends-refl [] = tt
Extends-refl (k ∷ ks) = ((refl, refl, refl, refl, refl, inl refl), Extends-refl ks)

Follows-trans : (k m n : ApiKeyState) → Follows k m → Follows m n → Follows k n
Follows-trans k m n f g = ground arith

adopt-Follows : (v : RemoteKey) (k : ApiKeyState) → Follows k (adopt v k)
unfolding adopt
adopt-Follows v k = ground arith

Extends-trans : (ks ms ns : List ApiKeyState) → Extends ks ms → Extends ms ns → Extends ks ns
Extends-trans [] [] ns e f = f
Extends-trans [] (m ∷ ms) [] e f = absurd f
Extends-trans [] (m ∷ ms) (n ∷ ns) e f =
    (subst (λ h. length h ≡ 64) (sym f.0.2) e.0, f.0.4 ∙ e.1, Extends-trans [] ms ns e.2 f.1)
Extends-trans (k ∷ ks) [] ns e f = absurd e
Extends-trans (k ∷ ks) (m ∷ ms) [] e f = absurd f
Extends-trans (k ∷ ks) (m ∷ ms) (n ∷ ns) e f =
    (Follows-trans k m n e.0 f.0, Extends-trans ks ms ns e.1 f.1)

adopt_at-Extends :
    (id : Bytes) (v : RemoteKey) (keys : List ApiKeyState) → Extends keys (adopt_at id v keys)
unfolding adopt_at
adopt_at-Extends id v [] = tt
adopt_at-Extends id v (k ∷ ks) = elim (Bool-cases (same k.id id)) [
  | inl e ↦ rw (e, adopt_at) (adopt-Follows v k, Extends-refl ks)
  | inr e ↦ rw (e, adopt_at) ((refl, refl, refl, refl, refl, inl refl), adopt_at-Extends id v ks)
]

append-Extends :
    (m : ApiKeyState) (keys : List ApiKeyState)
    → length m.key_hash ≡ 64
    → m.used ≡ 0
    → Extends keys (keys ++ m ∷ [])
append-Extends m [] l u = (l, u, tt)
append-Extends m (k ∷ ks) l u = ((refl, refl, refl, refl, refl, inl refl), append-Extends m ks l u)

restore-Extends :
    (id : Bytes) (v : RemoteKey) (keys : List ApiKeyState) → Extends keys (restore id v keys)
unfolding restore
restore-Extends id v keys = elim (Bool-cases (length (or_empty v.key_hash) == 64)) [
  | inl whole ↦ rw (whole, restore) (append-Extends _ keys (ground arith) refl)
  | inr short ↦ rw (short, restore) (Extends-refl keys)
]

merge_key-Extends :
    (id : Bytes) (v : Option RemoteKey) (keys : List ApiKeyState)
    → Extends keys (merge_key id v keys)
unfolding merge_key
merge_key-Extends id none keys = Extends-refl keys
merge_key-Extends id (some v) keys = elim (Bool-cases (is_known id keys)) [
  | inl known ↦ rw (known, merge_key) (adopt_at-Extends id v keys)
  | inr new ↦ rw (new, merge_key) (restore-Extends id v keys)
]

merge_loop-Extends :
    (remote : List (Bytes × Option RemoteKey)) (keys : List ApiKeyState)
    → Extends keys (merge_loop remote keys)
unfolding merge_loop
merge_loop-Extends [] keys = Extends-refl keys
merge_loop-Extends ((id, v) ∷ r) keys =
    Extends-trans keys (merge_key id v keys) (merge_loop r (merge_key id v keys))
      (merge_key-Extends id v keys) (merge_loop-Extends r (merge_key id v keys))

-- A merge loses no key and gives none another secret, name or count of used requests: each known key
-- stays in its place, with its definition or a newer one, and what the merge adds is unused and has
-- a hash of 64 bytes.
pub merge_keys-Extends :
    (remote : List (Bytes × Option RemoteKey)) (keys : List ApiKeyState)
    → Extends keys (merge_keys remote keys).0
unfolding merge_keys
merge_keys-Extends [] keys = Extends-refl keys
merge_keys-Extends (r ∷ remote) keys = merge_loop-Extends (r ∷ remote) keys
