-- ===== src/ApiKeys/Keys.antt =====
-- The list of keys of src/api_keys.rs in memory. Texts are lists of bytes, and a failed look-up is the
-- 404 of the source. The hash (SHA-256) and fresh ids and secrets are arguments.
use hifi_api_rust.Base.{
  ℕ, ◌+◌, Bool, true, not, ◌&&◌, List, [], ◌∷◌, ◌++◌, Option, none, some, ltb, ◌==◌, if◌then◌else◌,
  length, keep, take,
}
use hifi_api_rust.Base.Bytes.{same}

abbrev pub Bytes : Type 0
Bytes = List ℕ

pub record ApiKeyState : Type 0 where
  pub id : Bytes
  pub label : Bytes
  pub key_hash : Bytes
  pub key_prefix : Bytes
  -- 0 is no limit.
  pub quota : ℕ
  pub used : ℕ
  pub is_active : Bool
  pub updated_at : ℕ

-- `create`, from a raw key; `raw.chars().take(12)` of an ASCII text.
unfoldable pub create :
    (Bytes → Bytes) → Bytes → Bytes → Bytes → ℕ → ℕ → List ApiKeyState → List ApiKeyState
create hash_key raw id label quota now keys =
    keys
    ++ record {
      id = id;
      label = label;
      key_hash = hash_key raw;
      key_prefix = take 12 raw;
      quota = quota;
      used = 0;
      is_active = true;
      updated_at = now;
    }
      ∷ []

unfoldable pub active_count : List ApiKeyState → ℕ
active_count keys = length (keep (λ k. k.is_active) keys)

-- `set_active`
unfoldable pub set_active : ℕ → Bytes → Bool → List ApiKeyState → Option (List ApiKeyState)
set_active now id active [] = none
set_active now id active (k ∷ ks) =
    let rest = set_active now id active ks in
    if same k.id id
    then some (record k { is_active = active; updated_at = now } ∷ ks)
    else (elim rest [ none ↦ none | some ks' ↦ some (k ∷ ks') ])

-- `remove`
unfoldable pub remove : Bytes → List ApiKeyState → Option (List ApiKeyState)
remove id keys =
    let kept = keep (λ k. not (same k.id id)) keys in
    if length kept == length keys then none else some kept

pub data Checked : Type 0 where
  accepted : Bytes → Checked
  invalid exhausted : Checked

-- The part of `check_and_consume` on the key that it finds: the request counts before the quota is
-- compared.
unfoldable pub consume : ApiKeyState → ApiKeyState × Checked
consume k =
    if ltb 0 k.quota
    then (
      record k { used = k.used + 1 },
      if ltb k.quota (k.used + 1) then exhausted else accepted k.label,
    )
    else (k, accepted k.label)

-- Whether a key answers to a hash.
abbrev pub matches : Bytes → ApiKeyState → Bool
matches hash k = same k.key_hash hash && k.is_active

-- `check_and_consume`, from the hash of the raw key.
unfoldable pub check_and_consume : Bytes → List ApiKeyState → List ApiKeyState × Checked
check_and_consume hash [] = ([], invalid)
check_and_consume hash (k ∷ ks) =
    let rest = check_and_consume hash ks in
    if matches hash k then ((consume k).0 ∷ ks, (consume k).1) else (k ∷ rest.0, rest.1)
