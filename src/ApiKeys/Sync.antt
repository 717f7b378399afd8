-- ===== src/ApiKeys/Sync.antt =====
-- What src/api_keys.rs takes from Redis and gives to it. What Redis holds is an argument.
use hifi_api_rust.Base.{
  ℕ, ◌^◌, Bool, true, not, ◌&&◌, List, [], ◌∷◌, ◌++◌, map, Option, none, some, ltb, leb, ◌==◌,
  if◌then◌else◌, length, keep, any, max,
}
use hifi_api_rust.Base.Bytes.{same, parse_number}
use hifi_api_rust.ApiKeys.Keys.{Bytes, ApiKeyState}

-- The keys whose usage `sync_usage_from_redis` asks for.
unfoldable pub limited_ids : List ApiKeyState → List Bytes
limited_ids keys = map (λ k. k.id) (keep (λ k. ltb 0 k.quota) keys)

-- `v.parse::<i64>().unwrap_or(0).max(0)`
unfoldable pub usage_count : Bytes → ℕ
usage_count v = elim (parse_number (2 ^ 63) v) [ none ↦ 0 | some n ↦ n ]

unfoldable pub raise_used : Bytes → ℕ → List ApiKeyState → List ApiKeyState
raise_used id count [] = []
raise_used id count (k ∷ ks) =
    let rest = raise_used id count ks in
    if same k.id id then record k { used = max k.used count } ∷ ks else k ∷ rest

-- The loop of `sync_usage_from_redis` over the ids and their counters.
unfoldable pub sync_usage : List (Bytes × Option Bytes) → List ApiKeyState → List ApiKeyState
sync_usage [] keys = keys
sync_usage ((id, none) ∷ r) keys = sync_usage r keys
sync_usage ((id, some v) ∷ r) keys = sync_usage r (raise_used id (usage_count v) keys)

-- A definition in Redis: the fields that the JSON record has.
pub record RemoteKey : Type 0 where
  pub label : Option Bytes
  pub key_hash : Option Bytes
  pub key_prefix : Option Bytes
  pub quota : Option ℕ
  pub is_active : Option Bool
  pub updated_at : Option ℕ

abbrev pub or_empty : Option Bytes → Bytes
or_empty none = []
or_empty (some b) = b

abbrev pub or_zero : Option ℕ → ℕ
or_zero none = 0
or_zero (some n) = n

abbrev pub or_true : Option Bool → Bool
or_true none = true
or_true (some b) = b

-- A newer record for a key that is known.
unfoldable pub adopt : RemoteKey → ApiKeyState → ApiKeyState
adopt v k =
    let hash = or_empty v.key_hash in
    if leb (or_zero v.updated_at) k.updated_at
    then k
    else (if length hash == 64 && not (same hash k.key_hash) then k else record k {
      quota = or_zero v.quota;
      is_active = or_true v.is_active;
      updated_at = or_zero v.updated_at;
    })

unfoldable pub is_known : Bytes → List ApiKeyState → Bool
is_known id keys = any (λ k. same k.id id) keys

unfoldable pub adopt_at : Bytes → RemoteKey → List ApiKeyState → List ApiKeyState
adopt_at id v [] = []
adopt_at id v (k ∷ ks) =
    let rest = adopt_at id v ks in if same k.id id then adopt v k ∷ ks else k ∷ rest

-- A record for a key that is not known.
unfoldable pub restore : Bytes → RemoteKey → List ApiKeyState → List ApiKeyState
restore id v keys =
    let hash = or_empty v.key_hash in
    if not (length hash == 64)
    then keys
    else keys
      ++ record {
        id = id;
        label = or_empty v.label;
        key_hash = hash;
        key_prefix = or_empty v.key_prefix;
        quota = or_zero v.quota;
        used = 0;
        is_active = or_true v.is_active;
        updated_at = or_zero v.updated_at;
      }
        ∷ []

-- One round of `merge_keys_from_redis`; `none` is a record that is missing or no JSON.
unfoldable pub merge_key : Bytes → Option RemoteKey → List ApiKeyState → List ApiKeyState
merge_key id none keys = keys
merge_key id (some v) keys = if is_known id keys then adopt_at id v keys else restore id v keys

unfoldable pub merge_loop : List (Bytes × Option RemoteKey) → List ApiKeyState → List ApiKeyState
merge_loop [] keys = keys
merge_loop ((id, v) ∷ r) keys = merge_loop r (merge_key id v keys)

-- The keys that are published afterwards: those that the index does not name.
unfoldable pub unpublished : List (Bytes × Option RemoteKey) → List ApiKeyState → List ApiKeyState
unpublished remote keys = keep (λ k. not (any (λ r. same r.0 k.id) remote)) keys

-- `merge_keys_from_redis`: the keys, and those that it publishes.
unfoldable pub merge_keys :
    List (Bytes × Option RemoteKey) → List ApiKeyState → List ApiKeyState × List ApiKeyState
merge_keys [] keys = (keys, [])
merge_keys (r ∷ remote) keys =
    let merged = merge_loop (r ∷ remote) keys in (merged, unpublished (r ∷ remote) merged)

-- The ids that `publish_all_to_redis` deletes from the index.
unfoldable pub orphans : List Bytes → List ApiKeyState → List Bytes
orphans remote_ids keys = keep (λ id. not (any (λ k. same k.id id) keys)) remote_ids
