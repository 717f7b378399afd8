-- ===== src/Examples/Access.antt =====
-- src/api_keys.rs at concrete inputs.
use hifi_api_rust.Base.{◌≤◌, ◌≡◌, ◌⊎◌, refl, true, false, List, [], ◌∷◌, none, some, arith}
use hifi_api_rust.Base.Bytes.{codes}
use hifi_api_rust.Lockout.{v4, init}
use hifi_api_rust.ApiKeys.Keys.{Bytes, ApiKeyState, check_and_consume, consume, active_count}
use hifi_api_rust.ApiKeys.Sync.{RemoteKey, merge_keys}
use hifi_api_rust.ApiKeys.Quota.{KeyEvent, checks, passed, allowance, passed-le-allowance, step}
use hifi_api_rust.ApiKeys.Enforce.{
  KeyRequest, Gate, pass, is_exempt, is_empty, enforce_key, enforce_api_key,
}
use hifi_api_rust.ApiKeys.Access.{IsOwner, GoodKey, enforce_api_key-pass}
use hifi_api_rust.ApiKeys.Merging.{Extends, merge_keys-Extends}

-- A stand-in for the hash.
abbrev plain_hash : Bytes → Bytes
plain_hash raw = raw

abbrev key : ApiKeyState
key = record {
  id = codes "k1";
  label = codes "app";
  key_hash = codes "secret";
  key_prefix = codes "hifi_";
  quota = 2;
  used = 1;
  is_active = true;
  updated_at = 10;
}

abbrev history : List KeyEvent
history = checks (codes "secret") ∷ checks (codes "other") ∷ checks (codes "secret") ∷ []

passed-le-allowance_example :
    passed (codes "secret") history (key ∷ []) ≤ allowance (codes "secret") (key ∷ [])
passed-le-allowance_example =
    passed-le-allowance (codes "secret") history (key ∷ []) ((λ h. omega arith), tt)

one_passes : passed (codes "secret") history (key ∷ []) ≡ 1
unfolding passed step check_and_consume consume
one_passes = refl

abbrev incoming : KeyRequest
incoming = record {
  path = codes "/info/";
  admin_key = [];
  api_key = some (codes "secret");
  ip = v4 1;
  now = 5;
}

abbrev gate : Gate
gate = record { keys = key ∷ []; admin_auth_guard = init 0 }

passes : (enforce_api_key plain_hash (codes "owner") incoming gate).1 ≡ pass
unfolding enforce_api_key enforce_key check_and_consume consume active_count
passes = refl

enforce_api_key-pass_example :
    (is_exempt incoming.path ≡ true)
    ⊎ (active_count gate.keys ≡ 0)
    ⊎ (is_empty (codes "owner") ≡ false) × IsOwner (codes "owner") incoming gate
    ⊎ ((raw : Bytes) × (incoming.api_key ≡ some raw) × GoodKey plain_hash raw gate.keys)
enforce_api_key-pass_example = enforce_api_key-pass plain_hash (codes "owner") incoming gate passes

abbrev newer : RemoteKey
newer = record {
  label = none;
  key_hash = some (codes "secret");
  key_prefix = none;
  quota = some 9;
  is_active = some false;
  updated_at = some 11;
}

merge_keys-Extends_example :
    Extends (key ∷ []) (merge_keys ((codes "k1", some newer) ∷ []) (key ∷ [])).0
merge_keys-Extends_example = merge_keys-Extends ((codes "k1", some newer) ∷ []) (key ∷ [])
