-- ===== src/ApiKeys/Access.antt =====
-- Who passes `enforce_api_key` of src/api_keys.rs.
use hifi_api_rust.Base.{
  ◌<◌, ◌≡◌, refl, ◌⊎◌, inl, inr, true, false, List, [], ◌∷◌, Option, none, some, arith, Has,
  Bool-cases, Option-cases,
}
use hifi_api_rust.Base.Bytes.{same, same_eq}
use hifi_api_rust.AdminAuthGuard
use hifi_api_rust.ApiKeys.Keys.{
  Bytes, ApiKeyState, Checked, accepted, invalid, exhausted, matches, active_count, consume,
  check_and_consume,
}
use hifi_api_rust.ApiKeys.Enforce.{
  KeyRequest, Gate, Decision, pass, unauthorized, is_exempt, is_empty, enforce_key, enforce_owner,
  enforce_api_key,
}

-- A raw key that is good for one more request.
abbrev pub GoodKey : (Bytes → Bytes) → Bytes → List ApiKeyState → Type 0
GoodKey hash_key raw keys =
    (k : ApiKeyState) × Has k keys
    × (k.key_hash ≡ hash_key raw)
    × (k.is_active ≡ true)
    × ((k.quota ≡ 0) ⊎ (k.used < k.quota))

check-GoodKey :
    (hash label : Bytes) (keys : List ApiKeyState)
    → (check_and_consume hash keys).1 ≡ accepted label
    → (k : ApiKeyState) × Has k keys
      × (k.key_hash ≡ hash)
      × (k.is_active ≡ true)
      × ((k.quota ≡ 0) ⊎ (k.used < k.quota))
unfolding check_and_consume consume
check-GoodKey hash label [] h = cc
check-GoodKey hash label (k ∷ ks) h = elim (Bool-cases (matches hash k)) [
  | inl m ↦ (k, inl refl, ground (arith, same_eq k.key_hash hash), ground arith, ground arith)
  | inr other ↦ let r = check-GoodKey hash label ks (ground arith) in (r.0, inr r.1, r.2, r.3, r.4)
]

decision : Checked → Decision
decision c = elim c [ accepted label ↦ pass | invalid ↦ unauthorized | exhausted ↦ unauthorized ]

decided : (c : Checked) → decision c ≡ pass → (label : Bytes) × (c ≡ accepted label)
unfolding decision
decided (accepted label) h = (label, refl)
decided invalid h = cc
decided exhausted h = cc

enforce_key-pass :
    (hash_key : Bytes → Bytes) (raw : Option Bytes) (g : Gate)
    → (enforce_key hash_key raw g).1 ≡ pass
    → (r : Bytes) × (raw ≡ some r) × GoodKey hash_key r g.keys
unfolding enforce_key decision
enforce_key-pass hash_key none g h = cc
enforce_key-pass hash_key (some raw) g h =
    let c = decided (check_and_consume (hash_key raw) g.keys).1 h in
    (raw, refl, check-GoodKey (hash_key raw) c.0 g.keys c.1)

-- The address is not locked out of the sign-in, and the request has the owner's key.
abbrev pub IsOwner : Bytes → KeyRequest → Gate → Type 0
IsOwner config_key r g =
    (r.admin_key ≡ config_key) × ((AdminAuthGuard.check r.ip r.now g.admin_auth_guard).1 ≡ none)

abbrev HasKey : (Bytes → Bytes) → KeyRequest → Gate → Type 0
HasKey hash_key r g = (raw : Bytes) × (r.api_key ≡ some raw) × GoodKey hash_key raw g.keys

enforce_owner-pass :
    (hash_key : Bytes → Bytes) (config_key : Bytes) (r : KeyRequest) (g : Gate)
    → (enforce_owner hash_key config_key r g).1 ≡ pass
    → IsOwner config_key r g ⊎ HasKey hash_key r g
unfolding enforce_owner
enforce_owner-pass hash_key config_key r g h =
    let first = AdminAuthGuard.check r.ip r.now g.admin_auth_guard in
    elim (Option-cases first.1) [
      | inr (s, e) ↦ ground arith
      | inl e ↦ elim (Bool-cases (same r.admin_key config_key)) [
        | inl m ↦ inl (same_eq r.admin_key config_key m, e)
        | inr other ↦
            let second = AdminAuthGuard.failed r.ip r.now first.0 in
            elim (Option-cases second.1) [
              | inr (s, f) ↦ ground arith
              | inl f ↦ inr (
                  enforce_key-pass hash_key r.api_key (record g { admin_auth_guard = second.0 })
                    (ground arith))
            ]
      ]
    ]

-- A request passes only if its path is exempt, or no key is active, or it has the owner's key from
-- an address that is not locked out, or it has an active API key with quota left.
pub enforce_api_key-pass :
    (hash_key : Bytes → Bytes) (config_key : Bytes) (r : KeyRequest) (g : Gate)
    → (enforce_api_key hash_key config_key r g).1 ≡ pass
    → (is_exempt r.path ≡ true)
      ⊎ (active_count g.keys ≡ 0)
      ⊎ (is_empty config_key ≡ false) × IsOwner config_key r g
      ⊎ HasKey hash_key r g
unfolding enforce_api_key
enforce_api_key-pass hash_key config_key r g h =
    ground
      (arith, enforce_key-pass hash_key r.api_key g, enforce_owner-pass hash_key config_key r g)
