-- ===== src/ApiKeys/Quota.antt =====
-- What a quota of src/api_keys.rs limits.
use hifi_api_rust.Base.{
  ℕ, ◌+◌, ◌-◌, ◌≤◌, ◌<◌, ◌≡◌, Bool, true, false, not, ◌&&◌, List, [], ◌∷◌, Option, none, some, ◌==◌,
  if◌then◌else◌, length, keep, arith, Bool-cases, inl, inr,
}
use hifi_api_rust.Base.Bytes.{same, same_eq}
use hifi_api_rust.ApiKeys.Keys.{
  Bytes, ApiKeyState, Checked, accepted, invalid, exhausted, consume, check_and_consume, set_active,
  remove,
}
use hifi_api_rust.ApiKeys.Sync.{raise_used, usage_count, sync_usage}

-- What happens to the keys while their definitions stay.
pub data KeyEvent : Type 0 where
  checks : (hash : Bytes) → KeyEvent
  syncs : (values : List (Bytes × Option Bytes)) → KeyEvent
  switches : (now : ℕ) (id : Bytes) (active : Bool) → KeyEvent
  removes : (id : Bytes) → KeyEvent

abbrev pub or_same : Option (List ApiKeyState) → List ApiKeyState → List ApiKeyState
or_same none keys = keys
or_same (some changed) keys = changed

unfoldable pub step : List ApiKeyState → KeyEvent → List ApiKeyState
step keys (checks hash) = (check_and_consume hash keys).0
step keys (syncs values) = sync_usage values keys
step keys (switches now id active) = or_same (set_active now id active keys) keys
step keys (removes id) = or_same (remove id keys) keys

abbrev pub is_accepted : Checked → Bool
is_accepted (accepted label) = true
is_accepted invalid = false
is_accepted exhausted = false

-- Whether an event lets a request of this hash through.
abbrev pub lets_through : Bytes → List ApiKeyState → KeyEvent → Bool
lets_through hash keys (checks h) = same h hash && is_accepted (check_and_consume h keys).1
lets_through hash keys (syncs values) = false
lets_through hash keys (switches now id active) = false
lets_through hash keys (removes id) = false

-- How many requests of this hash a history lets through.
unfoldable pub passed : Bytes → List KeyEvent → List ApiKeyState → ℕ
passed hash [] keys = 0
passed hash (e ∷ es) keys =
    (if lets_through hash keys e then 1 else 0) + passed hash es (step keys e)

-- What is left of the quotas of the keys with this hash.
abbrev pub allowance : Bytes → List ApiKeyState → ℕ
allowance hash [] = 0
allowance hash (k ∷ ks) = (if same k.key_hash hash then k.quota - k.used else 0) + allowance hash ks

-- Every key with this hash has a quota.
abbrev pub IsLimited : Bytes → List ApiKeyState → Type 0
IsLimited hash [] = Unit
IsLimited hash (k ∷ ks) = (same k.key_hash hash ≡ true → 0 < k.quota) × IsLimited hash ks

-- One step: an accepted request takes one from the allowance, and nothing adds to it.
abbrev Bounded : Bytes → ℕ → List ApiKeyState → List ApiKeyState → Type 0
Bounded hash n before after =
    (n + allowance hash after ≤ allowance hash before) × IsLimited hash after

check-Bounded :
    (hash h : Bytes) (keys : List ApiKeyState)
    → IsLimited hash keys
    → Bounded hash
        (if same h hash && is_accepted (check_and_consume h keys).1 then 1 else 0)
        keys
        (check_and_consume h keys).0
unfolding check_and_consume consume
check-Bounded hash h [] l = ground arith
check-Bounded hash h (k ∷ ks) l =
    ground (arith, check-Bounded hash h ks l.1, l.0, same_eq k.key_hash h)

raise-Bounded :
    (hash id : Bytes) (n : ℕ) (keys : List ApiKeyState)
    → IsLimited hash keys
    → Bounded hash 0 keys (raise_used id n keys)
unfolding raise_used
raise-Bounded hash id n [] l = (omega arith, tt)
raise-Bounded hash id n (k ∷ ks) l = ground (arith, raise-Bounded hash id n ks l.1, l.0)

sync-Bounded :
    (hash : Bytes) (values : List (Bytes × Option Bytes)) (keys : List ApiKeyState)
    → IsLimited hash keys
    → Bounded hash 0 keys (sync_usage values keys)
unfolding sync_usage
sync-Bounded hash [] keys l = (omega arith, l)
sync-Bounded hash ((id, none) ∷ r) keys l = sync-Bounded hash r keys l
sync-Bounded hash ((id, some v) ∷ r) keys l =
    let raised = raise-Bounded hash id (usage_count v) keys l in
    let rest = sync-Bounded hash r (raise_used id (usage_count v) keys) raised.1 in
    (omega (arith, raised.0, rest.0), rest.1)

switch-Bounded :
    (hash : Bytes) (now : ℕ) (id : Bytes) (active : Bool) (keys : List ApiKeyState)
    → IsLimited hash keys
    → Bounded hash 0 keys (or_same (set_active now id active keys) keys)
unfolding set_active
switch-Bounded hash now id active [] l = (omega arith, tt)
switch-Bounded hash now id active (k ∷ ks) l =
    ground (arith, switch-Bounded hash now id active ks l.1, l.0)

keep-Bounded :
    (hash : Bytes) (p : ApiKeyState → Bool) (keys : List ApiKeyState)
    → IsLimited hash keys
    → Bounded hash 0 keys (keep p keys)
keep-Bounded hash p [] l = (omega arith, tt)
keep-Bounded hash p (k ∷ ks) l = ground (arith, keep-Bounded hash p ks l.1, l.0)

remove-Bounded :
    (hash id : Bytes) (keys : List ApiKeyState)
    → IsLimited hash keys
    → Bounded hash 0 keys (or_same (remove id keys) keys)
unfolding remove
remove-Bounded hash id keys l =
    elim (Bool-cases (length (keep (λ k. not (same k.id id)) keys) == length keys)) [
      | inl missing ↦ rw (missing, remove) (omega arith, l)
      | inr found ↦ rw (found, remove) (keep-Bounded hash (λ k. not (same k.id id)) keys l)
    ]

step-Bounded :
    (hash : Bytes) (keys : List ApiKeyState) (e : KeyEvent)
    → IsLimited hash keys
    → Bounded hash (if lets_through hash keys e then 1 else 0) keys (step keys e)
unfolding step
step-Bounded hash keys (checks h) l = check-Bounded hash h keys l
step-Bounded hash keys (syncs values) l = sync-Bounded hash values keys l
step-Bounded hash keys (switches now id active) l = switch-Bounded hash now id active keys l
step-Bounded hash keys (removes id) l = remove-Bounded hash id keys l

-- A key with a quota never lets more requests through than its quota leaves, in any order of
-- requests of all keys, syncs of usage, switches and removals.
pub passed-le-allowance :
    (hash : Bytes) (es : List KeyEvent) (keys : List ApiKeyState)
    → IsLimited hash keys
    → passed hash es keys ≤ allowance hash keys
unfolding passed
passed-le-allowance hash [] keys l = omega arith
passed-le-allowance hash (e ∷ es) keys l =
    let b = step-Bounded hash keys e l in
    omega (arith, b.0, passed-le-allowance hash es (step keys e) b.1)
