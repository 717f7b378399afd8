-- ===== src/Playback/Slots.antt =====
-- The concurrency permits of src/playback.rs: `capacity`, `try_acquire`, `release`, `over_capacity`.
use hifi_api_rust.Base.{
  ℕ, ◌+◌, ◌-◌, ◌*◌, ◌^◌, ◌≤◌, ◌≡◌, refl, ◌⊎◌, inl, inr, Bool, List, [], ◌∷◌, Option, none, some,
  arith, min, max, ltb, leb, if◌then◌else◌, any, Bool-cases,
}

-- `usize::MAX` of a 64-bit target.
abbrev pub usize_max : ℕ
usize_max = 2 ^ 64 - 1

abbrev pub saturating_mul : ℕ → ℕ → ℕ
saturating_mul a b = min (a * b) usize_max

-- `PlaybackQueue::capacity`: 0 requests to an account lifts the limit.
unfoldable pub capacity : ℕ → ℕ → Option ℕ
capacity pool per_account =
    if ltb 0 per_account then some (saturating_mul pool per_account) else none

abbrev pub max_queue_factor : ℕ
max_queue_factor = 1

-- `PlaybackQueue::over_capacity`
unfoldable pub over_capacity : ℕ → ℕ → Bool
over_capacity pending pool = leb (saturating_mul (max pool 1) max_queue_factor) pending

-- What the compare-and-exchange loop of `try_acquire` does: it has read `current`, and each failed
-- exchange hands it the next value of the counter. `some n` stores `n`; `none` gives up.
unfoldable pub try_acquire : ℕ → ℕ → List ℕ → Option ℕ
try_acquire pool current [] = if leb (max pool 1) current then none else some (current + 1)
try_acquire pool current (actual ∷ later) =
    let retry = try_acquire pool actual later in if leb (max pool 1) current then none else retry

-- `PlaybackQueue::release`: the subtraction saturates, as `-` on ℕ does.
unfoldable pub release : ℕ → ℕ
release inflight = inflight - 1

unfoldable pub last : ℕ → List ℕ → ℕ
last v [] = v
last v (w ∷ ws) = last w ws

-- Whatever the counter does between the exchanges, a permit is refused exactly when one of the
-- values read was at the limit (at least 1), and a granted one raises the value read last by one.
pub try_acquire-any :
    (pool current : ℕ) (observed : List ℕ)
    → try_acquire pool current observed ≡ (
        if any (leb (max pool 1)) (current ∷ observed)
        then none
        else some (last current observed + 1))
unfolding try_acquire last
try_acquire-any pool current [] = ground arith
try_acquire-any pool current (actual ∷ later) = ground (arith, try_acquire-any pool actual later)

-- The limit on requests that run at once is never above what `usize` holds, and is the product of
-- the ready accounts and the requests to each whenever that fits; 0 to an account means no limit.
pub capacity_lem :
    (pool per_account : ℕ)
    → ((per_account ≡ 0) × (capacity pool per_account ≡ none))
      ⊎ ((n : ℕ) × (capacity pool per_account ≡ some n)
          × (n ≤ usize_max)
          × (pool * per_account ≤ usize_max → n ≡ pool * per_account))
unfolding capacity
capacity_lem pool per_account = elim (Bool-cases (ltb 0 per_account)) [
  | inl e ↦
      inr (min (pool * per_account) usize_max, rw (e, capacity) refl, omega arith, λ h. omega arith)
  | inr e ↦ inl (ground arith, rw (e, capacity) refl)
]
