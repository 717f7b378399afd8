-- ===== src/Uptime/History.antt =====
-- The history of src/account_uptime.rs in memory: `Event`, `AccountUptime` and its changes. Its rows
-- in the database are left out, and instants are seconds since 1970.
use hifi_api_rust.Base.{
  ℕ, suc, ◌+◌, ◌-◌, ◌*◌, Bool, true, false, not, ◌&&◌, ◌||◌, List, [], ◌∷◌, ◌++◌, Option, none,
  some, ltb, leb, ◌==◌, if◌then◌else◌, max, drop,
}

abbrev pub window_secs : ℕ
window_secs = 7 * 24 * 60 * 60

pub record Event : Type 0 where
  pub at : ℕ
  pub active : Bool
  pub token_ready : Bool
  pub token_expires_at : Option ℕ

pub data UptimeStatus : Type 0 where
  up down waiting : UptimeStatus

-- `token_expires_at.is_some_and(|expires| expires <= now)`
abbrev pub has_expired : ℕ → Option ℕ → Bool
has_expired now none = false
has_expired now (some expires) = leb expires now

-- `Event::status`
unfoldable pub status : ℕ → Event → UptimeStatus
status now e =
    if not e.active
    then down
    else (if not e.token_ready || has_expired now e.token_expires_at then waiting else up)

-- `slice::partition_point` on events whose leading part meets the test.
unfoldable pub partition_point : (Event → Bool) → List Event → ℕ
partition_point p [] = 0
partition_point p (e ∷ es) = let rest = partition_point p es in if p e then suc rest else 0

-- Whether an event lies before the window: `e.at < now - WINDOW_SECS`.
abbrev pub is_old : ℕ → Event → Bool
is_old now e = ltb (e.at + window_secs) now

-- `AccountUptime::prune`
unfoldable pub prune : ℕ → List Event → List Event
unfolding partition_point
prune now events =
    let old = partition_point (is_old now) events in
    if ltb 1 old then drop (old - 1) events else events

abbrev pub last : List Event → Option Event
last [] = none
last (e ∷ es) = elim (last es) [ none ↦ some e | some l ↦ some l ]

abbrev pub same_bool : Bool → Bool → Bool
same_bool true b = b
same_bool false b = not b

abbrev pub same_time : Option ℕ → Option ℕ → Bool
same_time none none = true
same_time (some a) (some b) = a == b
same_time _ _ = false

-- The comparison of an observation with the last event.
abbrev pub repeats : Bool → Bool → Option ℕ → Option Event → Bool
repeats active ready expires none = false
repeats active ready expires (some e) =
    same_bool e.active active
    && same_bool e.token_ready ready
    && same_time e.token_expires_at expires

abbrev pub not_before : ℕ → Option Event → ℕ
not_before now none = now
not_before now (some e) = max now e.at

-- `AccountUptime::observe` after its first line, with the two values that it normalises.
unfoldable pub observe_change : Bool → Bool → Option ℕ → ℕ → List Event → List Event
observe_change active ready expires now events =
    if repeats active ready expires (last events)
    then events
    else events
      ++ record {
        at = not_before now (last events);
        active = active;
        token_ready = ready;
        token_expires_at = expires;
      }
        ∷ []

-- `AccountUptime::observe`
unfoldable pub observe : Bool → Bool → Option ℕ → ℕ → List Event → List Event
unfolding observe_change prune
observe active token_ready token_expires_at now events =
    let ready = active && token_ready in
    observe_change active ready (if ready then token_expires_at else none) now (prune now events)

-- `AccountUptime::reset`
unfoldable pub reset : List Event → List Event
reset events = []
