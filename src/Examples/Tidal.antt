-- ===== src/Examples/Tidal.antt =====
-- src/tidal_client.rs at concrete inputs.
use Prim.Native.String.{String}
use text.Mathlib.Text.{◌==◌ as str_eq}
use text.Mathlib.TextEquality.{eq_iff}
use hifi_api_rust.Base.{
  ℕ, ◌+◌, ◌*◌, ◌≤◌, ◌≡◌, refl, subst, ◌⊎◌, inl, inr, Bool, true, false, List, [], ◌∷◌, none, some,
  arith, Has, any, max, if◌then◌else◌,
}
use hifi_api_rust.AppError.{AppError, service_unavailable}
use hifi_api_rust.Accounts.Lease.{playback}
use hifi_api_rust.Tidal.Services.{
  Services, Json, Response, unavailable, deliver, deliver_timed, pause, alert_if_all_down,
}
use hifi_api_rust.Tidal.Fallback.{exhausted, schedule, leave_account, with_session, at_world}
use hifi_api_rust.Tidal.Request.{
  give_way, mark_failed, rejected, throttled, forbidden, note_previews, note_full, accept_body,
  react, attempts,
}
use hifi_api_rust.Tidal.Tries.{
  give_back, lease_pool_account, lease_alternative, pick, on_account, tries, max_account_attempts,
  make_request,
}
use hifi_api_rust.Tidal.Probe.{
  Verdict, preview_only, json_body, judge, probe_track, probe_tracks, probe_account_premium,
}
use hifi_api_rust.Tidal.Verdict.{Rests, probe_account_premium-Ends}
use hifi_api_rust.Tidal.Account.{account_subscription}
use hifi_api_rust.Tidal.Subscription.{account_subscription-Ends}
use hifi_api_rust.Tidal.Catalog.{Settings, catalog_get}
use hifi_api_rust.Tidal.Segments.{Brought}
use hifi_api_rust.Tidal.Overflow.{catalog_get-Ends}
use hifi_api_rust.Tidal.Trace.{sends, pauses, leases, holder, IsUnderLease}
use hifi_api_rust.Tidal.Attempts.{Shown}
use hifi_api_rust.Tidal.Leases.{IsDistinct, IsExcluding}
use hifi_api_rust.Tidal.Runs.{make_request-Done, make_request-Shown}

program : Unit {0}
unfolding deliver pause alert_if_all_down exhausted schedule leave_account with_session at_world
    give_way mark_failed rejected throttled forbidden note_previews note_full accept_body react
    attempts give_back lease_pool_account lease_alternative pick on_account tries make_request
program = tt

abbrev answer : ℕ → String → Response
answer status text = record { status = status; retry_after = none; text = inr text }

-- The account that is leased when `a`, or `b`, is excluded.
abbrev chosen : Bool → Bool → AppError ⊎ String
chosen false b = inr "a"
chosen true false = inr "b"
chosen true true = inl (service_unavailable "All accounts")

-- Two accounts: the first is rate limited, the second serves the track.
abbrev tidal : Services (Unit {0})
tidal = record {
  playback_count = λ w. 2;
  lease_account_for = λ ids kind w. (w, chosen (any (str_eq "a") ids) (any (str_eq "b") ids));
  lease = λ id w. w;
  give_back = λ id w. w;
  claim_catalog_slot = λ limit w. (w, unavailable);
  release_slot = λ id w. w;
  catalog_rate_limit_remaining = λ w. none;
  rate_limit_remaining = λ id w. none;
  pause_account = λ id header w. (w, 30);
  retry_after_secs = λ header w. 30;
  mark_account_error = λ id reason w. w;
  confirm_full = λ id w. w;
  note_traffic_preview = λ id w. w;
  working_client_for = λ id w. (w, none);
  note_success_for = λ id w. w;
  note_failure_for = λ id w. w;
  get_token = λ id w. (w, inr "token");
  refresh_after_unauthorized = λ id token w. (w, inr "fresh");
  reject_refreshed_token = λ id token w. w;
  alert_403 = λ id w. w;
  alert_all_down = λ w. w;
  user_id = λ id w. none;
  country = λ id w. none;
  set_country = λ id code w. w;
  persist_refresh_state = λ id w. w;
  now = λ w. 0;
  working_client = λ w. (w, none);
  note_success = λ w. w;
  note_failure = λ w. w;
  static_send = λ w. (w, inr (answer 429 ""));
  send = λ id token w. (w, inr (if str_eq id "a" then answer 429 "" else answer 200 "FULL"));
  timed_send = λ id token w. (w, inr (answer 200 "PREVIEW"));
}

-- A body is its presentation.
abbrev bodies : Json String
bodies = record {
  from_str = some;
  asset_presentation = some;
  track_presentation = λ v. none;
  parse_failure = λ text. text;
  session_user = some;
  session_country = λ v. none;
}

any-Has : (x : String) (xs : List String) → any (str_eq x) xs ≡ false → Has x xs → ⊥
any-Has x [] h k = k
any-Has x (y ∷ ys) h (inl e) = ground (arith, (eq_iff x y).1 e)
any-Has x (y ∷ ys) h (inr k) = any-Has x ys (ground arith) k

chosen-free :
    (a b : Bool) (ids : List String) (id : String)
    → any (str_eq "a") ids ≡ a
    → any (str_eq "b") ids ≡ b
    → chosen a b ≡ inr id
    → Has id ids
    → ⊥
chosen-free false b ids id e f h k = any-Has "a" ids e (subst (λ x. Has x ids) (cc h) k)
chosen-free true false ids id e f h k = any-Has "b" ids f (subst (λ x. Has x ids) (cc h) k)
chosen-free true true ids id e f h k = cc h

tidal-IsExcluding : IsExcluding tidal
tidal-IsExcluding ids kind w id h k =
    chosen-free (any (str_eq "a") ids) (any (str_eq "b") ids) ids id refl refl h k

fails_over :
    (make_request tidal bodies none none 2 playback (record { world = tt; calls = [] })).1
    ≡ inr "FULL"
unfolding program
fails_over = refl

make_request-Shown_example :
    (id : String) × Shown bodies id "FULL"
      (make_request tidal bodies none none 2 playback (record { world = tt; calls = [] })).0.calls
unfolding program
make_request-Shown_example = make_request-Shown tidal bodies none none 2 playback tt "FULL" refl

make_request-Done_example :
    let cs =
      (make_request tidal bodies none none 2 playback
        (record { world = tt; calls = [] })).0.calls in
    (sends cs ≤ max_account_attempts tidal bodies none tt * max 2 1)
    × (pauses cs ≤ 3)
    × (holder cs ≡ none)
    × IsUnderLease cs
    × IsDistinct (leases cs)
make_request-Done_example = make_request-Done tidal bodies none none 2 playback tt tidal-IsExcluding

probes :
    (probe_account_premium tidal bodies "a" (record { world = tt; calls = [] })).1
    ≡ some preview_only
unfolding deliver_timed pause json_body judge probe_track probe_tracks probe_account_premium
probes = refl

probe_account_premium-Ends_example :
    let r = probe_account_premium tidal bodies "a" (record { world = tt; calls = [] }) in
    (v : Verdict) × (r.1 ≡ some v) × (sends r.0.calls ≤ 8) × Rests tidal bodies r.0.calls v
probe_account_premium-Ends_example = probe_account_premium-Ends tidal bodies "a" tt

account_subscription-Ends_example :
    let r = account_subscription tidal bodies "a" (record { world = tt; calls = [] }) in
    (out : AppError ⊎ (String × String)) × (r.1 ≡ some out) × (sends r.0.calls ≤ 0 + 4)
account_subscription-Ends_example =
    account_subscription-Ends tidal bodies "a" (record { world = tt; calls = [] })

abbrev settings : Settings
settings = record { has_catalog_token = true; catalog_concurrency = 2; requests_per_account = 2 }

-- The static token is rate limited, and the one account of the pool that may be tried then is too.
catalog_get-Ends_example :
    let r = catalog_get tidal bodies settings 0 (record { world = tt; calls = [] }) in
    (out : AppError ⊎ String) × (r.1.1 ≡ some out)
    × (sends r.0.calls ≤ 1 + 2 * max 2 1 + max 1 2 * max 2 1)
    × (holder r.0.calls ≡ none)
    × IsUnderLease r.0.calls
    × ((value : String) → out ≡ inr value → Brought tidal bodies value r.0.calls)
catalog_get-Ends_example = catalog_get-Ends tidal bodies settings 0 2 tt (λ w. omega arith)
