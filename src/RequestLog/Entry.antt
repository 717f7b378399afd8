-- ===== src/RequestLog/Entry.antt =====
-- A logged request of src/request_log.rs, and what it asked of Tidal.
use text.Mathlib.Text.{◌==◌ as str_eq}
use hifi_api_rust.Base.{
  ℕ, ◌+◌, Bool, true, false, not, ◌&&◌, ◌||◌, List, [], ◌∷◌, String, leb, ◌==◌, any, if◌then◌else◌,
}
use hifi_api_rust.Base.Bytes.{codes, same, starts_with}
use hifi_api_rust.AppError.{is_accounts_busy}
use hifi_api_rust.Playback.Job.{LoggedAccount}
use hifi_api_rust.ScannerGuard.Paths.{segments}

-- `LogEntry`; the path and the detail are code points.
pub record LogEntry : Type 0 where
  pub ts : ℕ
  pub method : String
  pub path : List ℕ
  pub detail : List ℕ
  pub status : ℕ
  pub latency_ms : ℕ
  pub client_ip : String
  pub cache : String
  pub accounts : List LoggedAccount
  pub rejected : Bool
  pub error : String

pub data Traffic : Type 0 where
  playback search catalog cached service : Traffic

abbrev pub one_of : List String → List ℕ → Bool
one_of names segment = any (λ name. same segment (codes name)) names

abbrev pub playback_routes : List String
playback_routes = "track" ∷ "trackManifests" ∷ "dash" ∷ "video" ∷ "widevine" ∷ []

abbrev pub catalog_routes : List String
catalog_routes =
    "info" ∷ "album" ∷ "artist" ∷ "mix" ∷ "playlist" ∷ "cover" ∷ "lyrics" ∷ "recommendations"
    ∷ "topvideos" ∷ []

-- The class of a route by the first segment of its path.
unfoldable pub class_of : List (List ℕ) → Traffic
class_of [] = service
class_of (segment ∷ rest) =
    if one_of playback_routes segment
    then playback
    else (if same segment (codes "search")
        then search
        else (if one_of catalog_routes segment then catalog else service))

abbrev pub from_cache : String → Bool
from_cache verdict = str_eq verdict "HIT" || str_eq verdict "STALE" || str_eq verdict "NEGATIVE"

abbrev pub is_service : Traffic → Bool
is_service service = true
is_service _ = false

abbrev pub is_playback : Traffic → Bool
is_playback playback = true
is_playback _ = false

abbrev pub is_search : Traffic → Bool
is_search search = true
is_search _ = false

abbrev pub is_catalog : Traffic → Bool
is_catalog catalog = true
is_catalog _ = false

abbrev pub is_cached : Traffic → Bool
is_cached cached = true
is_cached _ = false

-- `Traffic::of`
unfoldable pub traffic_of : LogEntry → Traffic
unfolding class_of segments
traffic_of e =
    if e.rejected
    then service
    else (let class = class_of (segments e.path) in
        if is_service class then service else (if from_cache e.cache then cached else class))

-- `SecondCounts`
pub record SecondCounts : Type 0 where
  pub playback : ℕ
  pub search : ℕ
  pub catalog : ℕ
  pub cached : ℕ
  pub throttled : ℕ

abbrev pub no_counts : SecondCounts
no_counts = record { playback = 0; search = 0; catalog = 0; cached = 0; throttled = 0 }

abbrev pub one_if : Bool → ℕ
one_if b = if b then 1 else 0

abbrev pub has_accounts : List LoggedAccount → Bool
has_accounts [] = false
has_accounts (a ∷ as_) = true

-- `SecondCounts::of`
unfoldable pub counts_of : LogEntry → SecondCounts
unfolding traffic_of is_accounts_busy
counts_of e =
    let traffic = traffic_of e in
    let queued = is_playback traffic && e.status == 202 in
    let sent = has_accounts e.accounts || queued in
    record {
      playback = one_if (sent && is_playback traffic);
      search = one_if (sent && is_search traffic);
      catalog = one_if (sent && is_catalog traffic);
      cached = one_if (is_cached traffic);
      throttled =
          one_if (not (is_service traffic) && e.status == 429 && not (is_accounts_busy e.error));
    }

-- `SecondCounts::add`
unfoldable pub add_counts : SecondCounts → SecondCounts → SecondCounts
add_counts a b = record {
  playback = a.playback + b.playback;
  search = a.search + b.search;
  catalog = a.catalog + b.catalog;
  cached = a.cached + b.cached;
  throttled = a.throttled + b.throttled;
}

-- `SecondCounts::upstream`
unfoldable pub upstream : SecondCounts → ℕ
upstream c = c.playback + c.search + c.catalog

-- `LogEntry::is_api_error`
unfoldable pub is_api_error : LogEntry → Bool
unfolding traffic_of
is_api_error e =
    leb 400 e.status
    && not e.rejected
    && (not (is_service (traffic_of e)) || starts_with (codes "/playback/") e.path)
