-- ===== src/Playback/Ops.antt =====
-- The operations of src/playback.rs and the timings that the queue remembers of them.
use hifi_api_rust.Base.{
  ℕ, ◌≤◌, Bool, true, false, not, ◌&&◌, List, [], ◌∷◌, ◌++◌, Option, String, arith, leb,
  if◌then◌else◌, length, length-append, drop,
}

-- `TrackManifestsParams` of src/routes/track.rs.
pub record TrackManifestsParams : Type 0 where
  pub adaptive : String
  pub manifest_type : String
  pub uri_scheme : String
  pub usage : String
  pub country_code : Option String
  pub atmos : Option String

pub data PlaybackOp : Type 0 where
  track : (id : ℕ) (quality : String) (immersive : Bool) → PlaybackOp
  manifest :
      (track_id : String) (params : TrackManifestsParams) (raw_query : Option String)
      (host : String)
      → PlaybackOp
  dash : (track_id : String) (atmos : Option String) → PlaybackOp
  video : (id : ℕ) (quality mode presentation : String) → PlaybackOp
  widevine : (method : String) (content_type : Option String) (body : List ℕ) → PlaybackOp

-- `matches!(op, Track | Manifest | Dash)`
abbrev pub is_track : PlaybackOp → Bool
is_track (track id quality immersive) = true
is_track (manifest track_id params raw_query host) = true
is_track (dash track_id atmos) = true
is_track _ = false

-- `TrackTiming`, in milliseconds.
pub record TrackTiming : Type 0 where
  pub wait_ms : ℕ
  pub total_ms : ℕ

abbrev pub timing_samples : ℕ
timing_samples = 1000

-- `PlaybackQueue::record_timing`: the oldest sample gives way.
unfoldable pub record_timing : PlaybackOp → Bool → TrackTiming → List TrackTiming → List TrackTiming
record_timing op ok t timings =
    if not (ok && is_track op)
    then timings
    else (if leb timing_samples (length timings) then drop 1 timings else timings) ++ t ∷ []

-- The samples stay at most 1000.
pub record_timing-length :
    (op : PlaybackOp) (ok : Bool) (t : TrackTiming) (timings : List TrackTiming)
    → length timings ≤ timing_samples
    → length (record_timing op ok t timings) ≤ timing_samples
unfolding record_timing
record_timing-length op ok t [] h = ground (arith)
record_timing-length op ok t (s ∷ ts) h =
    ground (arith, length-append ts (t ∷ []), length-append (s ∷ ts) (t ∷ []))
