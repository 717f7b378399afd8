-- ===== src/Tidal/Asks.antt =====
-- How many requests of src/tidal_client.rs were sent, and which answers they got.
use Prim.Native.String.{String}
use hifi_api_rust.Base.{
  ℕ, ◌+◌, ◌≤◌, Bool, false, ◌&&◌, List, [], ◌∷◌, none, some, arith, ◌==◌, if◌then◌else◌,
}
use hifi_api_rust.Tidal.Services.{
  Json, Response, Call, leased, released, sent, paused, full_confirmed, preview_noted, static_sent,
  is_text,
}
use hifi_api_rust.Tidal.Probe.{
  json_body, premium, preview_only, unknown, error, Probed, verdict, preview,
}
use hifi_api_rust.Tidal.Trace.{sends}

-- Whether an answer is a 200 whose body has the presentation `text`.
abbrev pub is_presented : {Value : Type 0} → Json Value → String → Response → Bool
is_presented json text r =
    (r.status == 200)
    && elim (json_body json r) [ none ↦ false | some v ↦ is_text text (json.asset_presentation v) ]

-- How many requests were answered with the presentation `text`.
abbrev pub presented : {Value : Type 0} → Json Value → String → List Call → ℕ
presented json text [] = 0
presented json text (sent id token (some r) ∷ cs) =
    presented json text cs + (if is_presented json text r then 1 else 0)
presented json text (sent id token none ∷ cs) = presented json text cs
presented json text (leased id ∷ cs) = presented json text cs
presented json text (released id ∷ cs) = presented json text cs
presented json text (paused id n ∷ cs) = presented json text cs
presented json text (full_confirmed id ∷ cs) = presented json text cs
presented json text (preview_noted id ∷ cs) = presented json text cs
presented json text (static_sent r ∷ cs) = presented json text cs

-- From `cs` to `ds` at most `n` requests were sent.
pub record Asks {Value : Type 0} (json : Json Value) (n : ℕ) (cs ds : List Call) : Type 0 where
  pub requests : sends ds ≤ sends cs + n
  pub full : presented json "FULL" cs ≤ presented json "FULL" ds
  pub previews : presented json "PREVIEW" cs ≤ presented json "PREVIEW" ds

module _ {Value : Type 0} (json : Json Value) where
  pub Asks-nothing : (n : ℕ) (cs : List Call) → Asks json n cs cs
  Asks-nothing n cs = record { requests = omega arith; full = omega arith; previews = omega arith }

  pub Asks-answered :
      (id token : String) (r : Response) (cs : List Call)
      → Asks json 1 cs (sent id token (some r) ∷ cs)
  Asks-answered id token r cs = record {
    requests = omega arith;
    full = omega arith;
    previews = omega arith;
  }

  pub Asks-unanswered :
      (id token : String) (cs : List Call) → Asks json 1 cs (sent id token none ∷ cs)
  Asks-unanswered id token cs = record {
    requests = omega arith;
    full = omega arith;
    previews = omega arith;
  }

  pub Asks-paused : (id : String) (n : ℕ) (cs : List Call) → Asks json 0 cs (paused id n ∷ cs)
  Asks-paused id n cs = record {
    requests = omega arith;
    full = omega arith;
    previews = omega arith;
  }

  pub Asks-then :
      (n m k : ℕ) (cs ds es : List Call)
      → Asks json n cs ds
      → Asks json m ds es
      → n + m ≤ k
      → Asks json k cs es
  Asks-then n m k cs ds es a b le = record {
    requests = omega (arith, a.requests, b.requests);
    full = omega (arith, a.full, b.full);
    previews = omega (arith, a.previews, b.previews);
  }

  -- What the end of a track shows.
  abbrev pub Fits : List Call → List Call → Probed → Type 0
  Fits cs ds (verdict premium) = presented json "FULL" cs + 1 ≤ presented json "FULL" ds
  Fits cs ds (verdict preview_only) = ⊥
  Fits cs ds (verdict (unknown reason)) = Unit
  Fits cs ds (verdict (error reason)) = Unit
  Fits cs ds (preview token) = presented json "PREVIEW" cs + 1 ≤ presented json "PREVIEW" ds
