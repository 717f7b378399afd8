-- ===== src/Tidal/Segments.antt =====
-- The calls of one part of a catalog request of src/tidal_client.rs after those of the parts before.
use Prim.Native.String.{String}
use hifi_api_rust.Base.{
  ℕ, ◌+◌, ◌≤◌, ◌≡◌, refl, ◌∙◌, ◌⊎◌, inr, List, [], ◌∷◌, ◌++◌, Option, none, some, true, arith, Has,
  append-Has,
}
use hifi_api_rust.AppError.{AppError}
use hifi_api_rust.Tokens.Cycle.{is_success}
use hifi_api_rust.Tidal.Services.{
  Services, Json, Call, Response, leased, released, sent, paused, full_confirmed, preview_noted,
  static_sent,
}
use hifi_api_rust.Tidal.CatalogAccount.{read_body}
use hifi_api_rust.Tidal.Trace.{sends, holder, IsUnderLease, Work}

abbrev pub answer_of : Call → Option Response
answer_of (sent id token r) = r
answer_of (static_sent r) = r
answer_of (leased id) = none
answer_of (released id) = none
answer_of (paused id n) = none
answer_of (full_confirmed id) = none
answer_of (preview_noted id) = none

-- The calls `ds` follow `cs` with at most `n` more requests, and hold no lease if `cs` did not.
pub record Segment (n : ℕ) (cs ds : List Call) : Type 0 where
  pub free : (holder cs ≡ none) × IsUnderLease cs → (holder ds ≡ none) × IsUnderLease ds
  pub requests : sends ds ≤ sends cs + n
  pub kept : (c : Call) → Has c cs → Has c ds

pub Segment-nothing : (n : ℕ) (cs : List Call) → Segment n cs cs
Segment-nothing n cs = record { free = λ h. h; requests = omega arith; kept = λ c h. h }

pub Segment-then :
    (n m k : ℕ) (cs ds es : List Call)
    → Segment n cs ds
    → Segment m ds es
    → n + m ≤ k
    → Segment k cs es
Segment-then n m k cs ds es a b le = record {
  free = λ h. b.free (a.free h);
  requests = omega (arith, a.requests, b.requests);
  kept = λ c h. b.kept c (a.kept c h);
}

pub Segment-static : (r : Option Response) (cs : List Call) → Segment 1 cs (static_sent r ∷ cs)
Segment-static r cs = record { free = λ h. h; requests = omega arith; kept = λ c h. inr h }

-- Work under a lease that is taken before and given back after it.
pub Segment-leased :
    (id : String) (n p : ℕ) (cs ds : List Call)
    → Work id n p (leased id ∷ cs) ds
    → Segment n cs (released id ∷ ds)
Segment-leased id n p cs ds w = record {
  free = λ h. (refl, w.held (refl, h));
  requests = w.requests;
  kept = λ c h. inr (w.kept c (inr h));
}

append-holder : (xs cs : List Call) → holder cs ≡ none → holder (xs ++ cs) ≡ holder xs
append-holder [] cs h = h
append-holder (leased id ∷ xs) cs h = refl
append-holder (released id ∷ xs) cs h = refl
append-holder (sent id token r ∷ xs) cs h = append-holder xs cs h
append-holder (paused id n ∷ xs) cs h = append-holder xs cs h
append-holder (full_confirmed id ∷ xs) cs h = append-holder xs cs h
append-holder (preview_noted id ∷ xs) cs h = append-holder xs cs h
append-holder (static_sent r ∷ xs) cs h = append-holder xs cs h

append-IsUnderLease :
    (xs cs : List Call)
    → holder cs ≡ none
    → IsUnderLease xs
    → IsUnderLease cs
    → IsUnderLease (xs ++ cs)
append-IsUnderLease [] cs h u v = v
append-IsUnderLease (leased id ∷ xs) cs h (e, u) v =
    (append-holder xs cs h ∙ e, append-IsUnderLease xs cs h u v)
append-IsUnderLease (released id ∷ xs) cs h (e, u) v =
    (append-holder xs cs h ∙ e, append-IsUnderLease xs cs h u v)
append-IsUnderLease (sent id token r ∷ xs) cs h (e, u) v =
    (append-holder xs cs h ∙ e, append-IsUnderLease xs cs h u v)
append-IsUnderLease (paused id n ∷ xs) cs h (e, u) v =
    (append-holder xs cs h ∙ e, append-IsUnderLease xs cs h u v)
append-IsUnderLease (full_confirmed id ∷ xs) cs h (e, u) v =
    (append-holder xs cs h ∙ e, append-IsUnderLease xs cs h u v)
append-IsUnderLease (preview_noted id ∷ xs) cs h u v = append-IsUnderLease xs cs h u v
append-IsUnderLease (static_sent r ∷ xs) cs h u v = append-IsUnderLease xs cs h u v

append-sends : (xs cs : List Call) → sends (xs ++ cs) ≡ sends xs + sends cs
append-sends [] cs = omega arith
append-sends (leased id ∷ xs) cs = append-sends xs cs
append-sends (released id ∷ xs) cs = append-sends xs cs
append-sends (sent id token r ∷ xs) cs = omega (arith, append-sends xs cs)
append-sends (paused id n ∷ xs) cs = append-sends xs cs
append-sends (full_confirmed id ∷ xs) cs = append-sends xs cs
append-sends (preview_noted id ∷ xs) cs = append-sends xs cs
append-sends (static_sent r ∷ xs) cs = omega (arith, append-sends xs cs)

-- A whole request of the pool.
pub Segment-append :
    (n : ℕ) (xs cs : List Call)
    → holder xs ≡ none
    → IsUnderLease xs
    → sends xs ≤ n
    → Segment n cs (xs ++ cs)
Segment-append n xs cs free under le = record {
  free = λ h. (append-holder xs cs h.0 ∙ free, append-IsUnderLease xs cs h.0 under h.1);
  requests = omega (arith, append-sends xs cs, le);
  kept = λ c h. append-Has c xs cs (inr h);
}

module _ {W Value : Type 0} (api : Services W) (json : Json Value) where
  -- A value is the body of a successful answer that was received.
  abbrev pub Brought : Value → List Call → Type 0
  Brought value cs =
      (c : Call) × (r : Response) × Has c cs
      × (answer_of c ≡ some r)
      × (is_success r.status ≡ true)
      × (read_body api json r ≡ inr value)

  -- The end of a part: its calls, and where its value comes from.
  abbrev pub Gives : ℕ → List Call → List Call → AppError ⊎ Value → Type 0
  Gives n cs ds out = Segment n cs ds × ((value : Value) → out ≡ inr value → Brought value ds)
