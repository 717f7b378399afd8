-- ===== src/Tidal/Trace.antt =====
-- What a list of calls of src/tidal_client.rs says: requests, pauses, leases, and whether every request
-- was sent under the lease of its account.
use Prim.Native.String.{String}
use hifi_api_rust.Base.{
  ℕ, ◌+◌, ◌≤◌, ◌≡◌, refl, ◌∙◌, inr, List, [], ◌∷◌, Option, none, some, arith, Has,
}
use hifi_api_rust.Tidal.Services.{
  Call, Response, leased, released, sent, paused, full_confirmed, preview_noted, static_sent,
}

-- How many requests were sent.
abbrev pub sends : List Call → ℕ
sends [] = 0
sends (sent id token r ∷ cs) = sends cs + 1
sends (leased id ∷ cs) = sends cs
sends (released id ∷ cs) = sends cs
sends (paused id n ∷ cs) = sends cs
sends (full_confirmed id ∷ cs) = sends cs
sends (preview_noted id ∷ cs) = sends cs
sends (static_sent r ∷ cs) = sends cs + 1

-- How many 429s paused an account.
abbrev pub pauses : List Call → ℕ
pauses [] = 0
pauses (paused id n ∷ cs) = pauses cs + 1
pauses (sent id token r ∷ cs) = pauses cs
pauses (leased id ∷ cs) = pauses cs
pauses (released id ∷ cs) = pauses cs
pauses (full_confirmed id ∷ cs) = pauses cs
pauses (preview_noted id ∷ cs) = pauses cs
pauses (static_sent r ∷ cs) = pauses cs

-- The accounts that were leased.
abbrev pub leases : List Call → List String
leases [] = []
leases (leased id ∷ cs) = id ∷ leases cs
leases (released id ∷ cs) = leases cs
leases (sent id token r ∷ cs) = leases cs
leases (paused id n ∷ cs) = leases cs
leases (full_confirmed id ∷ cs) = leases cs
leases (preview_noted id ∷ cs) = leases cs
leases (static_sent r ∷ cs) = leases cs

-- The account whose lease is held.
abbrev pub holder : List Call → Option String
holder [] = none
holder (leased id ∷ cs) = some id
holder (released id ∷ cs) = none
holder (sent id token r ∷ cs) = holder cs
holder (paused id n ∷ cs) = holder cs
holder (full_confirmed id ∷ cs) = holder cs
holder (preview_noted id ∷ cs) = holder cs
holder (static_sent r ∷ cs) = holder cs

-- One lease is held at a time, and every request and pause is of the account whose lease is held.
abbrev pub IsUnderLease : List Call → Type 0
IsUnderLease [] = Unit
IsUnderLease (leased id ∷ cs) = (holder cs ≡ none) × IsUnderLease cs
IsUnderLease (released id ∷ cs) = (holder cs ≡ some id) × IsUnderLease cs
IsUnderLease (sent id token r ∷ cs) = (holder cs ≡ some id) × IsUnderLease cs
IsUnderLease (paused id n ∷ cs) = (holder cs ≡ some id) × IsUnderLease cs
IsUnderLease (full_confirmed id ∷ cs) = (holder cs ≡ some id) × IsUnderLease cs
IsUnderLease (preview_noted id ∷ cs) = IsUnderLease cs
IsUnderLease (static_sent r ∷ cs) = IsUnderLease cs

abbrev pub Held : String → List Call → Type 0
Held id cs = (holder cs ≡ some id) × IsUnderLease cs

-- The work done on one account from the calls `cs` to `ds`, with at most `n` requests and `p` pauses.
pub record Work (id : String) (n p : ℕ) (cs ds : List Call) : Type 0 where
  pub held : Held id cs → Held id ds
  pub requests : sends ds ≤ sends cs + n
  pub rests : pauses ds ≤ pauses cs + p
  pub same_leases : leases ds ≡ leases cs
  pub kept : (c : Call) → Has c cs → Has c ds

pub Work-nothing : (id : String) (cs : List Call) → Work id 0 0 cs cs
Work-nothing id cs = record {
  held = λ h. h;
  requests = omega arith;
  rests = omega arith;
  same_leases = refl;
  kept = λ c h. h;
}

pub Work-sent :
    (id token : String) (r : Option Response) (cs : List Call)
    → Work id 1 0 cs (sent id token r ∷ cs)
Work-sent id token r cs = record {
  held = λ h. (h.0, h);
  requests = omega arith;
  rests = omega arith;
  same_leases = refl;
  kept = λ c h. inr h;
}

pub Work-paused :
    (id : String) (seconds : ℕ) (cs : List Call) → Work id 0 1 cs (paused id seconds ∷ cs)
Work-paused id seconds cs = record {
  held = λ h. (h.0, h);
  requests = omega arith;
  rests = omega arith;
  same_leases = refl;
  kept = λ c h. inr h;
}

pub Work-confirmed : (id : String) (cs : List Call) → Work id 0 0 cs (full_confirmed id ∷ cs)
Work-confirmed id cs = record {
  held = λ h. (h.0, h);
  requests = omega arith;
  rests = omega arith;
  same_leases = refl;
  kept = λ c h. inr h;
}

pub Work-noted : (id other : String) (cs : List Call) → Work id 0 0 cs (preview_noted other ∷ cs)
Work-noted id other cs = record {
  held = λ h. h;
  requests = omega arith;
  rests = omega arith;
  same_leases = refl;
  kept = λ c h. inr h;
}

pub Work-more :
    (id : String) (n m p : ℕ) (cs ds : List Call) → n ≤ m → Work id n p cs ds → Work id m p cs ds
Work-more id n m p cs ds le a = record {
  held = a.held;
  requests = omega (arith, a.requests);
  rests = a.rests;
  same_leases = a.same_leases;
  kept = a.kept;
}

pub Work-then :
    (id : String) (n m p q : ℕ) (cs ds es : List Call)
    → Work id n p cs ds
    → Work id m q ds es
    → Work id (n + m) (p + q) cs es
Work-then id n m p q cs ds es a b = record {
  held = λ h. b.held (a.held h);
  requests = omega (arith, a.requests, b.requests);
  rests = omega (arith, a.rests, b.rests);
  same_leases = b.same_leases ∙ a.same_leases;
  kept = λ c h. b.kept c (a.kept c h);
}
