-- ===== src/Cache/Body.antt =====
-- Bodies of responses in src/cache.rs: `body_too_big`, `collect_parts` and `build_response`. A chunk
-- is the list of its bytes, and `none` in a stream is a failed read.
use hifi_api_rust.Base.{
  ℕ, ◌+◌, ◌*◌, ◌^◌, Bool, true, false, ◌||◌, List, [], ◌∷◌, ◌++◌, map, Option, none, some, ltb,
  if◌then◌else◌, length,
}
use hifi_api_rust.Base.Bytes.{codes, same, to_lower, parse_number}

abbrev pub max_body_bytes : ℕ
max_body_bytes = 2 * 1024 * 1024

abbrev pub Bytes : Type 0
Bytes = List ℕ

-- A header's value is `none` where it is no visible ASCII.
pub record Response : Type 0 where
  pub status : ℕ
  pub headers : List (Bytes × Option Bytes)
  pub stream : List (Option Bytes)

pub data Label : Type 0 where
  hit stale negative miss skip : Label

-- A response with the header `X-Cache`, if one is set.
pub record Reply : Type 0 where
  pub label : Option Label
  pub response : Response

abbrev pub is_framing : Bytes → Bool
is_framing name =
    same (map to_lower name) (codes "content-length")
    || same (map to_lower name) (codes "transfer-encoding")

-- The headers that `build_response` sets.
unfoldable pub rebuilt_headers : List (Bytes × Bytes) → List (Bytes × Option Bytes)
rebuilt_headers [] = []
rebuilt_headers ((name, value) ∷ rest) =
    let others = rebuilt_headers rest in
    if is_framing name then others else (name, some value) ∷ others

-- `build_response`; a status and headers that a response had are valid ones.
unfoldable pub build_response : ℕ → List (Bytes × Bytes) → Bytes → Label → Reply
build_response status headers body label = record {
  label = some label;
  response = record { status = status; headers = rebuilt_headers headers; stream = some body ∷ [] };
}

-- The headers that `collect_parts` copies.
unfoldable pub text_headers : List (Bytes × Option Bytes) → List (Bytes × Bytes)
text_headers [] = []
text_headers ((name, none) ∷ rest) = text_headers rest
text_headers ((name, some value) ∷ rest) = (name, value) ∷ text_headers rest

pub data Collected : Type 0 where
  -- The whole body.
  whole : Bytes → Collected
  -- The chunks that were read, and the rest of the stream.
  too_long : List Bytes → List (Option Bytes) → Collected
  read_failed : Collected

abbrev pub flat : List Bytes → Bytes
flat [] = []
flat (c ∷ cs) = c ++ flat cs

-- The loop of `collect_parts`.
unfoldable pub collect : ℕ → List Bytes → List (Option Bytes) → Collected
collect total chunks [] = whole (flat chunks)
collect total chunks (none ∷ rest) = read_failed
collect total chunks (some c ∷ rest) = elim (ltb max_body_bytes (total + length c)) [
  | true ↦ too_long (chunks ++ c ∷ []) rest
  | false ↦ collect (total + length c) (chunks ++ c ∷ []) rest
]

pub data Parts : Type 0 where
  parts : ℕ → List (Bytes × Bytes) → Bytes → Parts
  passthrough : Response → Parts

abbrev pub bad_gateway : Response
bad_gateway = record {
  status = 502;
  headers = [];
  stream = some (codes "Upstream body read failed") ∷ [];
}

-- `collect_parts`
unfoldable pub collect_parts : Response → Parts
collect_parts r = elim (collect 0 [] r.stream) [
  | whole body ↦ parts r.status (text_headers r.headers) body
  | too_long chunks rest ↦ passthrough (record r { stream = map some chunks ++ rest })
  | read_failed ↦ passthrough bad_gateway
]

-- The first header of a name; `HeaderMap` keeps names in lower case.
unfoldable pub header : Bytes → List (Bytes × Option Bytes) → Option (Option Bytes)
header name [] = none
header name ((n, value) ∷ rest) = if same n name then some value else header name rest

-- `body_too_big`
unfoldable pub body_too_big : Response → Bool
unfolding header parse_number
body_too_big r = elim (header (codes "content-length") r.headers) [
  | none ↦ false
  | some none ↦ false
  | some (some value) ↦ elim (parse_number (2 ^ 64) value) [
    | none ↦ false
    | some n ↦ ltb max_body_bytes n
  ]
]
