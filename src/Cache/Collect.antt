-- ===== src/Cache/Collect.antt =====
-- What `collect_parts` of src/cache.rs makes of a body.
use mathlib.Core.List.{append_assoc, append-nil}
use hifi_api_rust.Base.{
  ℕ, ◌+◌, ◌≤◌, ◌<◌, ◌≡◌, refl, sym, ap, ◌∙◌, ◌⊎◌, List, [], ◌∷◌, ◌++◌, map, Option, none, some, ltb,
  length, length-append, arith, Bool-cases, inl, inr, subst, ltb→lt,
}
use hifi_api_rust.Cache.Body.{
  Bytes, Response, Collected, whole, too_long, read_failed, collect, collect_parts, flat, parts,
  passthrough, bad_gateway, max_body_bytes, text_headers,
}

length-flat-snoc :
    (cs : List Bytes) (c : Bytes) → length (flat (cs ++ c ∷ [])) ≡ length (flat cs) + length c
length-flat-snoc [] c = omega (arith, length-append c [])
length-flat-snoc (d ∷ cs) c =
    omega (
      arith,
      length-flat-snoc cs c,
      length-append d (flat (cs ++ c ∷ [])),
      length-append d (flat cs),
    )

-- The ways in which the loop can end, when it has read `before` and `stream` is left.
abbrev Ends : List Bytes → List (Option Bytes) → Collected → Type 0
Ends before stream result =
    ((left : List Bytes) × (stream ≡ map some left)
      × (length (flat (before ++ left)) ≤ max_body_bytes)
      × (result ≡ whole (flat (before ++ left))))
    ⊎ ((left : List Bytes) × (rest : List (Option Bytes)) × (stream ≡ map some left ++ rest)
        × (max_body_bytes < length (flat (before ++ left)))
        × (result ≡ too_long (before ++ left) rest))
    ⊎ ((left : List Bytes) × (rest : List (Option Bytes)) × (stream ≡ map some left ++ none ∷ rest)
        × (length (flat (before ++ left)) ≤ max_body_bytes)
        × (result ≡ read_failed))

-- One more chunk that was read.
extend :
    (before : List Bytes) (c : Bytes) (stream : List (Option Bytes)) (result : Collected)
    → Ends (before ++ c ∷ []) stream result
    → Ends before (some c ∷ stream) result
extend before c stream result (inl (left, s, n, e)) =
    let a = append_assoc before (c ∷ []) left in
    inl (
      c ∷ left,
      ap (λ r. some c ∷ r) s,
      subst (λ cs. length (flat cs) ≤ max_body_bytes) a n,
      e ∙ ap (λ cs. whole (flat cs)) a,
    )
extend before c stream result (inr (inl (left, rest, s, n, e))) =
    let a = append_assoc before (c ∷ []) left in
    inr (
      inl (
        c ∷ left,
        rest,
        ap (λ r. some c ∷ r) s,
        subst (λ cs. max_body_bytes < length (flat cs)) a n,
        e ∙ ap (λ cs. too_long cs rest) a,
      ))
extend before c stream result (inr (inr (left, rest, s, n, e))) =
    let a = append_assoc before (c ∷ []) left in
    inr (
      inr (
        c ∷ left,
        rest,
        ap (λ r. some c ∷ r) s,
        subst (λ cs. length (flat cs) ≤ max_body_bytes) a n,
        e,
      ))

collect-Ends :
    (total : ℕ) (before : List Bytes) (stream : List (Option Bytes))
    → total ≡ length (flat before)
    → total ≤ max_body_bytes
    → Ends before stream (collect total before stream)
unfolding collect
collect-Ends total before [] e h =
    let a : before ++ [] ≡ before = append-nil before in
    inl ([], refl, rw a (omega arith), ap (λ cs. whole (flat cs)) (sym a))
collect-Ends total before (none ∷ rest) e h =
    let a : before ++ [] ≡ before = append-nil before in
    inr (inr ([], rest, refl, rw a (omega arith), refl))
collect-Ends total before (some c ∷ rest) e h =
    let longer : total + length c ≡ length (flat (before ++ c ∷ [])) =
      omega (arith, length-flat-snoc before c) in
    elim (Bool-cases (ltb max_body_bytes (total + length c))) [
      | inl over ↦
          rw (over, collect)
            (inr (
              inl (
                c ∷ [],
                rest,
                refl,
                omega (arith, ltb→lt max_body_bytes (total + length c) over),
                refl,
              )))
      | inr fits ↦
          rw (fits, collect)
            (extend before c rest (collect (total + length c) (before ++ c ∷ []) rest)
              (collect-Ends (total + length c) (before ++ c ∷ []) rest longer (ground arith)))
    ]

-- A response is buffered for the cache exactly when its body can be read and has at most 2 MiB; a
-- longer one is passed on as it was, with no chunk lost, and one whose read fails below the limit is
-- answered with 502.
pub collect_parts-cases :
    (r : Response)
    → ((chunks : List Bytes) × (r.stream ≡ map some chunks)
        × (length (flat chunks) ≤ max_body_bytes)
        × (collect_parts r ≡ parts r.status (text_headers r.headers) (flat chunks)))
      ⊎ ((chunks : List Bytes) × (rest : List (Option Bytes)) × (r.stream ≡ map some chunks ++ rest)
          × (max_body_bytes < length (flat chunks))
          × (collect_parts r ≡ passthrough r))
      ⊎ ((chunks : List Bytes) × (rest : List (Option Bytes)) × (r.stream
            ≡ map some chunks ++ none ∷ rest)
          × (length (flat chunks) ≤ max_body_bytes)
          × (collect_parts r ≡ passthrough bad_gateway))
unfolding collect_parts
collect_parts-cases r = elim (collect-Ends 0 [] r.stream refl (omega arith)) [
  | inl (chunks, s, n, e) ↦ inl (chunks, s, n, rw (e, collect_parts) refl)
  | inr (inl (chunks, rest, s, n, e)) ↦ inr (
      inl (
        chunks,
        rest,
        s,
        n,
        rw (e, collect_parts) (ap (λ t. passthrough (record r { stream = t })) (sym s)),
      ))
  | inr (inr (chunks, rest, s, n, e)) ↦ inr (inr (chunks, rest, s, n, rw (e, collect_parts) refl))
]
