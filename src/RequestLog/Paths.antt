-- ===== src/RequestLog/Paths.antt =====
-- The paths that src/request_log.rs keeps, and the shorter forms that it logs.
use hifi_api_rust.Base.{
  ℕ, ◌≡◌, refl, ap, subst, ◌∙◌, Bool, true, false, not, ◌&&◌, ◌||◌, List, [], ◌∷◌, ◌++◌, Option,
  none, some, ◌==◌, if◌then◌else◌, take, keep, Bool-cases, inl, inr, All,
}
use hifi_api_rust.Base.Bytes.{codes, same, starts_with}
use hifi_api_rust.ScannerGuard.Paths.{is_some_text, split, segments}

-- `should_log_path`
unfoldable pub should_log_path : List ℕ → Bool
should_log_path path =
    not (same path (codes "/admin"))
    && not (starts_with (codes "/admin/") path)
    && not (same path (codes "/health"))
    && not (same path (codes "/favicon.ico"))

-- Each segment with a slash before it.
unfoldable pub join_path : List (List ℕ) → List ℕ
join_path [] = []
join_path (segment ∷ rest) = b'/' ∷ segment ++ join_path rest

unfoldable pub shorten : List (List ℕ) → List ℕ
unfolding join_path
shorten [] = codes "/"
shorten (a ∷ []) = join_path (a ∷ [])
shorten (a ∷ b ∷ more) = join_path (a ∷ b ∷ [])

-- `normalize_path`
unfoldable pub normalize_path : List ℕ → List ℕ
unfolding segments shorten
normalize_path path = shorten (segments path)

abbrev pub nonempty_text : List ℕ → Option (List ℕ)
nonempty_text text = if is_some_text text then some text else none

-- The loop over the query: the first `id` that is not empty, or the first `s`.
unfoldable pub query_detail : Option (List ℕ) → List (List ℕ × List ℕ) → Option (List ℕ)
query_detail search [] = elim search [ none ↦ none | some s ↦ nonempty_text s ]
query_detail search ((key, value) ∷ rest) =
    let next =
      query_detail
        (elim search [ none ↦ if same key (codes "s") then some value else none | some s ↦ some s ])
        rest in
    if same key (codes "id") && is_some_text value then some value else next

abbrev pub named_by_path : List (List ℕ) → Option (List ℕ)
named_by_path [] = none
named_by_path (a ∷ []) = none
named_by_path (a ∷ b ∷ rest) =
    if same a (codes "track") || same a (codes "trackManifests") || same a (codes "dash")
    then some b
    else none

-- `extract_detail`; `parse` is `form_urlencoded::parse`.
unfoldable pub extract_detail :
    (List ℕ → List (List ℕ × List ℕ)) → List ℕ → Option (List ℕ) → List ℕ
unfolding segments query_detail
extract_detail parse path query = elim (named_by_path (segments path)) [
  | some id ↦ take 64 id
  | none ↦ elim query [
    | none ↦ []
    | some q ↦ elim (query_detail none (parse q)) [ none ↦ [] | some text ↦ take 64 text ]
  ]
]

-- A segment: not empty, and without a slash.
abbrev pub IsSegment : List ℕ → Type 0
IsSegment s = (is_some_text s ≡ true) × All (λ c. c == b'/' ≡ false) s

split-cons : (s : List ℕ) → (a : List ℕ) × (rest : List (List ℕ)) × (split s ≡ a ∷ rest)
unfolding split
split-cons [] = ([], [], refl)
split-cons (c ∷ s) =
    let d = split-cons s in
    elim (Bool-cases (c == b'/')) [
      | inl e ↦ ([], d.0 ∷ d.1, rw (d.2, e) refl)
      | inr e ↦ (c ∷ d.0, d.1, rw (d.2, e) refl)
    ]

split-append : (s t : List ℕ) → All (λ c. c == b'/' ≡ false) s → split (s ++ b'/' ∷ t) ≡ s ∷ split t
unfolding split
split-append [] t h = let d = split-cons t in rw d.2 refl
split-append (c ∷ s) t h = rw (split-append s t h.1, h.0) refl

split-whole : (s : List ℕ) → All (λ c. c == b'/' ≡ false) s → split (s ++ []) ≡ s ∷ []
unfolding split
split-whole [] h = refl
split-whole (c ∷ s) h = rw (split-whole s h.1, h.0) refl

split-join_path :
    (s : List ℕ) (rest : List (List ℕ))
    → All (λ c. c == b'/' ≡ false) s
    → All IsSegment rest
    → split (s ++ join_path rest) ≡ s ∷ rest
unfolding join_path
split-join_path s [] h r = split-whole s h
split-join_path s (t ∷ ts) h r =
    split-append s (t ++ join_path ts) h ∙ ap (◌∷◌ s) (split-join_path t ts r.0.1 r.1)

keep-segments : (segs : List (List ℕ)) → All IsSegment segs → keep is_some_text segs ≡ segs
keep-segments [] h = refl
keep-segments (s ∷ ss) h = rw (h.0.0) (ap (◌∷◌ s) (keep-segments ss h.1))

-- Segments that are joined are found again.
pub segments-join_path :
    (segs : List (List ℕ)) → All IsSegment segs → segments (join_path segs) ≡ segs
unfolding segments join_path split
segments-join_path [] h = refl
segments-join_path (s ∷ ss) h =
    ap (keep is_some_text)
      (split-append [] (s ++ join_path ss) tt ∙ ap (◌∷◌ []) (split-join_path s ss h.0.1 h.1))
    ∙ keep-segments (s ∷ ss) h

split-All : (s : List ℕ) → All (λ seg. All (λ c. c == b'/' ≡ false) seg) (split s)
unfolding split
split-All [] = (tt, tt)
split-All (c ∷ s) =
    let d = split-cons s in
    let ih = subst (λ l. All (λ seg. All (λ x. x == b'/' ≡ false) seg) l) d.2 (split-All s) in
    rw d.2
      (elim (Bool-cases (c == b'/')) [ inl e ↦ rw e (tt, ih) | inr e ↦ rw e ((e, ih.0), ih.1) ])

segments-All : (s : List ℕ) → All IsSegment (segments s)
unfolding segments
segments-All s = keep_all (split s) (split-All s)
  where
    keep_all :
        (segs : List (List ℕ))
        → All (λ seg. All (λ c. c == b'/' ≡ false) seg) segs
        → All IsSegment (keep is_some_text segs)
    keep_all [] h = tt
    keep_all (s ∷ ss) h = elim (Bool-cases (is_some_text s)) [
      | inl e ↦ rw e ((e, h.0), keep_all ss h.1)
      | inr e ↦ rw e (keep_all ss h.1)
    ]

segments-shorten :
    (segs : List (List ℕ)) → All IsSegment segs → segments (shorten segs) ≡ take 2 segs
unfolding shorten segments split
segments-shorten [] h = refl
segments-shorten (a ∷ []) h = segments-join_path (a ∷ []) h
segments-shorten (a ∷ b ∷ more) h = segments-join_path (a ∷ b ∷ []) (h.0, (h.1.0, tt))

shorten-take : (segs : List (List ℕ)) → shorten (take 2 segs) ≡ shorten segs
unfolding shorten
shorten-take [] = refl
shorten-take (a ∷ []) = refl
shorten-take (a ∷ b ∷ more) = refl

-- The path under which a request is logged has the first two segments of its own, or all of them if
-- these are fewer, and it is the same when it is shortened again. So an id in the second segment, as of
-- `/trackManifests/192157851`, is kept, where the source's comment says that it is replaced.
pub normalize_path-stable :
    (path : List ℕ)
    → (segments (normalize_path path) ≡ take 2 (segments path))
      × (normalize_path (normalize_path path) ≡ normalize_path path)
unfolding normalize_path
normalize_path-stable path =
    let kept = segments-shorten (segments path) (segments-All path) in
    (kept, ap shorten kept ∙ shorten-take (segments path))
