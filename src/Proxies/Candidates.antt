-- ===== src/Proxies/Candidates.antt =====
-- The order in which `working_client_for` of src/proxy_manager.rs tries the proxies.
use text.Mathlib.Text.{◌==◌ as str_eq}
use text.Mathlib.TextEquality.{eq_iff}
use hifi_api_rust.Base.{
  ℕ, suc, ◌+◌, ◌-◌, ◌%◌, ◌≡◌, refl, inl, inr, Bool, true, false, not, ◌&&◌, List, [], ◌∷◌, Option,
  none, some, String, length, keep, map, Has, map-Has, keep-Has, ltb, leb, if◌then◌else◌, arith,
  Bool-cases,
}
use hifi_api_rust.Proxies.Routes.{AccountProxy}

-- A proxy with its key: whether it is avoided, how many accounts use it, and its place.
pub record Candidate : Type 0 where
  pub avoided : ℕ
  pub used : ℕ
  pub place : ℕ
  pub url : String

unfoldable pub goes_first : Candidate → Candidate → Bool
goes_first c d =
    if ltb c.avoided d.avoided
    then true
    else (if ltb d.avoided c.avoided
        then false
        else (if ltb c.used d.used
            then true
            else (if ltb d.used c.used then false else leb c.place d.place)))

unfoldable pub insert_candidate : Candidate → List Candidate → List Candidate
insert_candidate c [] = c ∷ []
insert_candidate c (d ∷ ds) =
    let rest = insert_candidate c ds in if goes_first c d then c ∷ d ∷ ds else d ∷ rest

unfoldable pub sort_candidates : List Candidate → List Candidate
unfolding insert_candidate
sort_candidates [] = []
sort_candidates (c ∷ cs) = insert_candidate c (sort_candidates cs)

-- The accounts that are bound to the proxy.
unfoldable pub count_users : String → List (String × AccountProxy) → ℕ
count_users url [] = 0
count_users url ((id, route) ∷ rest) =
    let others = count_users url rest in if str_eq route.url url then suc others else others

abbrev pub is_avoided : Option String → String → Bool
is_avoided none url = false
is_avoided (some avoid) url = str_eq url avoid

module _ (offset total : ℕ) (assignments : List (String × AccountProxy))
    (avoid : Option String) where
  unfoldable pub candidates_from : ℕ → List String → List Candidate
  unfolding count_users
  candidates_from index [] = []
  candidates_from index (url ∷ urls) =
      record {
        avoided = if is_avoided avoid url && ltb 1 total then 1 else 0;
        used = count_users url assignments;
        place = (index + total - offset % total) % total;
        url = url;
      }
      ∷ candidates_from (index + 1) urls

-- `ordered_candidates`; `offset` is the hash of the account's id.
unfoldable pub ordered_candidates :
    ℕ → List String → List (String × AccountProxy) → Option String → List String
unfolding candidates_from sort_candidates
ordered_candidates offset entries assignments avoid =
    map (λ c. c.url)
      (sort_candidates (candidates_from offset (length entries) assignments avoid 0 entries))

-- The proxy that another instance uses goes first, unless the account avoids it.
unfoldable pub shared_first : Option String → Option String → List String → List String
shared_first avoid none candidates = candidates
shared_first avoid (some shared) candidates =
    if is_avoided avoid shared
    then candidates
    else shared ∷ keep (λ url. not (str_eq url shared)) candidates

insert_candidate-Has :
    (c d : Candidate) (ds : List Candidate) → Has c (d ∷ ds) → Has c (insert_candidate d ds)
unfolding insert_candidate
insert_candidate-Has c d [] h = h
insert_candidate-Has c d (e ∷ es) h = ground (arith, insert_candidate-Has c d es)

sort_candidates-Has : (c : Candidate) (cs : List Candidate) → Has c cs → Has c (sort_candidates cs)
unfolding sort_candidates
sort_candidates-Has c [] h = h
sort_candidates-Has c (d ∷ ds) (inl e) = insert_candidate-Has c d (sort_candidates ds) (inl e)
sort_candidates-Has c (d ∷ ds) (inr h) =
    insert_candidate-Has c d (sort_candidates ds) (inr (sort_candidates-Has c ds h))

candidates_from-Has :
    (offset total : ℕ) (assignments : List (String × AccountProxy)) (avoid : Option String)
    (index : ℕ) (url : String) (urls : List String)
    → Has url urls
    → (c : Candidate) × Has c (candidates_from offset total assignments avoid index urls)
      × (url ≡ c.url)
unfolding candidates_from
candidates_from-Has offset total assignments avoid index url [] h = absurd h
candidates_from-Has offset total assignments avoid index url (u ∷ us) (inl e) = (_, inl refl, e)
candidates_from-Has offset total assignments avoid index url (u ∷ us) (inr h) =
    let r = candidates_from-Has offset total assignments avoid (index + 1) url us h in
    (r.0, inr r.1, r.2)

-- Every proxy of the list is tried.
pub ordered_candidates-Has :
    (offset : ℕ) (entries : List String) (assignments : List (String × AccountProxy))
    (avoid : Option String) (url : String)
    → Has url entries
    → Has url (ordered_candidates offset entries assignments avoid)
unfolding ordered_candidates
ordered_candidates-Has offset entries assignments avoid url h =
    let r = candidates_from-Has offset (length entries) assignments avoid 0 url entries h in
    rw r.2 (map-Has (λ c. c.url) r.0 _ (sort_candidates-Has r.0 _ r.1))

pub shared_first-Has :
    (avoid shared : Option String) (url : String) (candidates : List String)
    → Has url candidates
    → Has url (shared_first avoid shared candidates)
unfolding shared_first
shared_first-Has avoid none url candidates h = h
shared_first-Has avoid (some s) url candidates h = elim (Bool-cases (is_avoided avoid s)) [
  | inl e ↦ rw e h
  | inr e ↦ rw e (elim (Bool-cases (str_eq url s)) [
    | inl same ↦ inl ((eq_iff url s).0 same)
    | inr other ↦ inr (keep-Has (λ u. not (str_eq u s)) url candidates h (rw other refl))
  ])
]
