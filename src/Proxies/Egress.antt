-- ===== src/Proxies/Egress.antt =====
-- How the traffic of an account leaves, in src/proxy_manager.rs.
use hifi_api_rust.Base.{
  split_bool, split_option, ℕ, ◌≡◌, refl, subst, ◌⊎◌, inl, inr, Bool, true, false, List, [], ◌∷◌,
  Option, none, some, String, arith, Bool-cases, Has, text_eq,
}
use hifi_api_rust.Base.Dict
use hifi_api_rust.AppError.{AppError, service_unavailable}
use hifi_api_rust.Proxies.Routes.{
  ProxyHealth, ok, blocked, AccountProxy, ProxyManager, contains, assign,
}
use hifi_api_rust.Proxies.Candidates.{
  ordered_candidates, shared_first, ordered_candidates-Has, shared_first-Has,
}
use hifi_api_rust.Proxies.Cases.{split_health, health-cases}
use hifi_api_rust.Proxies.Resolve.{
  Client, direct, via, Choice, accepted, none_accepted, keep_first, unavailable_for,
  shared_proxy_for, scan, bind, search_proxy, check_binding, working_client_for, failed_lately,
  leave,
}

-- The account is bound to the proxy, which is verified.
abbrev pub Bound : String → String → ProxyManager → Type 0
Bound account_id url m =
    (route : AccountProxy) × (Dict.get text_eq account_id m.assignments ≡ some route)
    × (route.url ≡ url)
    × (route.verified ≡ true)

keep_first-blocked :
    (probe : String → ProxyHealth) (fallback : Option String) (u : String)
    → probe u ≡ blocked
    → ((v : String) → fallback ≡ some v → probe v ≡ blocked)
    → (v : String) → keep_first fallback u ≡ some v
    → probe v ≡ blocked
keep_first-blocked probe none u b k v h = ground arith
keep_first-blocked probe (some w) u b k v h = k v h

abbrev tried : String → ℕ → ProxyManager → ProxyManager
tried account_id now m = record m { last_failed = Dict.insert text_eq account_id now m.last_failed }

get_own :
    (id : String) (route : AccountProxy) (m : List (String × AccountProxy))
    → Dict.get text_eq id (Dict.insert text_eq id route m) ≡ some route
get_own id route m = ground (arith, Dict.get-insert text_eq id id route m)

assign-Bound :
    (account_id url : String) (m : ProxyManager)
    → Bound account_id url (assign account_id url true m)
unfolding assign
assign-Bound account_id url m =
    let route : AccountProxy = record { url = url; failures = 0; verified = true } in
    (route, get_own account_id route m.assignments, refl, refl)

verified_own :
    (id : String) (route : AccountProxy) (m : List (String × AccountProxy))
    → Dict.get text_eq id m ≡ some route
    → Dict.get text_eq id (Dict.modify text_eq id (λ r. record r { verified = true }) m)
      ≡ some (record route { verified = true })
verified_own id route m e =
    ground (arith, Dict.get-modify text_eq id id (λ r. record r { verified = true }) m)

module _ (probe : String → ProxyHealth) (can_build : String → Bool) (fingerprint : String → String)
    (offset : String → ℕ) where
  -- Tidal accepts none of these proxies, as far as clients can be built for them.
  abbrev pub NoneAccepted : List String → Type 0
  NoneAccepted urls = (v : String) → Has v urls → probe v ≡ ok → can_build v ≡ false

  -- Why the proxy may be used: it is the one that the account had, or the probes allow it.
  abbrev pub IsAllowed : (String → Type 0) → ProxyManager → String → Type 0
  IsAllowed Had m url =
      Had url ⊎ ((probe url ≡ ok) ⊎ ((probe url ≡ blocked) × NoneAccepted m.proxies))

  -- What a call ends in, for an account that has had the proxies `Had`.
  abbrev pub Ends :
      (String → Type 0) → String → ProxyManager → ProxyManager × (AppError ⊎ Client) → Type 0
  Ends Had account_id m r =
      ((r.1 ≡ inr direct) × ((m.enabled ≡ false) ⊎ (m.fallback_to_direct ≡ true)))
      ⊎ (((url : String) × (r.1 ≡ inr (via url)) × Bound account_id url r.0 × IsAllowed Had m url)
          ⊎ ((e : AppError) × (r.1 ≡ inl e) × (m.enabled ≡ true) × (m.fallback_to_direct ≡ false)))

  -- What the loop over the candidates finds.
  scan-accepted :
      (urls : List String) (fallback : Option String) (url : String)
      → scan probe can_build fingerprint offset urls fallback ≡ accepted url
      → probe url ≡ ok
  unfolding scan
  scan-accepted [] fallback url h = cc
  scan-accepted (u ∷ us) fallback url h =
      ground (arith, scan-accepted us fallback url, scan-accepted us (keep_first fallback u) url)

  scan-none_accepted :
      (urls : List String) (fallback o : Option String)
      → scan probe can_build fingerprint offset urls fallback ≡ none_accepted o
      → NoneAccepted urls
  unfolding scan
  scan-none_accepted [] fallback o h = λ v k e. absurd k
  scan-none_accepted (u ∷ us) fallback o h =
      ground
        (arith, scan-none_accepted us fallback o, scan-none_accepted us (keep_first fallback u) o)

  scan-fallback :
      (urls : List String) (fallback : Option String) (url : String)
      → scan probe can_build fingerprint offset urls fallback ≡ none_accepted (some url)
      → ((u : String) → fallback ≡ some u → probe u ≡ blocked)
      → probe url ≡ blocked
  unfolding scan
  scan-fallback [] fallback url h k = k url (ground arith)
  scan-fallback (u ∷ us) fallback url h k = elim (health-cases (probe u)) [
    | inl e ↦ scan-fallback us fallback url (ground arith) k
    | inr (inl e) ↦
        scan-fallback us (keep_first fallback u) url (ground arith)
          (keep_first-blocked probe fallback u e k)
    | inr (inr e) ↦ scan-fallback us fallback url (ground arith) k
  ]

  unavailable_for-Ends :
      (Had : String → Type 0) (account_id : String) (m b : ProxyManager)
      → m.enabled ≡ true
      → Ends Had account_id m (b, unavailable_for m)
  unfolding unavailable_for
  unavailable_for-Ends Had account_id m b on = elim (Bool-cases m.fallback_to_direct) [
    | inl f ↦ inl (rw f refl, inr f)
    | inr f ↦ inr (
        inr (
          service_unavailable "No working proxy available and direct fallback is disabled",
          rw f refl,
          on,
          f,
        ))
  ]

  bind-Ends :
      (Had : String → Type 0) (account_id : String) (now : ℕ) (c : Choice) (m : ProxyManager)
      → m.enabled ≡ true
      → ((url : String) → c ≡ accepted url → probe url ≡ ok)
      → ((o : Option String) → c ≡ none_accepted o → NoneAccepted m.proxies)
      → ((url : String) → c ≡ none_accepted (some url) → probe url ≡ blocked)
      → Ends Had account_id m (bind probe can_build fingerprint offset account_id now c m)
  unfolding bind
  bind-Ends Had account_id now (accepted url) m on good none_left refused =
      inr (inl (url, refl, assign-Bound account_id url m, inr (inl (good url refl))))
  bind-Ends Had account_id now (none_accepted none) m on good none_left refused =
      unavailable_for-Ends Had account_id m (tried account_id now m) on
  bind-Ends Had account_id now (none_accepted (some url)) m on good none_left refused =
      elim (Bool-cases (can_build url)) [
        | inl e ↦ rw e (
            inr (
              inl (
                url,
                refl,
                assign-Bound account_id url m,
                inr (inr (refused url refl, none_left (some url) refl)),
              )))
        | inr e ↦ rw e (unavailable_for-Ends Had account_id m (tried account_id now m) on)
      ]

  search_proxy-Ends :
      (Had : String → Type 0) (redis : Option String) (account_id : String) (now : ℕ)
      (fallback : Option String) (m : ProxyManager)
      → m.enabled ≡ true
      → ((url : String) → fallback ≡ some url → probe url ≡ blocked)
      → Ends Had account_id m
          (search_proxy probe can_build fingerprint offset redis account_id now fallback m)
  unfolding search_proxy
  search_proxy-Ends Had redis account_id now fallback m on refused =
      let avoid = Dict.get text_eq account_id m.avoided in
      let candidates =
        shared_first avoid (shared_proxy_for probe can_build fingerprint offset redis m.proxies)
          (ordered_candidates (offset account_id) m.proxies m.assignments avoid) in
      let c = scan probe can_build fingerprint offset candidates fallback in
      elim (Bool-cases (failed_lately now (Dict.get text_eq account_id m.last_failed))) [
        | inl e ↦ rw e (unavailable_for-Ends Had account_id m m on)
        | inr e ↦ rw e (
            bind-Ends Had account_id now c m on (scan-accepted candidates fallback)
              (λ o h v k. scan-none_accepted candidates fallback o h v (
                shared_first-Has avoid _ v _
                  (ordered_candidates-Has (offset account_id) m.proxies m.assignments avoid v k)))
              (λ url h. scan-fallback candidates fallback url h refused))
      ]

  check_binding-Ends :
      (Had : String → Type 0) (redis : Option String) (account_id : String) (now : ℕ)
      (route : AccountProxy) (m : ProxyManager)
      → m.enabled ≡ true
      → Dict.get text_eq account_id m.assignments ≡ some route
      → Ends Had account_id m
          (check_binding probe can_build fingerprint offset redis account_id now route.url m)
  unfolding check_binding
  check_binding-Ends Had redis account_id now route m on e =
      split_health (λ r. Ends Had account_id m r) (probe route.url) _ _ _
        (λ h. inr (
          inl (
            route.url,
            refl,
            (
              record route { verified = true },
              verified_own account_id route m.assignments e,
              refl,
              refl,
            ),
            inr (inl h),
          )))
        (λ h.
          search_proxy-Ends Had redis account_id now (some route.url)
            (leave probe can_build fingerprint offset account_id route.url m) on
            (λ url k. subst (λ u. probe u ≡ blocked) (ground arith) h))
        (λ h.
          search_proxy-Ends Had redis account_id now none
            (leave probe can_build fingerprint offset account_id route.url m) on (λ url k. cc))

  -- Where the traffic of an account leaves, for every answer of the probes and every order of the
  -- proxies. A direct connection is used only if proxies are switched off or the fallback to it is on.
  -- A proxy that is used is the account's binding afterwards and verified, and it was so before, or
  -- Tidal just answered through it, or Tidal refuses it and accepts no proxy of the list for which a
  -- client can be built. The call fails only if proxies are on and the fallback is off.
  pub working_client_for-Ends :
      (redis : Option String) (account_id : String) (now : ℕ) (m : ProxyManager)
      → Ends
          (λ url. Bound account_id url m)
          account_id
          m
          (working_client_for probe can_build fingerprint offset redis account_id now m)
  unfolding working_client_for
  working_client_for-Ends redis account_id now m =
      let P : ProxyManager × (AppError ⊎ Client) → Type 0 =
        λ r. Ends (λ url. Bound account_id url m) account_id m r in
      split_bool P m.enabled _ _
        (λ on.
          split_option P (Dict.get text_eq account_id m.assignments) _ _
            (λ e.
              search_proxy-Ends (λ url. Bound account_id url m) redis account_id now none m on
                (λ url h. cc))
            (λ route e.
              split_bool P route.verified _ _
                (λ v. inr (inl (route.url, refl, (route, e, refl, v), inl (route, e, refl, v))))
                (λ v.
                  split_bool P (contains route.url m.proxies) _ _
                    (λ c.
                      check_binding-Ends (λ url. Bound account_id url m) redis account_id now route
                        m on e)
                    (λ c.
                      search_proxy-Ends (λ url. Bound account_id url m) redis account_id now none
                        (record m { assignments = Dict.remove text_eq account_id m.assignments }) on
                        (λ url h. cc)))))
        (λ off. inl (refl, inl off))
