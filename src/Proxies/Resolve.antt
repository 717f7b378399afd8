-- ===== src/Proxies/Resolve.antt =====
-- `working_client_for` of src/proxy_manager.rs. The answers of the probes, the fingerprints, whether a
-- client can be built for an address and the hash of the account's id are arguments. The probes of a
-- group of five run together, and their answers are read in the order of the list.
use text.Mathlib.Text.{◌==◌ as str_eq}
use hifi_api_rust.Base.{
  ℕ, ◌-◌, Bool, true, false, List, [], ◌∷◌, Option, none, some, String, ◌⊎◌, inl, inr, ltb,
  if◌then◌else◌, text_eq,
}
use hifi_api_rust.Base.Dict
use hifi_api_rust.AppError.{AppError, service_unavailable}
use hifi_api_rust.Proxies.Routes.{ProxyHealth, ok, blocked, dead, ProxyManager, contains, assign}
use hifi_api_rust.Proxies.Candidates.{ordered_candidates, shared_first}

pub data Client : Type 0 where
  direct : Client
  via : String → Client

-- `unavailable_for`
unfoldable pub unavailable_for : ProxyManager → AppError ⊎ Client
unavailable_for m =
    if m.fallback_to_direct
    then inr direct
    else inl (service_unavailable "No working proxy available and direct fallback is disabled")

-- The first accepted proxy, or else a proxy that Tidal refuses.
pub data Choice : Type 0 where
  accepted : String → Choice
  none_accepted : Option String → Choice

abbrev pub keep_first : Option String → String → Option String
keep_first none url = some url
keep_first (some u) url = some u

-- An account that failed to get a proxy less than 30 seconds ago.
abbrev pub failed_lately : ℕ → Option ℕ → Bool
failed_lately now none = false
failed_lately now (some last) = ltb (now - last) 30

module _ (probe : String → ProxyHealth) (can_build : String → Bool) (fingerprint : String → String)
    (offset : String → ℕ) where
  -- `shared_proxy_for`, from what Redis holds of the account.
  unfoldable pub shared_proxy_for : Option String → List String → Option String
  shared_proxy_for none entries = none
  shared_proxy_for (some shared) [] = none
  shared_proxy_for (some shared) (url ∷ urls) =
      let rest = shared_proxy_for (some shared) urls in
      if str_eq (fingerprint url) shared then some url else rest

  -- The loop over the candidates.
  unfoldable pub scan : List String → Option String → Choice
  scan [] fallback = none_accepted fallback
  scan (url ∷ urls) fallback = elim (probe url) [
    | ok ↦ let rest = scan urls fallback in if can_build url then accepted url else rest
    | blocked ↦ scan urls (keep_first fallback url)
    | dead ↦ scan urls fallback
  ]

  abbrev pub give_up : String → ℕ → ProxyManager → ProxyManager × (AppError ⊎ Client)
  give_up account_id now m = (
    record m { last_failed = Dict.insert text_eq account_id now m.last_failed },
    unavailable_for m,
  )

  unfoldable pub bind : String → ℕ → Choice → ProxyManager → ProxyManager × (AppError ⊎ Client)
  unfolding assign
  bind account_id now (accepted url) m = (assign account_id url true m, inr (via url))
  bind account_id now (none_accepted none) m = give_up account_id now m
  bind account_id now (none_accepted (some url)) m =
      if can_build url
      then (assign account_id url true m, inr (via url))
      else give_up account_id now m

  -- The part after the account's own binding.
  unfoldable pub search_proxy :
      Option String → String → ℕ → Option String → ProxyManager → ProxyManager × (AppError ⊎ Client)
  unfolding Dict.get ordered_candidates shared_first shared_proxy_for scan bind unavailable_for
  search_proxy redis account_id now fallback m =
      if failed_lately now (Dict.get text_eq account_id m.last_failed)
      then (m, unavailable_for m)
      else (let avoid = Dict.get text_eq account_id m.avoided in
          let candidates =
            shared_first avoid (shared_proxy_for redis m.proxies)
              (ordered_candidates (offset account_id) m.proxies m.assignments avoid) in
          bind account_id now (scan candidates fallback) m)

  -- The account leaves a proxy that failed its probe.
  abbrev pub leave : String → String → ProxyManager → ProxyManager
  leave account_id url m = record m {
    assignments = Dict.remove text_eq account_id m.assignments;
    avoided = Dict.insert text_eq account_id url m.avoided;
  }

  -- The binding that is not verified yet is probed.
  unfoldable pub check_binding :
      Option String → String → ℕ → String → ProxyManager → ProxyManager × (AppError ⊎ Client)
  unfolding Dict.modify search_proxy
  check_binding redis account_id now url m = elim (probe url) [
    | ok ↦ (
      record m {
        assignments =
            Dict.modify text_eq account_id (λ route. record route { verified = true })
              m.assignments;
      },
      inr (via url),
    )
    | blocked ↦ search_proxy redis account_id now (some url) (leave account_id url m)
    | dead ↦ search_proxy redis account_id now none (leave account_id url m)
  ]

  -- `working_client_for`; nothing changes while it waits for the lock.
  unfoldable pub working_client_for :
      Option String → String → ℕ → ProxyManager → ProxyManager × (AppError ⊎ Client)
  unfolding Dict.get Dict.remove check_binding search_proxy
  working_client_for redis account_id now m =
      if m.enabled
      then elim (Dict.get text_eq account_id m.assignments) [
        | none ↦ search_proxy redis account_id now none m
        | some existing ↦
            if existing.verified
            then (m, inr (via existing.url))
            else (if contains existing.url m.proxies
                then check_binding redis account_id now existing.url m
                else search_proxy redis account_id now none
                    (record m { assignments = Dict.remove text_eq account_id m.assignments }))
      ]
      else (m, inr direct)
