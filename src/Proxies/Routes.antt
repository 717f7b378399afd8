-- ===== src/Proxies/Routes.antt =====
-- The bindings of accounts to proxies in src/proxy_manager.rs. The clients are those of the stored
-- address; the rows in the database and the keys in Redis are left out.
use text.Mathlib.Text.{◌==◌ as str_eq}
use hifi_api_rust.Base.{
  ℕ, ◌+◌, Bool, true, false, not, ◌&&◌, List, [], ◌∷◌, ◌++◌, Option, none, some, String, ◌⊎◌, inl,
  inr, any, leb, ◌==◌, if◌then◌else◌, text_eq,
}
use hifi_api_rust.Base.Dict
use hifi_api_rust.AppError.{AppError, bad_request}

pub data ProxyHealth : Type 0 where
  ok blocked dead : ProxyHealth

-- `classify_probe`; `is_json` looks for "json" in the type of the content.
unfoldable pub classify_probe : (String → Bool) → ℕ → Option String → ProxyHealth
classify_probe is_json status content_type =
    let json : Bool = elim content_type [ none ↦ false | some value ↦ is_json value ] in
    if status == 407 then dead else (if status == 403 && not json then blocked else ok)

pub record AccountProxy : Type 0 where
  pub url : String
  pub failures : ℕ
  pub verified : Bool

-- The switch, the list of proxies, `AccountRoutes` and the setting of the direct connection.
pub record ProxyManager : Type 0 where
  pub enabled : Bool
  pub proxies : List String
  pub assignments : List (String × AccountProxy)
  pub avoided : List (String × String)
  pub last_failed : List (String × ℕ)
  pub fallback_to_direct : Bool

abbrev pub contains : String → List String → Bool
contains url xs = any (str_eq url) xs

module _ (trim : String → String) (invalid : String → Option String) where
  -- The loop of `normalize_proxies`; `invalid` is the message of an address that no client accepts.
  unfoldable pub normalize_from : List String → List String → AppError ⊎ List String
  normalize_from [] normalized = inr normalized
  normalize_from (raw ∷ rest) normalized = elim (str_eq (trim raw) "") [
    | true ↦ normalize_from rest normalized
    | false ↦ elim (invalid (trim raw)) [
      | some message ↦ inl (bad_request message)
      | none ↦
          normalize_from rest
            (if contains (trim raw) normalized then normalized else normalized ++ (trim raw ∷ []))
    ]
  ]

  -- `ProxyManager::normalize_proxies`
  unfoldable pub normalize_proxies : List String → Bool → AppError ⊎ List String
  unfolding normalize_from
  normalize_proxies proxies enabled = elim (normalize_from proxies []) [
    | inl e ↦ inl e
    | inr [] ↦
        if enabled
        then inl (bad_request "Добавьте хотя бы один адрес прокси перед включением")
        else inr []
    | inr (u ∷ us) ↦ inr (u ∷ us)
  ]

-- `assign`, when the clients can be built.
unfoldable pub assign : String → String → Bool → ProxyManager → ProxyManager
unfolding Dict.insert Dict.remove
assign account_id url verified m = record m {
  assignments =
      Dict.insert text_eq account_id (record { url = url; failures = 0; verified = verified })
        m.assignments;
  avoided = Dict.remove text_eq account_id m.avoided;
  last_failed = Dict.remove text_eq account_id m.last_failed;
}

-- `rotate_account`
unfoldable pub rotate_account : String → ProxyManager → ProxyManager
unfolding Dict.get Dict.insert Dict.remove
rotate_account account_id m = elim (Dict.get text_eq account_id m.assignments) [
  | none ↦ m
  | some route ↦ record m {
    assignments = Dict.remove text_eq account_id m.assignments;
    avoided = Dict.insert text_eq account_id route.url m.avoided;
    last_failed = Dict.remove text_eq account_id m.last_failed;
  }
]

-- `forget_account`
unfoldable pub forget_account : String → ProxyManager → ProxyManager
unfolding Dict.remove
forget_account account_id m = record m {
  assignments = Dict.remove text_eq account_id m.assignments;
  avoided = Dict.remove text_eq account_id m.avoided;
  last_failed = Dict.remove text_eq account_id m.last_failed;
}

-- `note_success_for`
unfoldable pub note_success_for : String → ProxyManager → ProxyManager
unfolding Dict.modify
note_success_for account_id m = record m {
  assignments =
      Dict.modify text_eq account_id (λ route. record route { failures = 0 }) m.assignments;
}

abbrev pub count_failure : String → ProxyManager → ProxyManager
count_failure account_id m = record m {
  assignments =
      Dict.modify text_eq account_id (λ route. record route { failures = route.failures + 1 })
        m.assignments;
}

-- `note_failure_for` up to the wait for `switch_lock`: the count, and whether `rotate_account` follows.
unfoldable pub note_failure_for : String → ProxyManager → ProxyManager × Bool
unfolding Dict.get Dict.modify
note_failure_for account_id m =
    if m.enabled
    then elim (Dict.get text_eq account_id m.assignments) [
      | none ↦ (m, false)
      | some route ↦ (count_failure account_id m, leb 3 (route.failures + 1))
    ]
    else (m, false)
