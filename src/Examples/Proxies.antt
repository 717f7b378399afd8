-- ===== src/Examples/Proxies.antt =====
-- src/proxy_manager.rs at concrete inputs.
use text.Mathlib.Text.{◌==◌ as str_eq}
use hifi_api_rust.Base.{
  ℕ, ◌≡◌, refl, Bool, true, false, [], ◌∷◌, none, String, inr, if◌then◌else◌, text_eq,
}
use hifi_api_rust.Base.Dict
use hifi_api_rust.Proxies.Routes.{ProxyHealth, ok, blocked, dead, ProxyManager, note_failure_for}
use hifi_api_rust.Proxies.Candidates.{
  ordered_candidates, shared_first, candidates_from, sort_candidates, count_users, insert_candidate,
  goes_first,
}
use hifi_api_rust.Proxies.Resolve.{
  via, working_client_for, search_proxy, scan, bind, shared_proxy_for,
}
use hifi_api_rust.Proxies.Egress.{Bound, Ends, working_client_for-Ends}

abbrev answers : String → ProxyHealth
answers url =
    if str_eq url "http://p1" then blocked else (if str_eq url "http://p2" then ok else dead)

abbrev builds : String → Bool
builds url = true

abbrev plain : String → String
plain url = url

abbrev hash : String → ℕ
hash id = 7

abbrev manager : ProxyManager
manager = record {
  enabled = true;
  proxies = "http://p0" ∷ "http://p1" ∷ "http://p2" ∷ [];
  assignments = [];
  avoided = [];
  last_failed = [];
  fallback_to_direct = false;
}

takes_accepted :
    (working_client_for answers builds plain hash none "a" 100 manager).1 ≡ inr (via "http://p2")
unfolding working_client_for search_proxy scan bind shared_proxy_for shared_first ordered_candidates
    candidates_from sort_candidates count_users insert_candidate goes_first Dict.get
takes_accepted = refl

working_client_for-Ends_example :
    Ends answers builds plain hash
      (λ url. Bound "a" url manager)
      "a"
      manager
      (working_client_for answers builds plain hash none "a" 100 manager)
working_client_for-Ends_example =
    working_client_for-Ends answers builds plain hash none "a" 100 manager

-- The third failure of a binding is the one that asks for another proxy.
abbrev failing : ℕ → ProxyManager
failing failures = record manager {
  assignments = ("a", record { url = "http://p2"; failures = failures; verified = true }) ∷ [];
}

third_failure_rotates :
    ((note_failure_for "a" (failing 1)).1 ≡ false) × ((note_failure_for "a" (failing 2)).1 ≡ true)
unfolding note_failure_for Dict.get text_eq
third_failure_rotates = (refl, refl)
