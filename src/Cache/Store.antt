-- ===== src/Cache/Store.antt =====
-- What src/cache.rs asks of a moka cache: what `get` answers was inserted under that key and has not
-- been replaced or invalidated since. An entry may go at any time, by its age or for want of room.
use hifi_api_rust.Base.{ℕ, ◌≡◌, ◌⊎◌, List, Option, none, some}

pub record CacheStore (V : Type 0) : Type 1 where
  pub Table : Type 0
  pub new : Table
  pub get : Table → List ℕ → Option V
  pub insert : List ℕ → V → Table → Table
  pub invalidate_all : Table → Table
  -- The entries that moka drops by itself; the number stands for what it goes by.
  pub evict : ℕ → Table → Table
  pub get-new : (k : List ℕ) → get new k ≡ none
  pub get-insert :
      (k : List ℕ) (v : V) (t : Table) (j : List ℕ) (w : V)
      → get (insert k v t) j ≡ some w
      → ((j ≡ k) × (w ≡ v)) ⊎ (get t j ≡ some w)
  pub get-invalidate_all : (t : Table) (j : List ℕ) → get (invalidate_all t) j ≡ none
  pub get-evict :
      (n : ℕ) (t : Table) (j : List ℕ) (w : V) → get (evict n t) j ≡ some w → get t j ≡ some w
