-- ===== src/Proxies/Cases.antt =====
-- Case splits of the proofs about src/proxy_manager.rs.
use hifi_api_rust.Base.{◌≡◌, refl, ◌⊎◌, inl, inr}
use hifi_api_rust.Proxies.Routes.{ProxyHealth, ok, blocked, dead}

pub health-cases : (h : ProxyHealth) → (h ≡ ok) ⊎ ((h ≡ blocked) ⊎ (h ≡ dead))
health-cases ok = inl refl
health-cases blocked = inr (inl refl)
health-cases dead = inr (inr refl)

pub split_health :
    {A : Type 0} (P : A → Type 0) (h : ProxyHealth) (x y z : A)
    → (h ≡ ok → P x)
    → (h ≡ blocked → P y)
    → (h ≡ dead → P z)
    → P (elim h [ ok ↦ x | blocked ↦ y | dead ↦ z ])
split_health P ok x y z f g k = f refl
split_health P blocked x y z f g k = g refl
split_health P dead x y z f g k = k refl
