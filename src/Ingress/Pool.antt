-- ===== src/Ingress/Pool.antt =====
-- internal/ingress/backend_pool.go and pools.go: the backends of a service and the choice of one.
pub mod Rotation
pub mod Published
use proxa.Prelude.{
  ℕ, zero, suc, ◌+◌, ◌-◌, ◌%◌, ◌^◌, Bool, true, false, List, [], ◌∷◌, Option, none, some,
  if◌then◌else◌, is_nil, length, get_elem?, filter, count,
}
use mathlib.Core.Option
use proxa.Prelude.Text.{Text, codes, text_eq}
use proxa.Prelude.Maps.{Map, lookup, put, remove}
use proxa.Ingress.{Backend, ServiceId, service-Eq}

-- `BackendPool`; the cursor is an `atomic.Uint64`.
pub record BackendPool : Type 0 where
  pub backends : List Backend
  pub cursor : ℕ

-- `NewBackendPool`
abbrev pub new_backend_pool : BackendPool
new_backend_pool = record { backends = []; cursor = 0 }

-- `BackendPool.Replace`: the cursor stays.
unfoldable pub replace : List Backend → BackendPool → BackendPool
replace backends p = record p { backends = backends }

-- `BackendPool.Healthy`
unfoldable pub healthy : BackendPool → List Backend
healthy p = filter (λ b. b.healthy) p.backends

-- `BackendPool.HealthyCount`
unfoldable pub healthy_count : BackendPool → ℕ
healthy_count p = count (λ b. b.healthy) p.backends

-- The indices of the healthy backends, from index `i` on.
pub healthy_from : ℕ → List Backend → List ℕ
healthy_from i [] = []
healthy_from i (b ∷ bs) = let rest = healthy_from (suc i) bs in if b.healthy then i ∷ rest else rest

-- `p.backends[healthy[j]]`
pub chosen : List Backend → List ℕ → ℕ → Option Backend
chosen bs indices j = Option.bind (get_elem? indices j) (λ i. get_elem? bs i)

pub pick_from : (ℕ → ℕ) → Text → BackendPool → List ℕ → Option Backend × BackendPool
unfolding chosen
pick_from rand strategy p [] = (none, p)
pick_from rand strategy p (i ∷ is) =
    let n = length (i ∷ is) in
    if text_eq strategy (codes "round-robin")
    then (chosen p.backends (i ∷ is) (p.cursor % n), record p { cursor = (p.cursor + 1) % 2 ^ 64 })
    else (chosen p.backends (i ∷ is) (rand n), p)

-- `BackendPool.Pick`; `rand` is `rand.IntN`.
unfoldable pub pick : (ℕ → ℕ) → Text → BackendPool → Option Backend × BackendPool
unfolding healthy_from pick_from
pick rand strategy p = pick_from rand strategy p (healthy_from 0 p.backends)

-- `poolRegistry`
abbrev pub Pools : Type 0
Pools = Map ServiceId BackendPool

pub pool_or_new : Option BackendPool → BackendPool
pool_or_new none = new_backend_pool
pool_or_new (some p) = p

-- `poolRegistry.Upsert`
unfoldable pub upsert : ServiceId → List Backend → Pools → Pools
unfolding pool_or_new replace
upsert svc backends pools = put svc (replace backends (pool_or_new (lookup svc pools))) pools

-- `UpdateBackends`; without backends the pool is forgotten (`poolRegistry.Forget`).
unfoldable pub update_backends : ServiceId → List Backend → Pools → Pools
unfolding upsert
update_backends svc backends pools =
    if is_nil backends then remove svc pools else upsert svc backends pools
