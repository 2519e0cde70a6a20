-- ===== src/Reconciler/Push/Backends.antt =====
-- Which containers the ingress may pick after a push.
use mathlib.Core.List.Memᴰ
use proxa.Prelude.{◌≡◌, false, List, is_nil, Memᴰ}
use proxa.Prelude.Int.{ℤ}
use proxa.Prelude.Text.{Text}
use proxa.Probe.{Manager, snapshot}
use proxa.Ingress.{service-Eq, Backend}
use proxa.Reconciler.Push.{is_healthy}

-- A backend that is pushed is a container of the service with an address, the dialled port, and the
-- health of its snapshot.
abbrev pub Pushed : Manager → ℤ → List Text → Backend → Type 0
Pushed m port ids b =
    Memᴰ b.container_id ids
    × (b.healthy ≡ is_healthy (snapshot m b.container_id))
    × (b.port ≡ port)
    × (is_nil b.ip_address ≡ false)
