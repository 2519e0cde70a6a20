-- ===== src/Reconciler/Push.antt =====
-- internal/reconciler/reconciler.go: what a tick publishes to the ingress, the routes of every service and
-- the backends of each.
pub mod Backends
use proxa.Prelude.{
  Bool, true, false, not, ◌&&◌, ◌||◌, List, [], ◌∷◌, ◌++◌, Option, none, some, if◌then◌else◌,
  is_nil, map, ◌⊎◌,
}
use mathlib.Core.Option
use proxa.Prelude.Int.{ℤ, pos, ltb_ℤ}
use proxa.Prelude.Text.{Text, codes, text_eq}
use proxa.Prelude.Maps.{Map, lookup, put, text-Eq}
use proxa.Types.{TaskDef, Service, Project, PortSpec, Route, ContainerInfo}
use proxa.Docker.{label_project, label_service}
use proxa.Probe.{Manager, Snapshot, snapshot}
use proxa.Ingress.{ServiceId, service-Eq, Backend}
use proxa.Ingress.Pool.{Pools, update_backends}
use proxa.Ingress.Router.{RouteConflict}
use proxa.Ingress.Forwarders.{Controller, update_routes}
use proxa.Reconciler.Diff.{label}
use proxa.Reconciler.Tick.{spec_by_service, counts}

abbrev container_port : TaskDef → List PortSpec → ℤ
container_port spec [] = if ltb_ℤ (pos 0) spec.health.port then spec.health.port else pos 80
container_port spec (e ∷ rest) =
    if ltb_ℤ (pos 0) spec.health.port
    then spec.health.port
    else if ltb_ℤ (pos 0) e.container
    then e.container
    else pos 80

dial : TaskDef → List PortSpec → Text × ℤ
dial spec [] = ([], container_port spec [])
dial spec (e ∷ rest) =
    if ltb_ℤ (pos 0) e.host
    then (codes "127.0.0.1", e.host)
    else ([], container_port spec (e ∷ rest))

-- `backendDial`
unfoldable pub backend_dial : TaskDef → Text × ℤ
unfolding dial
backend_dial spec = dial spec spec.expose

-- A container without a snapshot counts as healthy.
abbrev pub is_healthy : Option Snapshot → Bool
is_healthy none = true
is_healthy (some s) = s.health_ok

-- The answers of `InspectContainer`: the address, `none` where it fails.
abbrev pub Inspect : Type 0
Inspect = Text → Option Text

pub address : Inspect → Text → Text → Text
address inspect ip id = if is_nil ip then Option.get_or (inspect id) [] else ip

pub add_backend : Text → ℤ → Bool → Text → List Backend → List Backend
add_backend id port healthy addr rest =
    if is_nil addr
    then rest
    else record { container_id = id; ip_address = addr; port = port; healthy = healthy } ∷ rest

-- The loop over the containers of a service; one without an address is skipped.
pub backends_of : Manager → Inspect → Text × ℤ → List Text → List Backend
unfolding add_backend address
backends_of m inspect (ip, port) [] = []
backends_of m inspect (ip, port) (id ∷ ids) =
    let rest = backends_of m inspect (ip, port) ids in
    add_backend id port (is_healthy (snapshot m id)) (address inspect ip id) rest

-- `pushBackends`
unfoldable pub push_backends :
    Manager → Inspect → (project : Text) → Service → List Text → Pools → Pools
unfolding backends_of backend_dial
push_backends m inspect project svc ids pools =
    update_backends (record { project = project; service = svc.name })
      (backends_of m inspect (backend_dial svc.spec) ids) pools

-- The routes of the services that a project lists; a failed list is skipped.
routes_of_services : Text → List Service → Map ServiceId (List Route) → Map ServiceId (List Route)
routes_of_services project [] m = m
routes_of_services project (svc ∷ rest) m = routes_of_services project rest (
    if is_nil svc.spec.routes
    then m
    else put (record { project = project; service = svc.name }) svc.spec.routes m)

of_listed : Text → Option (List Service) → Map ServiceId (List Route) → Map ServiceId (List Route)
unfolding routes_of_services
of_listed project none m = m
of_listed project (some services) m = routes_of_services project services m

pub collect_routes :
    (list_services : Text → Option (List Service))
    → List Project
    → Map ServiceId (List Route)
    → Map ServiceId (List Route)
unfolding of_listed
collect_routes list_services [] m = m
collect_routes list_services (p ∷ rest) m =
    collect_routes list_services rest (of_listed p.name (list_services p.name) m)

-- The pairs that `UpdateRoutes` makes of the map.
pub flatten : Map ServiceId (List Route) → List (ServiceId × Route)
flatten [] = []
flatten ((svc, routes) ∷ rest) = map (λ r. (svc, r)) routes ++ flatten rest

-- `pushRoutes`
unfoldable pub push_routes :
    (list_services : Text → Option (List Service))
    → List Project
    → Controller
    → Option RouteConflict × Controller
unfolding collect_routes flatten
push_routes list_services projects c =
    update_routes (flatten (collect_routes list_services projects [])) c

-- Pass 1 of `updateProbesAndStatus`: the IDs of the active containers, by service.
abbrev add_id : Text → Text → Map Text (List Text) → Map Text (List Text)
add_id s id m = put s (Option.get_or (lookup s m) [] ++ id ∷ []) m

pub ids_by_service :
    (project : Text)
    → Map Text TaskDef
    → List ContainerInfo
    → Map Text (List Text)
    → Map Text (List Text)
ids_by_service project specs [] m = m
ids_by_service project specs (c ∷ rest) m =
    ids_by_service project specs rest
      (if counts project specs c then add_id (label label_service c.labels) c.id m else m)

abbrev pub ids_of : Map Text (List Text) → Text → List Text
ids_of m s = Option.get_or (lookup s m) []

-- Pass 2: the backends of every service that has routes.
pub push_all :
    Manager → Inspect → (project : Text) → Map Text (List Text) → List Service → Pools → Pools
unfolding push_backends
push_all m inspect project ids [] pools = pools
push_all m inspect project ids (svc ∷ rest) pools = push_all m inspect project ids rest (
    if is_nil svc.spec.routes
    then pools
    else push_backends m inspect project svc (ids_of ids svc.name) pools)
