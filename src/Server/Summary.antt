-- ===== src/Server/Summary.antt =====
-- internal/server/handlers.go: `handleSystemStatus`, which summarises every project from the store and
-- from the containers of the runtime.
use proxa.Prelude.{
  ℕ, suc, ◌+◌, ◌≡◌, ◌≢◌, ◌↔◌, refl, Bool, ◌&&◌, List, [], ◌∷◌, Option, if◌then◌else◌, map, count,
  length, is_nil, arith,
}
use mathlib.Core.Option
use proxa.Prelude.Int.{ℤ, pos, ltb_ℤ, eqb_ℤ}
use proxa.Prelude.Text.{Text, codes, text_eq, text_eq_iff}
use proxa.Prelude.Maps.{Map, lookup, put, lookup-put, text-Eq}
use proxa.Types.{Service, Project, ContainerInfo}
use proxa.Docker.{label_service}
use proxa.Reconciler.Diff.{label}
use proxa.Store.{Codec, Tables, Result, ok, err, list_services, list_projects}

pub record ServiceSummary : Type 0 where
  name : Text
  image : Text
  desired_replicas : ℤ
  pub actual_replicas : ℤ
  pub status : Text

record ProjectSummary : Type 0 where
  name : Text
  services : List ServiceSummary

-- The reply, with the node's number of containers.
record SystemStatus : Type 0 where
  container_count : ℕ
  projects : List ProjectSummary

-- `deriveStatus`
unfoldable derive_status : (desired actual : ℤ) → Text
derive_status desired actual =
    if eqb_ℤ desired (pos 0) && eqb_ℤ actual (pos 0)
    then codes "stopped"
    else if eqb_ℤ actual desired
    then codes "healthy"
    else if ltb_ℤ actual desired
    then codes "reconciling"
    else codes "scaling-down"

-- `serviceStatus`
unfoldable service_status : Service → (actual : ℤ) → Text
unfolding derive_status
service_status svc actual =
    if is_nil svc.status then derive_status svc.spec.replicas actual else svc.status

-- `m[k]` of a map of counts, zero where the key is missing.
abbrev tally : Text → Map Text ℕ → ℕ
tally k m = Option.get_or (lookup k m) 0

-- `actualByService`: how many running containers each service has.
unfoldable pub count_running : List ContainerInfo → Map Text ℕ → Map Text ℕ
count_running [] m = m
count_running (c ∷ cs) m =
    let k = label label_service c.labels in
    count_running cs (if text_eq c.state (codes "running") then put k (suc (tally k m)) m else m)

-- `ListContainers` of the runtime for one project; `none` is an error.
abbrev ListContainers : Type 0
ListContainers = (project : Text) → Option (List ContainerInfo)

-- The containers of a project; none where the runtime fails.
abbrev containers_of : ListContainers → Text → List ContainerInfo
containers_of list p = Option.get_or (list p) []

unfoldable pub service_summary : Map Text ℕ → Service → ServiceSummary
unfolding service_status
service_summary counts svc =
    let actual = pos (tally svc.name counts) in
    record {
      name = svc.name;
      image = svc.spec.image;
      desired_replicas = svc.spec.replicas;
      actual_replicas = actual;
      status = service_status svc actual;
    }

-- One round of the loop over the projects: a project whose services cannot be read is left out.
add_project : ListContainers → Text → Result (List Service) → SystemStatus → SystemStatus
unfolding service_summary count_running
add_project list p (err e) rest = rest
add_project list p (ok services) rest =
    let running = containers_of list p in
    record {
      container_count = length running + rest.container_count;
      projects =
          record { name = p; services = map (service_summary (count_running running [])) services }
          ∷ rest.projects;
    }

unfoldable summarize : Codec → ListContainers → Tables → List Project → SystemStatus
unfolding add_project
summarize codec list t [] = record { container_count = 0; projects = [] }
summarize codec list t (p ∷ rest) =
    add_project list p.name (list_services codec p.name t) (summarize codec list t rest)

-- `handleSystemStatus` over the tables; that the store fails to list the projects is no case of them.
unfoldable handle_system_status : Codec → ListContainers → Tables → SystemStatus
unfolding summarize
handle_system_status codec list t = summarize codec list t (list_projects t)

-- A running container of a service.
abbrev pub runs : Text → ContainerInfo → Bool
runs k c = text_eq c.state (codes "running") && text_eq (label label_service c.labels) k

-- The map of counts holds, for each service, the number of its running containers.
tally-count_running :
    (k : Text) (cs : List ContainerInfo) (m : Map Text ℕ)
    → tally k (count_running cs m) ≡ count (runs k) cs + tally k m
unfolding count_running
tally-count_running k [] m = omega arith
tally-count_running k (c ∷ cs) m =
    let j = label label_service c.labels in
    ground (
      arith,
      tally-count_running k cs m,
      tally-count_running k cs (put j (suc (tally j m)) m),
      lookup-put j k (suc (tally j m)) m,
      text_eq_iff j k,
    )

derive_status-healthy :
    (desired actual : ℤ)
    → (derive_status desired actual ≡ codes "healthy") ↔ ((actual ≡ desired) × (desired ≢ pos 0))
unfolding derive_status
derive_status-healthy desired actual = ground arith

-- A summary counts a service's running containers. Before a status is persisted, it says "healthy"
-- exactly where as many run as the service desires and it desires some.
pub service_summary-healthy :
    (cs : List ContainerInfo) (svc : Service)
    → svc.status ≡ []
    → ((service_summary (count_running cs []) svc).actual_replicas ≡ pos (count (runs svc.name) cs))
      × (((service_summary (count_running cs []) svc).status ≡ codes "healthy")
          ↔ ((pos (count (runs svc.name) cs) ≡ svc.spec.replicas) × (svc.spec.replicas ≢ pos 0)))
unfolding service_summary service_status derive_status lookup
service_summary-healthy cs svc fresh =
    let counted = tally-count_running svc.name cs [] in
    let same : tally svc.name (count_running cs []) ≡ count (runs svc.name) cs = omega arith in
    rw same
      (rw fresh (refl, derive_status-healthy svc.spec.replicas (pos (count (runs svc.name) cs))))
