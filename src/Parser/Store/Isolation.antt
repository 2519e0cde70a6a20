-- ===== src/Parser/Store/Isolation.antt =====
-- What a task definition that passed against the store cannot do to the other services.
use proxa.Prelude.{
  not_any, ◌≡◌, ◌≢◌, refl, sym, ap, ◌∙◌, false, List, [], ◌∷◌, none, some, is_nil, arith, Memᴰ, any,
  Option-cases, inl, inr,
}
use proxa.Prelude.Text.{Text, text_eq_iff}
use proxa.Types.{TaskDef, Route, Service, Project}
use proxa.Parser.Store.{
  RouteLookup, routes_conflict, conflicts_with, is_same_service, check_services, check_listed,
  check_projects, check_all, check_store, validate_against_store,
}

services_clear :
    (td : TaskDef) (l : List Service) (svc : Service)
    → check_services td l ≡ none
    → Memᴰ svc l
    → is_same_service td svc ≡ false
    → conflicts_with td svc ≡ false
unfolding check_services
services_clear td [] svc h m other = elim m [ ]
services_clear td (x ∷ l) svc h (Memᴰ.head e) other = rw e (ground (arith, rw e at other))
services_clear td (x ∷ l) svc h (Memᴰ.tail m) other = services_clear td l svc (ground arith) m other

projects_clear :
    (td : TaskDef) (store : RouteLookup) (l : List Project) (p : Project) (services : List Service)
    → check_projects td store l ≡ none
    → Memᴰ p l
    → store.list_services p.name ≡ some services
    → check_services td services ≡ none
unfolding check_projects check_listed
projects_clear td store [] p services h m at = elim m [ ]
projects_clear td store (x ∷ l) p services h (Memᴰ.head e) at =
    let here : store.list_services x.name ≡ some services =
      sym (ap (λ (q : Project). store.list_services q.name) e) ∙ at in
    ground (arith, rw here at h)
projects_clear td store (x ∷ l) p services h (Memᴰ.tail m) at =
    projects_clear td store l p services (ground arith) m at

not_nil : {A : Type 0} (x : A) (l : List A) → Memᴰ x l → is_nil l ≡ false
not_nil x [] m = elim m [ ]
not_nil x (y ∷ l) m = refl

pair_clear :
    (td : TaskDef) (svc : Service) (r e : Route)
    → conflicts_with td svc ≡ false
    → Memᴰ r td.routes
    → Memᴰ e svc.spec.routes
    → routes_conflict r e td.project svc.project ≡ false
unfolding conflicts_with
pair_clear td svc r e h m k =
    not_any (λ x. routes_conflict x e td.project svc.project) r td.routes
      (not_any (λ y. any (λ x. routes_conflict x y td.project svc.project) td.routes) e
        svc.spec.routes h k)
      m

no_conflict :
    (r e : Route) (p q : Text)
    → routes_conflict r e p q ≡ false
    → r.host ≡ e.host
    → (q ≡ p) × (r.path ≢ e.path)
unfolding routes_conflict
no_conflict r e p q h same = (
  ground (arith, text_eq_iff r.host e.host, text_eq_iff p q),
  λ path. ground (arith, text_eq_iff r.host e.host, text_eq_iff p q, text_eq_iff r.path e.path),
)

store_clear :
    (td : TaskDef) (store : RouteLookup) (projects : List Project) (r : Route)
    → validate_against_store td (some store) ≡ none
    → store.list_projects ≡ some projects
    → Memᴰ r td.routes
    → check_projects td store projects ≡ none
unfolding validate_against_store check_store check_all
store_clear td store projects r h at m =
    let some_route = not_nil r td.routes m in ground (arith, some_route, rw (some_route, at) at h)

-- A task definition that passes against the store shares a host of its routes with a route of another
-- service only if that service is of the same project and the paths differ.
pub validate_against_store-isolates :
    (td : TaskDef) (store : RouteLookup) (projects : List Project) (p : Project)
    (services : List Service) (svc : Service) (r e : Route)
    → validate_against_store td (some store) ≡ none
    → store.list_projects ≡ some projects
    → Memᴰ p projects
    → store.list_services p.name ≡ some services
    → Memᴰ svc services
    → is_same_service td svc ≡ false
    → Memᴰ r td.routes
    → Memᴰ e svc.spec.routes
    → r.host ≡ e.host
    → (svc.project ≡ td.project) × (r.path ≢ e.path)
validate_against_store-isolates td store projects p services svc r e h ps mp ss ms other mr me
      host =
    let listed =
      projects_clear td store projects p services (store_clear td store projects r h ps mr) mp ss in
    let clear = services_clear td services svc listed ms other in
    no_conflict r e td.project svc.project (pair_clear td svc r e clear mr me) host

services_listed :
    (td : TaskDef) (store : RouteLookup) (l : List Project) (p : Project)
    → check_projects td store l ≡ none
    → Memᴰ p l
    → (services : List Service) × (store.list_services p.name ≡ some services)
unfolding check_projects check_listed
services_listed td store [] p h m = elim m [ ]
services_listed td store (x ∷ l) p h (Memᴰ.tail m) = services_listed td store l p (ground arith) m
services_listed td store (x ∷ l) p h (Memᴰ.head e) =
    elim (Option-cases (store.list_services x.name)) [
      | inl failed ↦ cc (rw failed at h)
      | inr (services, at) ↦ (services, ap (λ (q : Project). store.list_services q.name) e ∙ at)
    ]

-- A task definition with a route passes only if the services of every project were listed.
pub validate_against_store-lists :
    (td : TaskDef) (store : RouteLookup) (projects : List Project) (p : Project) (r : Route)
    → validate_against_store td (some store) ≡ none
    → store.list_projects ≡ some projects
    → Memᴰ p projects
    → Memᴰ r td.routes
    → (services : List Service) × (store.list_services p.name ≡ some services)
validate_against_store-lists td store projects p r h ps mp mr =
    services_listed td store projects p (store_clear td store projects r h ps mr) mp
