-- ===== src/Parser/Store.antt =====
-- `ValidateAgainstStore`: the routes of a task definition against those of every other service.
pub mod Isolation
use proxa.Prelude.{
  ◌≡◌, Bool, true, false, not, ◌&&◌, List, [], ◌∷◌, Option, none, some, if◌then◌else◌, is_nil, any,
}
use proxa.Prelude.Text.{Text, text_eq}
use proxa.Types.{TaskDef, Route, Service, Project}
use proxa.Parser.{
  Code, route_conflict, list_projects_failed, list_services_failed, check, first_error, validate,
}

-- `RouteLookup`; `none` is an error of the store.
pub record RouteLookup : Type 0 where
  pub list_projects : Option (List Project)
  pub list_services : Text → Option (List Service)

-- `routesConflict`
unfoldable pub routes_conflict : Route → Route → Text → Text → Bool
routes_conflict a b a_project b_project =
    if not (text_eq a.host b.host)
    then false
    else if not (text_eq a_project b_project)
    then true
    else text_eq a.path b.path

-- The two inner loops, over the routes of one service.
pub conflicts_with : TaskDef → Service → Bool
conflicts_with td svc =
    any (λ existing. any (λ r. routes_conflict r existing td.project svc.project) td.routes)
      svc.spec.routes

-- "Same service being updated."
unfoldable pub is_same_service : TaskDef → Service → Bool
is_same_service td svc = text_eq svc.project td.project && text_eq svc.name td.name

pub check_services : TaskDef → List Service → Option Code
unfolding conflicts_with is_same_service
check_services td [] = none
check_services td (svc ∷ rest) =
    let later = check_services td rest in
    check (not (is_same_service td svc) && conflicts_with td svc) route_conflict later

check_listed : TaskDef → Option (List Service) → Option Code
unfolding check_services
check_listed td none = some list_services_failed
check_listed td (some services) = check_services td services

pub check_projects : TaskDef → RouteLookup → List Project → Option Code
unfolding check_listed
check_projects td store [] = none
check_projects td store (p ∷ rest) =
    let later = check_projects td store rest in
    first_error (check_listed td (store.list_services p.name)) later

check_all : TaskDef → RouteLookup → Option (List Project) → Option Code
unfolding check_projects
check_all td store none = some list_projects_failed
check_all td store (some projects) = check_projects td store projects

check_store : TaskDef → Option RouteLookup → Option Code
unfolding check_all
check_store td none = none
check_store td (some store) =
    if is_nil td.routes then none else check_all td store store.list_projects

-- `ValidateAgainstStore`; the lookup may be nil.
unfoldable pub validate_against_store : TaskDef → Option RouteLookup → Option Code
unfolding check_store
validate_against_store td lookup = first_error (validate td) (check_store td lookup)
