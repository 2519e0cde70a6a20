-- ===== src/Tests/Parsing.antt =====
-- Examples of the validation of task definitions.
use proxa.Prelude.{◌≡◌, ◌≢◌, ◌↔◌, refl, [], ◌∷◌, false, none, some, Memᴰ}
use proxa.Prelude.Int.{pos}
use proxa.Prelude.Text.{codes, text_eq}
use proxa.Types.{TaskDef, Route, Service, Project}
use proxa.Parser.{
  validate, validate_routes, is_name, is_hostname, validate_route, validate_route_path,
  validate_health,
}
use proxa.Parser.Routes.{AllValid, validate_routes-iff-AllValid}
use proxa.Parser.Store.{RouteLookup, validate_against_store, is_same_service, routes_conflict}
use proxa.Parser.Store.Isolation.{validate_against_store-isolates}
use proxa.Security
use proxa.Tests.Fixtures.{web_task}

abbrev front : Route
front = record {
  host = codes "a.io";
  path = codes "/v1/*";
  l4 = [];
  port = pos 0;
  lb_strategy = [];
}

abbrev catch_all : Route
catch_all = record front { path = [] }

validate_routes-iff-AllValid_example :
    (validate_routes (front ∷ catch_all ∷ []) ≡ none) ↔ AllValid (front ∷ catch_all ∷ [])
validate_routes-iff-AllValid_example = validate_routes-iff-AllValid (front ∷ catch_all ∷ [])

abbrev routed : TaskDef
routed = record web_task { routes = front ∷ []; health = record web_task.health { port = pos 80 } }

abbrev api : Service
api = record {
  project = codes "shop";
  name = codes "api";
  spec = record web_task { routes = catch_all ∷ [] };
  status = [];
}

abbrev shop : Project
shop = record { name = codes "shop" }

abbrev store : RouteLookup
store = record { list_projects = some (shop ∷ []); list_services = λ p. some (api ∷ []) }

passes : validate_against_store routed (some store) ≡ none
unfolding validate_against_store validate is_name text_eq Security.validate validate_health
    validate_routes validate_route is_hostname validate_route_path routes_conflict
passes = refl

another : is_same_service routed api ≡ false
unfolding is_same_service text_eq
another = refl

validate_against_store-isolates_example : (codes "shop" ≡ codes "shop") × (codes "/v1/*" ≢ [])
validate_against_store-isolates_example =
    validate_against_store-isolates routed store (shop ∷ []) shop (api ∷ []) api front catch_all
      passes refl (Memᴰ.head refl) refl (Memᴰ.head refl) another (Memᴰ.head refl) (Memᴰ.head refl)
      refl
