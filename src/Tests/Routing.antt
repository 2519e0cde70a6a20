-- ===== src/Tests/Routing.antt =====
-- Examples of the routing table, the forwarders and the rotation of backends.
use proxa.Prelude.{
  ◌≡◌, ◌≢◌, refl, List, [], ◌∷◌, inr, Bool, true, false, none, some, Memᴰ, ◌%◌, get_elem?, length,
  arith,
}
use proxa.Prelude.Int.{pos}
use proxa.Prelude.Text.{Text, codes, text_eq}
use proxa.Prelude.Maps.{lookup, put}
use proxa.Types.{Route}
use proxa.Ingress.{ServiceId, L4Key, L4Route, Backend, l4-Eq, l4_eq}
use proxa.Ingress.Router.{Router, build_router, lookup_l7, l4_key, hp_eq, compare_routes}
use proxa.Prelude.Sort.{sort}
use proxa.Ingress.Router.Clashes.{Entry, no_clash}
use proxa.Ingress.Router.Conflicts.{is_built, build_router-is_built}
use proxa.Ingress.Router.Isolation.{build_router-isolates}
use proxa.Ingress.Router.Lookup.{IsBest, lookup_l7-IsBest}
use proxa.Ingress.Forwarders.{Controller, update_routes}
use proxa.Ingress.Pool.{BackendPool, pick, healthy}
use proxa.Ingress.Pool.Rotation.{pool_after, round_robin, pick-rotates}

abbrev web_id : ServiceId
web_id = record { project = codes "shop"; service = codes "web" }

abbrev api_id : ServiceId
api_id = record { project = codes "shop"; service = codes "api" }

abbrev http : Text → Route
http path = record { host = codes "a.io"; path = path; l4 = []; port = pos 0; lb_strategy = [] }

abbrev tcp : Route
tcp = record { host = []; path = []; l4 = codes "tcp"; port = pos 5432; lb_strategy = [] }

abbrev routes : List Entry
routes = (web_id, http []) ∷ (api_id, http (codes "/v1/*")) ∷ []

build_router-is_built_example : is_built (build_router routes) ≡ no_clash routes
build_router-is_built_example = build_router-is_built routes

abbrev table_of_routes : Router
table_of_routes = record {
  l7_routes =
      (record {
        project = codes "shop";
        host = codes "a.io";
        path_glob = codes "/v1/*";
        service = api_id;
        lb = [];
      })
      ∷ (record {
        project = codes "shop";
        host = codes "a.io";
        path_glob = [];
        service = web_id;
        lb = [];
      })
      ∷ [];
  l4_routes = [];
}

built : build_router routes ≡ inr table_of_routes
unfolding build_router lookup put text_eq hp_eq sort compare_routes
built = refl

build_router-isolates_example : codes "shop" ≡ codes "shop"
build_router-isolates_example =
    build_router-isolates routes table_of_routes web_id api_id (http []) (http (codes "/v1/*"))
      built (Memᴰ.head refl) (Memᴰ.tail (Memᴰ.head refl)) refl refl refl

lookup_l7-IsBest_example :
    IsBest table_of_routes.l7_routes
      (codes "a.io")
      (codes "/v1/x")
      (lookup_l7 (some table_of_routes) (codes "a.io") (codes "/v1/x"))
lookup_l7-IsBest_example =
    lookup_l7-IsBest routes table_of_routes (codes "a.io") (codes "/v1/x") built

-- The port has a forwarder to `web`, and the new routes give it to `api`.
abbrev db_key : L4Key
db_key = record { proto = codes "tcp"; port = pos 5432 }

abbrev to_web : L4Route
to_web = record { project = codes "shop"; service = web_id; lb = [] }

abbrev serving : Controller
serving = record {
  router = none;
  allowed_host = [];
  running = true;
  forwarders = (db_key, to_web) ∷ [];
}

abbrev moved : List Entry
moved = (api_id, tcp) ∷ []

moved_accepted : (update_routes moved serving).0 ≡ none
unfolding update_routes build_router lookup
moved_accepted = refl

abbrev doubled : List Entry
doubled = (web_id, tcp) ∷ (api_id, tcp) ∷ []

doubled_clash : no_clash doubled ≡ false
unfolding l4_eq text_eq l4_key
doubled_clash = refl

abbrev backend : Text → Bool → Backend
backend id ok = record { container_id = id; ip_address = []; port = pos 80; healthy = ok }

abbrev pool : BackendPool
pool = record {
  backends = backend (codes "x") true ∷ backend (codes "y") false ∷ backend (codes "z") true ∷ [];
  cursor = 7;
}

two_healthy : length (healthy pool) ≢ 0
unfolding healthy
two_healthy e = omega (arith, e)

pick-rotates_example :
    (pick (λ n. 0) round_robin (pool_after (λ n. 0) 3 pool)).0
    ≡ get_elem? (healthy pool) (10 % length (healthy pool))
pick-rotates_example = pick-rotates (λ n. 0) 3 pool two_healthy (omega arith)
