-- ===== src/Tests/Serving.antt =====
-- Examples of the store and of the handlers over it.
use proxa.Prelude.{◌≡◌, refl, true, List, [], ◌∷◌, some, if◌then◌else◌}
use proxa.Prelude.Int.{pos, wrap64}
use proxa.Prelude.Text.{Text, codes, text_eq, is_digit, text_compare}
use proxa.Prelude.Maps.{lookup, put}
use proxa.Types.{TaskDef, Route, zero_task}
use proxa.Store.{
  get_project, list_projects, create_project, list_services, key_eq, ok, Tables, put_service,
  get_service,
}
use proxa.Store.Access.{key_of}
use proxa.Store.Listing.{get_service-ok}
use proxa.Prelude.Sort.{sort}
use proxa.Parser
use proxa.Parser.{
  is_name, validate_health, validate_routes, validate_route, is_hostname, validate_route_path,
  is_cpu, is_memory,
}
use proxa.Parser.Store.{validate_against_store}
use proxa.Security
use proxa.Server.{
  route_lookup, Request, create_project_request, upsert_service, scale_service,
  delete_service_request, serve_all, handle_upsert_service, service_json, error, ErrorCode,
}
use proxa.Server.Upsert.{
  pending_service, handle_upsert_service-stores, handle_upsert_service-refuses,
}
use proxa.Server.Sent.{IsSafe, StoredReadBack}
use proxa.Server.Requests.{serve_all-IsSafe}
use proxa.Tests.Fixtures.{plain}
use proxa.Tests.TaskCodec.{task_codec, task_codec-reads}

abbrev noon : Text
noon = codes "12:00"

abbrev front : Route
front = record { host = codes "a.test"; path = []; l4 = []; port = pos 80; lb_strategy = [] }

abbrev site : TaskDef
site = record zero_task {
  project = codes "default";
  name = codes "web";
  image = codes "web:2";
  replicas = pos 1;
  routes = front ∷ [];
}

abbrev empty : Tables
empty = record { projects = []; services = []; jobs = [] }

empty-IsSafe : IsSafe task_codec empty
empty-IsSafe = (
  record { unique_services = tt; unique_projects = tt; has_project = λ k at. unfold lookup in cc },
  record {
    apart = λ p n q m a b x y ga gb differ mx my host.
        let (row, at, reads, eta) = get_service-ok task_codec p n empty a ga in
        absurd (unfold lookup in cc);
  },
)

abbrev requests : List Request
requests =
    create_project_request noon (some (record { name = codes "shop" }))
    ∷ upsert_service noon (codes "default") (codes "web") (some site)
    ∷ scale_service noon (codes "default") (codes "web") (some (pos 3))
    ∷ delete_service_request noon (codes "shop") (codes "web")
    ∷ []

nothing_stored : StoredReadBack task_codec empty
nothing_stored p n svc g =
    let (row, at, reads, eta) = get_service-ok task_codec p n empty svc g in
    absurd (unfold lookup in cc)

serve_all-IsSafe_example :
    IsSafe task_codec (serve_all task_codec plain requests empty)
    × StoredReadBack task_codec (serve_all task_codec plain requests empty)
unfolding wrap64
serve_all-IsSafe_example =
    serve_all-IsSafe task_codec plain requests empty
      (tt, ((refl, λ n h. task_codec-reads (record site { replicas = n })), (refl, (tt, tt))))
      nothing_stored empty-IsSafe

handle_upsert_service-refuses_example :
    ((handle_upsert_service task_codec plain noon
        (codes "shop")
        (codes "web")
        (some site)
        empty).tables.services
      ≡ [])
    × ((code : ErrorCode) × ((handle_upsert_service task_codec plain noon
            (codes "shop")
            (codes "web")
            (some site)
            empty).reply
          ≡ error 400 code))
unfolding handle_upsert_service
handle_upsert_service-refuses_example =
    handle_upsert_service-refuses task_codec plain noon (codes "shop") (codes "web") (some site)
      empty (unfold text_eq in refl)

site_stored :
    (handle_upsert_service task_codec plain noon
      (codes "default")
      (codes "web")
      (some site)
      empty).poked
    ≡ true
unfolding handle_upsert_service text_eq get_project lookup validate_against_store Parser.validate
    is_name Security.validate validate_health validate_routes validate_route is_hostname
    validate_route_path route_lookup list_projects sort create_project is_cpu is_memory put is_digit
    text_compare list_services put_service
site_stored = refl

handle_upsert_service-stores_example :
    ((handle_upsert_service task_codec plain noon
        (codes "default")
        (codes "web")
        (some site)
        empty).reply
      ≡ service_json 200
          (some (pending_service task_codec plain noon (codes "default") (codes "web") site)))
    × ((p n : Text)
        → get_service task_codec p n
            (handle_upsert_service task_codec plain noon
              (codes "default")
              (codes "web")
              (some site)
              empty).tables
          ≡ (if key_eq (key_of (codes "default") (codes "web")) (key_of p n)
              then ok (pending_service task_codec plain noon (codes "default") (codes "web") site)
              else get_service task_codec p n empty))
handle_upsert_service-stores_example =
    handle_upsert_service-stores task_codec plain noon (codes "default") (codes "web") site empty
      (task_codec-reads site) site_stored
