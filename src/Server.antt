-- ===== src/Server.antt =====
-- internal/server/handlers.go: the handlers of services and projects over the tables of the store. A
-- request is its path parameters and its body, `none` where the body does not decode; a reply is its
-- status with the code of an error or with what the body encodes.
pub mod Upsert
pub mod Scale
pub mod Isolated
pub mod Requests
pub mod Sent
pub mod Summary
pub mod Host
pub mod Sse
pub mod Logs
use proxa.Prelude.{
  ℕ, Bool, true, false, not, ◌&&◌, ◌||◌, List, [], ◌∷◌, Option, none, some, if◌then◌else◌,
}
use proxa.Prelude.Int.{ℤ, pos, ltb_ℤ}
use proxa.Prelude.Text.{Text, codes, text_eq}
use proxa.Types.{TaskDef, Service, Project}
use proxa.Hash.{Encoding}
use proxa.Parser.{Code}
use proxa.Parser.Store.{RouteLookup, validate_against_store}
use proxa.Store.{
  StoreError, not_found, already_exists, other_error, Result, ok, err, Codec, Tables, put_service,
  get_service, list_services, delete_service, create_project, get_project, list_projects,
}

-- The stable codes of the handlers' own errors; `parser_code` is `errCodeOf` of a validation error.
pub data ErrorCode : Type 0 where
  invalid_body spec_mismatch project_not_found invalid_spec service_not_found store_error invalid
        already_there :
      ErrorCode
  parser_code : Code → ErrorCode

pub data Reply : Type 0 where
  -- `writeJSON` of a service; `none` where the pointer is nil
  service_json : (status : ℕ) → Option Service → Reply
  services_json : (status : ℕ) → List Service → Reply
  project_json : (status : ℕ) → Project → Reply
  projects_json : (status : ℕ) → List Project → Reply
  no_content : Reply
  error : (status : ℕ) → ErrorCode → Reply

-- What a handler leaves: the tables, whether it poked the reconciler, and its reply.
pub record Outcome : Type 0 where
  pub tables : Tables
  pub poked : Bool
  pub reply : Reply

abbrev refuse : Tables → ℕ → ErrorCode → Outcome
refuse t status code = record { tables = t; poked = false; reply = error status code }

abbrev pub service_of : Result Service → Option Service
service_of (ok svc) = some svc
service_of (err e) = none

abbrev pub services_of : Result (List Service) → Option (List Service)
services_of (ok l) = some l
services_of (err e) = none

-- The store as the `RouteLookup` of the parser.
unfoldable pub route_lookup : Codec → Tables → RouteLookup
route_lookup codec t = record {
  list_projects = some (list_projects t);
  list_services = λ p. services_of (list_services codec p t);
}

-- `_ = s.store.CreateProject(...)`: an error is ignored.
abbrev pub tables_or : Tables → Result Tables → Tables
tables_or t (ok u) = u
tables_or t (err e) = t

-- The project of an upsert: it is there, or it is "default" and is created; `none` is a refusal.
pub ensure_project : (now project : Text) → Tables → Result Project → Option Tables
ensure_project now project t (ok p) = some t
ensure_project now project t (err not_found) =
    if text_eq project (codes "default")
    then some (tables_or t (create_project now (codes "default") t))
    else none
ensure_project now project t (err already_exists) = some t
ensure_project now project t (err other_error) = some t

module _ (codec : Codec) (enc : Encoding) (now project name : Text) where
  -- `PutService`, and then the poke and the reply.
  pub finish_upsert : Tables → Result Tables → Outcome
  finish_upsert t (err e) = refuse t 400 invalid_spec
  finish_upsert t (ok u) = record {
    tables = u;
    poked = true;
    reply = service_json 200 (service_of (get_service codec project name u));
  }

  -- From the check of the routes on.
  pub checked_upsert : TaskDef → Tables → Option Code → Outcome
  unfolding finish_upsert
  checked_upsert spec t (some code) = refuse t 400 (parser_code code)
  checked_upsert spec t none = finish_upsert t (
      put_service codec enc now project
        (record { project = project; name = name; spec = spec; status = [] }) t)

  pub ensured_upsert : TaskDef → Tables → Option Tables → Outcome
  unfolding checked_upsert
  ensured_upsert spec t none = refuse t 400 project_not_found
  ensured_upsert spec t (some u) =
      checked_upsert spec u (validate_against_store spec (some (route_lookup codec u)))

  -- `handleUpsertService`
  unfoldable pub handle_upsert_service : Option TaskDef → Tables → Outcome
  unfolding ensured_upsert ensure_project
  handle_upsert_service none t = refuse t 400 invalid_body
  handle_upsert_service (some spec) t =
      if not (text_eq spec.project project) || not (text_eq spec.name name)
      then refuse t 400 spec_mismatch
      else ensured_upsert spec t (ensure_project now project t (get_project project t))

  pub finish_delete : Tables → Result Tables → Outcome
  finish_delete t (err not_found) = refuse t 404 service_not_found
  finish_delete t (err already_exists) = refuse t 500 store_error
  finish_delete t (err other_error) = refuse t 500 store_error
  finish_delete t (ok u) = record { tables = u; poked = true; reply = no_content }

  -- `handleDeleteService`
  unfoldable pub handle_delete_service : Tables → Outcome
  unfolding finish_delete
  handle_delete_service t = finish_delete t (delete_service project name t)

  pub finish_scale : Tables → Result Tables → Outcome
  finish_scale t (err e) = refuse t 500 store_error
  finish_scale t (ok u) = record {
    tables = u;
    poked = true;
    reply = service_json 200 (service_of (get_service codec project name u));
  }

  abbrev pub scaled : ℤ → Service → Service
  scaled replicas svc = record svc { spec = record svc.spec { replicas = replicas } }

  pub found_scale : ℤ → Tables → Result Service → Outcome
  unfolding finish_scale
  found_scale replicas t (err not_found) = refuse t 404 service_not_found
  found_scale replicas t (err already_exists) = refuse t 500 store_error
  found_scale replicas t (err other_error) = refuse t 500 store_error
  found_scale replicas t (ok svc) =
      finish_scale t (put_service codec enc now project (scaled replicas svc) t)

  -- `handleScaleService`
  unfoldable pub handle_scale_service : Option ℤ → Tables → Outcome
  unfolding found_scale
  handle_scale_service none t = refuse t 400 invalid_body
  handle_scale_service (some replicas) t =
      if ltb_ℤ replicas (pos 0)
      then refuse t 400 invalid
      else found_scale replicas t (get_service codec project name t)

  get_reply : Result Service → Reply
  get_reply (ok svc) = service_json 200 (some svc)
  get_reply (err not_found) = error 404 service_not_found
  get_reply (err already_exists) = error 500 store_error
  get_reply (err other_error) = error 500 store_error

  -- `handleGetService`
  unfoldable pub handle_get_service : Tables → Reply
  unfolding get_reply
  handle_get_service t = get_reply (get_service codec project name t)

  list_reply : Result (List Service) → Reply
  list_reply (ok l) = services_json 200 l
  list_reply (err e) = error 500 store_error

  -- `handleListServices`
  unfoldable pub handle_list_services : Tables → Reply
  unfolding list_reply
  handle_list_services t = list_reply (list_services codec project t)

pub created_project : Text → Tables → Result Tables → Outcome
created_project name t (ok u) = record {
  tables = u;
  poked = false;
  reply = project_json 201 (record { name = name });
}
created_project name t (err already_exists) = refuse t 409 already_there
created_project name t (err not_found) = refuse t 400 invalid
created_project name t (err other_error) = refuse t 400 invalid

-- `handleCreateProject`
unfoldable pub handle_create_project : (now : Text) → Option Project → Tables → Outcome
unfolding created_project
handle_create_project now none t = refuse t 400 invalid_body
handle_create_project now (some p) t = created_project p.name t (create_project now p.name t)

-- The requests that change tables, each with its path parameters, its body and the time.
pub data Request : Type 0 where
  upsert_service : (now project name : Text) → Option TaskDef → Request
  scale_service : (now project name : Text) → Option ℤ → Request
  delete_service_request : (now project name : Text) → Request
  create_project_request : (now : Text) → Option Project → Request

unfoldable pub serve : Codec → Encoding → Request → Tables → Outcome
unfolding handle_upsert_service handle_scale_service handle_delete_service handle_create_project
serve codec enc (upsert_service now project name body) t =
    handle_upsert_service codec enc now project name body t
serve codec enc (scale_service now project name body) t =
    handle_scale_service codec enc now project name body t
serve codec enc (delete_service_request now project name) t =
    handle_delete_service codec enc now project name t
serve codec enc (create_project_request now body) t = handle_create_project now body t

-- Requests one after the other.
pub serve_all : Codec → Encoding → List Request → Tables → Tables
unfolding serve
serve_all codec enc [] t = t
serve_all codec enc (r ∷ rest) t = serve_all codec enc rest (serve codec enc r t).tables

-- `handleListProjects`
unfoldable pub handle_list_projects : Tables → Reply
handle_list_projects t = projects_json 200 (list_projects t)
