-- ===== src/Store.antt =====
-- internal/store/sqlite/services.go and projects.go: the tables of projects and services. A statement on
-- the database is a function on the tables; failures of the database itself are left out.
pub mod Access
pub mod Consistent
pub mod Listing
pub mod Watch
use proxa.Prelude.{
  ◌≡◌, ◌↔◌, Bool, true, false, ◌&&◌, ◌||◌, not, List, [], ◌∷◌, Option, none, some, if◌then◌else◌,
  is_nil, any, filter, map, arith, Ordering,
}
use proxa.Prelude.Text.{Text, text_eq, text_eq_iff, text_compare}
use proxa.Prelude.Maps.{Map, Eq, lookup, put, remove, text-Eq}
use proxa.Prelude.Sort.{sort}
use proxa.Types.{TaskDef, Service, Project}
use proxa.Types.Status
use proxa.Hash.{Encoding, hash}
use proxa.Parser.{is_name}

-- `store.ErrNotFound`, `store.ErrAlreadyExists`, and every other error.
pub data StoreError : Type 0 where
  not_found already_exists other_error : StoreError

pub data Result {ℓ} (A : Type ℓ) : Type ℓ where
  ok : A → Result A
  err : StoreError → Result A

-- What `json.Marshal` writes of a specification, and what `json.Unmarshal` reads.
pub record Codec : Type 0 where
  pub write : TaskDef → Text
  pub read : Text → Option TaskDef

-- The primary key of a service.
pub record Key : Type 0 where
  pub project : Text
  pub name : Text

unfoldable pub key_eq : Key → Key → Bool
key_eq a b = text_eq a.project b.project && text_eq a.name b.name

pub key_eq_iff : (a b : Key) → (key_eq a b ≡ true) ↔ (a ≡ b)
unfolding key_eq
key_eq_iff a b = ground (arith, text_eq_iff a.project b.project, text_eq_iff a.name b.name)

instance abbrev pub key-Eq : Eq Key
key-Eq = record { beq = key_eq; beq_iff = key_eq_iff }

-- A row of `services`, without its ID, its creation time, its replicas and its history.
pub record Row : Type 0 where
  pub spec_json : Text
  pub spec_hash : Text
  pub status : Text
  pub updated_at : Text

-- The tables; `projects` holds the time of creation, `jobs` the projects that the rows of jobs name.
pub record Tables : Type 0 where
  pub projects : Map Text Text
  pub services : Map Key Row
  pub jobs : List Text

abbrev pub is_there {ℓ} : {A : Type ℓ} → Option A → Bool
is_there none = false
is_there (some a) = true

abbrev pub status_or_pending : Text → Text
status_or_pending status = if is_nil status then Status.pending else status

pub row_of : Codec → Encoding → (now : Text) → Service → Row
row_of codec enc now svc = record {
  spec_json = codec.write svc.spec;
  spec_hash = hash enc svc.spec;
  status = status_or_pending svc.status;
  updated_at = now;
}

-- `PutService`; the row references its project.
unfoldable pub put_service :
    Codec → Encoding → (now : Text) → (project : Text) → Service → Tables → Result Tables
unfolding row_of
put_service codec enc now project svc t =
    if is_nil project
    then err other_error
    else if not (text_eq svc.project project) || is_nil svc.name
    then err other_error
    else if is_there (lookup project t.projects)
    then ok (record t {
      services =
          put (record { project = project; name = svc.name }) (row_of codec enc now svc) t.services;
    })
    else err other_error

pub decoded : Key → Text → Option TaskDef → Result Service
decoded k status none = err other_error
decoded k status (some spec) =
    ok (record { project = k.project; name = k.name; spec = spec; status = status })

-- `scanService`
pub scan_service : Codec → Key → Row → Result Service
unfolding decoded
scan_service codec k row = decoded k row.status (codec.read row.spec_json)

pub scan_found : Codec → Key → Option Row → Result Service
unfolding scan_service
scan_found codec k none = err not_found
scan_found codec k (some row) = scan_service codec k row

-- `GetService`
unfoldable pub get_service : Codec → (project name : Text) → Tables → Result Service
unfolding scan_found
get_service codec project name t =
    if is_nil project
    then err other_error
    else let k : Key = record { project = project; name = name } in
      scan_found codec k (lookup k t.services)

abbrev pub cons_ok {ℓ} : {A : Type ℓ} → Result A → Result (List A) → Result (List A)
cons_ok (err e) rest = err e
cons_ok (ok a) (err e) = err e
cons_ok (ok a) (ok l) = ok (a ∷ l)

-- The loop over the rows; the first that does not scan is an error.
pub scan_all : Codec → List (Key × Row) → Result (List Service)
scan_all codec [] = ok []
scan_all codec ((k, row) ∷ rest) =
    let later = scan_all codec rest in cons_ok (scan_service codec k row) later

abbrev pub in_project : Text → Key × Row → Bool
in_project project (k, row) = text_eq k.project project

abbrev pub by_name : Key × Row → Key × Row → Ordering
by_name (j, r) (k, s) = text_compare j.name k.name

-- `ListServices`
unfoldable pub list_services : Codec → (project : Text) → Tables → Result (List Service)
unfolding scan_all
list_services codec project t =
    if is_nil project
    then err other_error
    else scan_all codec (sort by_name (filter (in_project project) t.services))

-- `DeleteService`
unfoldable pub delete_service : (project name : Text) → Tables → Result Tables
delete_service project name t =
    if is_nil project
    then err other_error
    else let k : Key = record { project = project; name = name } in
      if is_there (lookup k t.services)
      then ok (record t { services = remove k t.services })
      else err not_found

-- `CreateProject`
unfoldable pub create_project : (now : Text) → (name : Text) → Tables → Result Tables
create_project now name t =
    if not (is_name name)
    then err other_error
    else if is_there (lookup name t.projects)
    then err already_exists
    else ok (record t { projects = put name now t.projects })

abbrev found_project : Text → Option Text → Result Project
found_project name none = err not_found
found_project name (some created) = ok (record { name = name })

-- `GetProject`
unfoldable pub get_project : (name : Text) → Tables → Result Project
get_project name t = found_project name (lookup name t.projects)

-- `ListProjects`
unfoldable pub list_projects : Tables → List Project
list_projects t =
    map (λ (p : Text × Text). record { name = p.0 })
      (sort (λ (p q : Text × Text). text_compare p.0 q.0) t.projects)

-- `DeleteProject`: the rows of services and jobs restrict it.
unfoldable pub delete_project : (name : Text) → Tables → Result Tables
delete_project name t =
    if any (in_project name) t.services || any (λ p. text_eq p name) t.jobs
    then err other_error
    else if is_there (lookup name t.projects)
    then ok (record t { projects = remove name t.projects })
    else err not_found
