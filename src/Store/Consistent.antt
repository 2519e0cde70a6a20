-- ===== src/Store/Consistent.antt =====
-- The tables stay consistent: keys are unique and every service has its project.
use proxa.Prelude.{not_any, ◌≡◌, inl, inr, true, false, ◌||◌, any, arith, Bool-cases, Option-cases}
use proxa.Prelude.Text.{Text, text_eq, text_eq_iff}
use proxa.Prelude.Maps.{lookup, remove, lookup-put, lookup-remove, text-Eq}
use proxa.Prelude.Maps.Keys.{IsDistinct, put-IsDistinct, remove-IsDistinct, mem_of_lookup}
use proxa.Types.{Service}
use proxa.Hash.{Encoding}
use proxa.Store.{
  ok, Codec, Key, key_eq, key_eq_iff, key-Eq, Tables, is_there, row_of, put_service, delete_service,
  create_project, delete_project, in_project,
}
use proxa.Store.Access.{key_of, past, reached, put_service-ok, delete_service-ok, create_project-ok}

-- An operation on the tables that succeeded.
pub data Step (codec : Codec) (enc : Encoding) (t u : Tables) : Type 0 where
  put_step :
      (now project : Text) (svc : Service)
      → put_service codec enc now project svc t ≡ ok u
      → Step codec enc t u
  delete_step : (project name : Text) → delete_service project name t ≡ ok u → Step codec enc t u
  create_step : (now name : Text) → create_project now name t ≡ ok u → Step codec enc t u
  drop_step : (name : Text) → delete_project name t ≡ ok u → Step codec enc t u

pub record IsConsistent (t : Tables) : Type 0 where
  pub unique_services : IsDistinct t.services
  pub unique_projects : IsDistinct t.projects
  pub has_project :
      (k : Key)
      → is_there (lookup k t.services) ≡ true
      → is_there (lookup k.project t.projects) ≡ true

delete_project-ok :
    (name : Text) (t u : Tables)
    → delete_project name t ≡ ok u
    → (any (in_project name) t.services ≡ false)
      × (u ≡ record t { projects = remove name t.projects })
unfolding delete_project
delete_project-ok name t u h =
    let (unused, h1) =
      past (any (in_project name) t.services || any (λ p. text_eq p name) t.jobs) _ h in
    let (there, done) = reached (is_there (lookup name t.projects)) _ h1 in
    (ground (arith, unused), done)

module _ {t u : Tables} (c : IsConsistent t) where
  put-IsConsistent :
      (codec : Codec) (enc : Encoding) (now project : Text) (svc : Service)
      → put_service codec enc now project svc t ≡ ok u
      → IsConsistent u
  put-IsConsistent codec enc now project svc h =
      let (named, there, same, name, done) = put_service-ok codec enc now project svc t u h in
      let k = key_of project svc.name in
      let row = row_of codec enc now svc in
      rw done (record {
        unique_services = put-IsDistinct k row t.services c.unique_services;
        unique_projects = c.unique_projects;
        has_project = λ j at. elim (Bool-cases (key_eq k j)) [
          | inl here ↦ rw (← ((key_eq_iff k j).0 here)) there
          | inr other ↦ c.has_project j (rw (lookup-put k j row t.services, other) at at)
        ];
      })

  delete-IsConsistent :
      (project name : Text) → delete_service project name t ≡ ok u → IsConsistent u
  delete-IsConsistent project name h =
      let (named, there, done) = delete_service-ok project name t u h in
      let k = key_of project name in
      rw done (record {
        unique_services = remove-IsDistinct k t.services c.unique_services;
        unique_projects = c.unique_projects;
        has_project = λ j at. elim (Bool-cases (key_eq k j)) [
          | inl here ↦ cc (rw (lookup-remove k j t.services, here) at at)
          | inr other ↦ c.has_project j (rw (lookup-remove k j t.services, other) at at)
        ];
      })

  create-IsConsistent : (now name : Text) → create_project now name t ≡ ok u → IsConsistent u
  create-IsConsistent now name h = rw (create_project-ok now name t u h) (record {
    unique_services = c.unique_services;
    unique_projects = put-IsDistinct name now t.projects c.unique_projects;
    has_project =
        λ j at. rw (lookup-put name j.project now t.projects) (ground (arith, c.has_project j at));
  })

  drop-IsConsistent : (name : Text) → delete_project name t ≡ ok u → IsConsistent u
  drop-IsConsistent name h =
      let (unused, done) = delete_project-ok name t u h in
      rw done (record {
        unique_services = c.unique_services;
        unique_projects = remove-IsDistinct name t.projects c.unique_projects;
        has_project = λ j at. elim (Option-cases (lookup j t.services)) [
          | inl none_there ↦ cc (rw none_there at at)
          | inr (row, found) ↦
              let clear =
                not_any (in_project name) (j, row) t.services unused
                  (mem_of_lookup j row t.services found) in
              rw (lookup-remove name j.project t.projects) (
                ground (
                  arith,
                  clear,
                  text_eq_iff j.project name,
                  text_eq_iff name j.project,
                  c.has_project j at,
                ))
        ];
      })

-- Every operation that succeeds keeps the keys of services and of projects unique and leaves no service
-- without its project.
pub Step-IsConsistent :
    (codec : Codec) (enc : Encoding) (t u : Tables)
    → Step codec enc t u
    → IsConsistent t
    → IsConsistent u
Step-IsConsistent codec enc t u (put_step now project svc h) c =
    put-IsConsistent c codec enc now project svc h
Step-IsConsistent codec enc t u (delete_step project name h) c =
    delete-IsConsistent c project name h
Step-IsConsistent codec enc t u (create_step now name h) c = create-IsConsistent c now name h
Step-IsConsistent codec enc t u (drop_step name h) c = drop-IsConsistent c name h
