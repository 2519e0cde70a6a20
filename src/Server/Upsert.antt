-- ===== src/Server/Upsert.antt =====
-- What the handlers that change services leave, on every branch.
use mathlib.Core.Option.{some_inj}
use proxa.Prelude.{
  ◌≡◌, ◌⊎◌, inl, inr, refl, sym, ap, ◌∙◌, true, false, not, ◌||◌, [], Option, none, some,
  if◌then◌else◌, arith, Bool-cases,
}
use proxa.Prelude.Text.{Text, text_eq, text_eq_iff, codes}
use proxa.Types.{TaskDef, Service, Project}
use proxa.Types.Status
use proxa.Hash.{Encoding}
use proxa.Parser.{Code}
use proxa.Parser.Store.{validate_against_store}
use proxa.Store.{
  not_found, already_exists, other_error, Result, ok, err, Codec, Tables, key_eq, key_eq_iff,
  put_service, get_service, create_project, get_project,
}
use proxa.Store.Access.{key_of, create_project-ok, get_service-put_service}
use proxa.Server.{
  ErrorCode, service_json, error, Outcome, service_of, route_lookup, tables_or, ensure_project,
  finish_upsert, checked_upsert, ensured_upsert, handle_upsert_service,
}

-- The tables once the project of an upsert is there: as before, or with a project "default".
abbrev pub Ensured : (now : Text) → Tables → Tables → Type 0
Ensured now t u = (u ≡ t) ⊎ (create_project now (codes "default") t ≡ ok u)

pub Ensured-services : (now : Text) (t u : Tables) → Ensured now t u → u.services ≡ t.services
Ensured-services now t u (inl same) = ap (λ (v : Tables). v.services) same
Ensured-services now t u (inr created) =
    ap (λ (v : Tables). v.services) (create_project-ok now (codes "default") t u created)

tables_or-Ensured :
    (now : Text) (t : Tables) (r : Result Tables)
    → create_project now (codes "default") t ≡ r
    → Ensured now t (tables_or t r)
tables_or-Ensured now t (err e) h = inl refl
tables_or-Ensured now t (ok u) h = inr h

ensure_project-Ensured :
    (now project : Text) (t u : Tables) (r : Result Project)
    → ensure_project now project t r ≡ some u
    → Ensured now t u
unfolding ensure_project
ensure_project-Ensured now project t u (ok p) h = inl (sym (some_inj.0 h))
ensure_project-Ensured now project t u (err already_exists) h = inl (sym (some_inj.0 h))
ensure_project-Ensured now project t u (err other_error) h = inl (sym (some_inj.0 h))
ensure_project-Ensured now project t u (err not_found) h =
    elim (Bool-cases (text_eq project (codes "default"))) [
      | inl is_default ↦
          let same : tables_or t (create_project now (codes "default") t) ≡ u =
            some_inj.0 (rw is_default at h) in
          rw (← same) (tables_or-Ensured now t (create_project now (codes "default") t) refl)
      | inr other ↦ cc (rw other at h)
    ]

pub get-same_services :
    (codec : Codec) (p n : Text) (t u : Tables)
    → u.services ≡ t.services
    → get_service codec p n u ≡ get_service codec p n t
unfolding get_service
get-same_services codec p n t u e = rw e refl

module _ (codec : Codec) (enc : Encoding) (now project name : Text) where
  abbrev pub new_service : TaskDef → Service
  new_service spec = record { project = project; name = name; spec = spec; status = [] }

  -- A request that was refused: no service has changed, and the reconciler was not poked.
  abbrev pub Refused : Tables → Outcome → Type 0
  Refused t o =
      (o.poked ≡ false) × Ensured now t o.tables × ((code : ErrorCode) × (o.reply ≡ error 400 code))

  -- An upsert that was accepted; `u` are the tables in which the project is there.
  abbrev pub Accepted : TaskDef → Tables → Outcome → Type 0
  Accepted spec t o =
      (u : Tables) × Ensured now t u
      × (spec.project ≡ project)
      × (spec.name ≡ name)
      × (validate_against_store spec (some (route_lookup codec u)) ≡ none)
      × (put_service codec enc now project (new_service spec) u ≡ ok o.tables)
      × (o.poked ≡ true)
      × (o.reply ≡ service_json 200 (service_of (get_service codec project name o.tables)))

  after_check :
      (spec : TaskDef) (t u : Tables) (c : Option Code) (r : Result Tables)
      → Ensured now t u
      → spec.project ≡ project
      → spec.name ≡ name
      → validate_against_store spec (some (route_lookup codec u)) ≡ c
      → put_service codec enc now project (new_service spec) u ≡ r
      → Refused t (checked_upsert codec enc now project name spec u c)
        ⊎ Accepted spec t (checked_upsert codec enc now project name spec u c)
  unfolding checked_upsert finish_upsert
  after_check spec t u (some code) r s p n v e = inl (refl, s, (_, refl))
  after_check spec t u none (err x) s p n v e = rw e (inl (refl, s, (_, refl)))
  after_check spec t u none (ok w) s p n v e = rw e (inr (u, s, p, n, v, e, refl, refl))

  after_ensure :
      (spec : TaskDef) (t : Tables) (o : Option Tables)
      → ensure_project now project t (get_project project t) ≡ o
      → spec.project ≡ project
      → spec.name ≡ name
      → Refused t (ensured_upsert codec enc now project name spec t o)
        ⊎ Accepted spec t (ensured_upsert codec enc now project name spec t o)
  unfolding ensured_upsert
  after_ensure spec t none e p n = inl (refl, inl refl, (_, refl))
  after_ensure spec t (some u) e p n =
      after_check spec t u _ _ (ensure_project-Ensured now project t u (get_project project t) e) p
        n refl refl

  pub upsert-cases :
      (spec : TaskDef) (t : Tables)
      → Refused t (handle_upsert_service codec enc now project name (some spec) t)
        ⊎ Accepted spec t (handle_upsert_service codec enc now project name (some spec) t)
  unfolding handle_upsert_service
  upsert-cases spec t =
      elim (Bool-cases (not (text_eq spec.project project) || not (text_eq spec.name name))) [
        | inl mismatch ↦ rw mismatch (inl (refl, inl refl, (_, refl)))
        | inr same ↦ rw same (
            after_ensure spec t _ refl ((text_eq_iff spec.project project).0 (ground (arith, same)))
              ((text_eq_iff spec.name name).0 (ground (arith, same))))
      ]

  -- The service as an upsert leaves it: its status starts again at "pending".
  abbrev pub pending_service : TaskDef → Service
  pending_service spec = record (new_service spec) { status = Status.pending }

  -- An upsert that pokes the reconciler has stored the specification: the reply and every later read are
  -- the service with it and the status "pending", and all other services are as before, where JSON reads
  -- the specification back.
  pub handle_upsert_service-stores :
      (spec : TaskDef) (t : Tables)
      → codec.read (codec.write spec) ≡ some spec
      → (handle_upsert_service codec enc now project name (some spec) t).poked ≡ true
      → ((handle_upsert_service codec enc now project name (some spec) t).reply
          ≡ service_json 200 (some (pending_service spec)))
        × ((p n : Text)
            → get_service codec p n
                (handle_upsert_service codec enc now project name (some spec) t).tables
              ≡ (if key_eq (key_of project name) (key_of p n)
                  then ok (pending_service spec)
                  else get_service codec p n t))
  handle_upsert_service-stores spec t r h = elim (upsert-cases spec t) [
    | inl (unpoked, same, refused) ↦ cc (unpoked, h)
    | inr (u, same, sp, sn, v, e, poked, reply) ↦
        let o = handle_upsert_service codec enc now project name (some spec) t in
        let reads : (p n : Text)
            → get_service codec p n o.tables ≡ (
                if key_eq (key_of project name) (key_of p n)
                then ok (pending_service spec)
                else get_service codec p n t) =
          λ p n.
            get_service-put_service codec enc now project (new_service spec) u o.tables p n r e
            ∙ rw (get-same_services codec p n t u (Ensured-services now t u same)) refl in
        let own : get_service codec project name o.tables ≡ ok (pending_service spec) =
          reads project name
          ∙ rw ((key_eq_iff (key_of project name) (key_of project name)).1 refl) refl in
        (reply ∙ ap (λ x. service_json 200 (service_of x)) own, reads)
  ]

  -- An upsert that does not poke the reconciler is answered with status 400 and has changed no service.
  pub handle_upsert_service-refuses :
      (body : Option TaskDef) (t : Tables)
      → (handle_upsert_service codec enc now project name body t).poked ≡ false
      → ((handle_upsert_service codec enc now project name body t).tables.services ≡ t.services)
        × ((code : ErrorCode) × ((handle_upsert_service codec enc now project name body t).reply
              ≡ error 400 code))
  handle_upsert_service-refuses none t h = unfold handle_upsert_service in (refl, (_, refl))
  handle_upsert_service-refuses (some spec) t h = elim (upsert-cases spec t) [
    | inl (unpoked, same, reply) ↦ (Ensured-services now t _ same, reply)
    | inr (u, same, sp, sn, v, e, poked, reply) ↦ cc (poked, h)
  ]
