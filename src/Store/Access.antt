-- ===== src/Store/Access.antt =====
-- What `GetService` reads after each operation on the services.
use proxa.Prelude.{
  ◌≡◌, inl, inr, refl, ap, Bool, true, false, not, ◌||◌, some, if◌then◌else◌, is_nil, arith,
  Bool-cases,
}
use proxa.Prelude.Text.{Text, text_eq, text_eq_iff}
use proxa.Prelude.Maps.{lookup, put, remove, lookup-put, lookup-remove, text-Eq}
use proxa.Types.{Service}
use proxa.Hash.{Encoding}
use proxa.Parser.{is_name}
use proxa.Store.{
  StoreError, Result, ok, err, not_found, Codec, Key, key_eq, key_eq_iff, key-Eq, Tables, is_there,
  status_or_pending, row_of, put_service, decoded, scan_service, scan_found, get_service,
  delete_service, create_project,
}

abbrev pub key_of : Text → Text → Key
key_of project name = record { project = project; name = name }

module _ {ℓ} {A : Type ℓ} where
  -- A guard that was passed, and a test that led to success.
  pub past :
      (b : Bool) (e : StoreError) {r : Result A} {a : A}
      → (if b then err e else r) ≡ ok a
      → (b ≡ false) × (r ≡ ok a)
  past true e h = cc
  past false e h = (refl, h)

  pub reached :
      (b : Bool) (e : StoreError) {x a : A}
      → (if b then ok x else err e) ≡ ok a
      → (b ≡ true) × (a ≡ x)
  reached true e h = (refl, cc)
  reached false e h = cc

-- What a successful `PutService` did.
pub put_service-ok :
    (codec : Codec) (enc : Encoding) (now project : Text) (svc : Service) (t u : Tables)
    → put_service codec enc now project svc t ≡ ok u
    → (is_nil project ≡ false)
      × (is_there (lookup project t.projects) ≡ true)
      × (svc.project ≡ project)
      × (is_nil svc.name ≡ false)
      × (u ≡ record t {
        services = put (key_of project svc.name) (row_of codec enc now svc) t.services;
      })
unfolding put_service
put_service-ok codec enc now project svc t u h =
    let (named, h1) = past (is_nil project) _ h in
    let (same, h2) = past (not (text_eq svc.project project) || is_nil svc.name) _ h1 in
    let (there, done) = reached (is_there (lookup project t.projects)) _ h2 in
    (
      named,
      there,
      (text_eq_iff svc.project project).0 (ground (arith, same)),
      ground (arith, same),
      done,
    )

scan_put :
    (codec : Codec) (enc : Encoding) (now project : Text) (svc : Service)
    → codec.read (codec.write svc.spec) ≡ some svc.spec
    → svc.project ≡ project
    → scan_service codec (key_of project svc.name) (row_of codec enc now svc)
      ≡ ok (record svc { status = status_or_pending svc.status })
unfolding scan_service decoded row_of
scan_put codec enc now project svc r same = rw (r, ← same) refl

-- `GetService` reads what `PutService` wrote, where `json.Unmarshal` reads back the specification; the
-- other services are as before.
pub get_service-put_service :
    (codec : Codec) (enc : Encoding) (now project : Text) (svc : Service) (t u : Tables)
    (p n : Text)
    → codec.read (codec.write svc.spec) ≡ some svc.spec
    → put_service codec enc now project svc t ≡ ok u
    → get_service codec p n u ≡ (
        if key_eq (key_of project svc.name) (key_of p n)
        then ok (record svc { status = status_or_pending svc.status })
        else get_service codec p n t)
unfolding get_service
get_service-put_service codec enc now project svc t u p n r h =
    let (named, there, same, name, done) = put_service-ok codec enc now project svc t u h in
    rw
      (
        done,
        lookup-put (key_of project svc.name) (key_of p n) (row_of codec enc now svc) t.services,
      )
      (elim (Bool-cases (key_eq (key_of project svc.name) (key_of p n))) [
        | inl here ↦
            let at = (key_eq_iff (key_of project svc.name) (key_of p n)).0 here in
            rw here (
              rw (← (ap (λ (k : Key). k.project) at), ← (ap (λ (k : Key). k.name) at), named)
                (scan_put codec enc now project svc r same))
        | inr elsewhere ↦ rw elsewhere refl
      ])

-- What a successful `DeleteService` did.
pub delete_service-ok :
    (project name : Text) (t u : Tables)
    → delete_service project name t ≡ ok u
    → (is_nil project ≡ false)
      × (is_there (lookup (key_of project name) t.services) ≡ true)
      × (u ≡ record t { services = remove (key_of project name) t.services })
unfolding delete_service
delete_service-ok project name t u h =
    let (named, h1) = past (is_nil project) _ h in
    let (there, done) = reached (is_there (lookup (key_of project name) t.services)) _ h1 in
    (named, there, done)

-- A service that was deleted is not found; the others are as before.
pub get_service-delete_service :
    (codec : Codec) (project name : Text) (t u : Tables) (p n : Text)
    → delete_service project name t ≡ ok u
    → get_service codec p n u ≡ (
        if key_eq (key_of project name) (key_of p n)
        then err not_found
        else get_service codec p n t)
unfolding get_service scan_found
get_service-delete_service codec project name t u p n h =
    let (named, there, done) = delete_service-ok project name t u h in
    rw (done, lookup-remove (key_of project name) (key_of p n) t.services)
      (elim (Bool-cases (key_eq (key_of project name) (key_of p n))) [
        | inl here ↦
            let at = (key_eq_iff (key_of project name) (key_of p n)).0 here in
            rw here (rw (← (ap (λ (k : Key). k.project) at), named) refl)
        | inr elsewhere ↦ rw elsewhere refl
      ])

-- What a successful `CreateProject` did.
pub create_project-ok :
    (now name : Text) (t u : Tables)
    → create_project now name t ≡ ok u
    → u ≡ record t { projects = put name now t.projects }
unfolding create_project
create_project-ok now name t u h =
    let (valid, h1) = past (not (is_name name)) _ h in
    let (free, h2) = past (is_there (lookup name t.projects)) _ h1 in cc
