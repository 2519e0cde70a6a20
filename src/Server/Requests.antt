-- ===== src/Server/Requests.antt =====
-- What requests, one after the other, leave of the tables.
use proxa.Prelude.{
  if◌then◌else◌, ◌≡◌, inl, inr, refl, sym, ap, ◌∙◌, List, [], ◌∷◌, Option, none, some, Bool-cases,
}
use proxa.Prelude.Int.{ℤ}
use proxa.Prelude.Text.{Text, codes}
use proxa.Prelude.Maps.{text-Eq}
use proxa.Types.{TaskDef, Service, Project}
use proxa.Hash.{Encoding}
use proxa.Store.{
  Result, ok, err, not_found, already_exists, other_error, Codec, key_eq, key-Eq, Tables,
  get_service, create_project, delete_service, status_or_pending,
}
use proxa.Types.Status
use proxa.Store.Access.{
  key_of, create_project-ok, get_service-put_service, get_service-delete_service,
}
use proxa.Store.Consistent.{Step-IsConsistent, put_step, delete_step, create_step}
use proxa.Store.Listing.{get_service-ok}
use proxa.Server.{
  handle_upsert_service, handle_scale_service, handle_delete_service, scaled, created_project,
  handle_create_project, Request, upsert_service, scale_service, delete_service_request,
  create_project_request, serve, serve_all,
}
use proxa.Server.Upsert.{Ensured, Ensured-services, new_service, upsert-cases}
use proxa.Server.Scale.{scale-cases, delete-cases}
use proxa.Server.Isolated.{new_old, replaced_apart}
use proxa.Server.Sent.{
  AllSentReadBack, IsReadable, IsSafe, SentReadsBack, StoredReadBack, replaced_stored, same_apart,
  same_stored,
}

module _ (codec : Codec) (enc : Encoding) where
  Ensured-IsSafe : (now : Text) (t u : Tables) → Ensured now t u → IsSafe codec t → IsSafe codec u
  Ensured-IsSafe now t u (inl same) safe = rw same safe
  Ensured-IsSafe now t u (inr created) (c, r) = (
    Step-IsConsistent codec enc t u (create_step now (codes "default") created) c,
    same_apart codec t u (Ensured-services now t u (inr created)) r,
  )

  upsert-IsReadable :
      (now project name : Text) (body : Option TaskDef) (t : Tables)
      → SentReadsBack codec (upsert_service now project name body)
      → IsReadable codec t
      → IsReadable codec (handle_upsert_service codec enc now project name body t).tables
  unfolding handle_upsert_service
  upsert-IsReadable now project name none t sent safe = safe
  upsert-IsReadable now project name (some spec) t (int, sent) (safe, stored) =
      elim (upsert-cases codec enc now project name spec t) [
        | inl (unpoked, ensured, reply) ↦ (
          Ensured-IsSafe now t _ ensured safe,
          same_stored codec t _ (Ensured-services now t _ ensured) stored,
        )
        | inr (u, ensured, sp, sn, checked, e, poked, reply) ↦
            let (c, r) = Ensured-IsSafe now t u ensured safe in
            let o = handle_upsert_service codec enc now project name (some spec) t in
            let svc = new_service codec enc now project name spec in
            let pending = record svc { status = Status.pending } in
            let reads : (p n : Text)
                → get_service codec p n o.tables ≡ (
                    if key_eq (key_of project name) (key_of p n)
                    then ok pending
                    else get_service codec p n u) =
              λ p n.
                get_service-put_service codec enc now project svc u o.tables p n
                  (sent spec.replicas int) e in
            (
              (
                Step-IsConsistent codec enc u o.tables (put_step now project svc e) c,
                replaced_apart codec u o.tables project name pending r reads
                    (λ q m b x y g away mx my host.
                      let (same, paths) =
                        new_old codec u c spec checked q m b x y g (rw (sp, sn) away) mx my host in
                      (same ∙ sp, paths)),
              ),
              replaced_stored codec u o.tables project name pending reads sent
                  (same_stored codec t u (Ensured-services now t u ensured) stored),
            )
      ]

  scale-IsReadable :
      (now project name : Text) (body : Option ℤ) (t : Tables)
      → SentReadsBack codec (scale_service now project name body)
      → IsReadable codec t
      → IsReadable codec (handle_scale_service codec enc now project name body t).tables
  unfolding handle_scale_service
  scale-IsReadable now project name none t int safe = safe
  scale-IsReadable now project name (some n) t int ((c, r), stored) =
      elim (scale-cases codec enc now project name n t) [
        | inl (unpoked, same) ↦ rw same ((c, r), stored)
        | inr (svc, g, e, reply) ↦
            let o = handle_scale_service codec enc now project name (some n) t in
            let put = scaled codec enc now project name n svc in
            let (row, at, spec, eta) = get_service-ok codec project name t svc g in
            let named : svc.name ≡ name = ap (λ (s : Service). s.name) eta in
            let after = record put { status = status_or_pending put.status } in
            let reads : (p m : Text)
                → get_service codec p m o.tables ≡ (
                    if key_eq (key_of project name) (key_of p m)
                    then ok after
                    else get_service codec p m t) =
              λ p m.
                get_service-put_service codec enc now project put t o.tables p m
                  (stored project name svc g n int) e
                ∙ rw named refl in
            (
              (
                Step-IsConsistent codec enc t o.tables (put_step now project put e) c,
                replaced_apart codec t o.tables project name after r reads
                    (λ q m b x y h away mx my host.
                      let (same, paths) = r.apart project name q m svc b x y g h away mx my host in
                      (sym same, paths)),
              ),
              replaced_stored codec t o.tables project name after reads (stored project name svc g)
                  stored,
            )
      ]

  delete-IsReadable :
      (now project name : Text) (t : Tables)
      → IsReadable codec t
      → IsReadable codec (handle_delete_service codec enc now project name t).tables
  delete-IsReadable now project name t ((c, r), stored) =
      elim (delete-cases codec enc now project name t) [
        | inl (unpoked, same) ↦ rw same ((c, r), stored)
        | inr e ↦
            let o = handle_delete_service codec enc now project name t in
            (
              (
                Step-IsConsistent codec enc t o.tables (delete_step project name e) c,
                record {
                  apart = λ p n q m a b x y ga gb differ mx my host.
                      r.apart p n q m a b x y (was_there t o.tables project name e p n a ga)
                        (was_there t o.tables project name e q m b gb) differ mx my host;
                },
              ),
              λ p n a g. stored p n a (was_there t o.tables project name e p n a g),
            )
      ]
    where
      was_there :
          (t u : Tables) (project name : Text)
          → delete_service project name t ≡ ok u
          → (p n : Text) (a : Service) → get_service codec p n u ≡ ok a
          → get_service codec p n t ≡ ok a
      was_there t u project name e p n a g =
          elim (Bool-cases (key_eq (key_of project name) (key_of p n))) [
            | inl gone ↦
                cc (rw gone at (sym (get_service-delete_service codec project name t u p n e) ∙ g))
            | inr kept ↦
                rw kept at (sym (get_service-delete_service codec project name t u p n e) ∙ g)
          ]

  create-IsReadable :
      (now : Text) (body : Option Project) (t : Tables)
      → IsReadable codec t
      → IsReadable codec (handle_create_project now body t).tables
  unfolding handle_create_project
  create-IsReadable now none t safe = safe
  create-IsReadable now (some p) t safe = after_create (create_project now p.name t) refl
    where
      after_create :
          (r : Result Tables)
          → create_project now p.name t ≡ r
          → IsReadable codec (created_project p.name t r).tables
      after_create (err not_found) e = safe
      after_create (err already_exists) e = safe
      after_create (err other_error) e = safe
      after_create (ok u) e =
          let same = ap (λ (v : Tables). v.services) (create_project-ok now p.name t u e) in
          (
            (
              Step-IsConsistent codec enc t u (create_step now p.name e) safe.0.0,
              same_apart codec t u same safe.0.1,
            ),
            same_stored codec t u same safe.1,
          )

  serve-IsReadable :
      (r : Request) (t : Tables)
      → SentReadsBack codec r
      → IsReadable codec t
      → IsReadable codec (serve codec enc r t).tables
  unfolding serve
  serve-IsReadable (upsert_service now project name body) t sent safe =
      upsert-IsReadable now project name body t sent safe
  serve-IsReadable (scale_service now project name body) t sent safe =
      scale-IsReadable now project name body t sent safe
  serve-IsReadable (delete_service_request now project name) t sent safe =
      delete-IsReadable now project name t safe
  serve-IsReadable (create_project_request now body) t sent safe = create-IsReadable now body t safe

  -- Whatever requests are served: the keys of the tables stay unique, every service has its project, and a
  -- host of the routes of two services is shared only within a project and under different paths, if all this
  -- held before. JSON reads back the specifications that are stored before and those that the requests bring,
  -- also with another number of replicas, and the numbers of replicas in the requests are of 64 bits; what is
  -- stored then can still be read back.
  pub serve_all-IsSafe :
      (requests : List Request) (t : Tables)
      → AllSentReadBack codec requests
      → StoredReadBack codec t
      → IsSafe codec t
      → IsSafe codec (serve_all codec enc requests t)
        × StoredReadBack codec (serve_all codec enc requests t)
  unfolding serve_all
  serve_all-IsSafe [] t sent stored safe = (safe, stored)
  serve_all-IsSafe (r ∷ rest) t (sent, later) stored safe =
      let (safe', stored') = serve-IsReadable r t sent (safe, stored) in
      serve_all-IsSafe rest (serve codec enc r t).tables later stored' safe'
