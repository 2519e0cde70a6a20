-- ===== src/Server/Isolated.antt =====
-- The routes of stored services stay apart, whatever requests come in.
use mathlib.Core.Option.{some_inj}
use proxa.Prelude.{
  ◌≡◌, ◌≢◌, inl, inr, refl, sym, ap, ◌∙◌, true, false, List, none, some, if◌then◌else◌, Memᴰ, arith,
  Bool-cases,
}
use proxa.Prelude.Text.{Text, text_eq_iff}
use proxa.Prelude.Maps.{text-Eq}
use proxa.Types.{TaskDef, Service, Route}
use proxa.Parser.Store.{validate_against_store, is_same_service}
use proxa.Parser.Store.Isolation.{validate_against_store-isolates, validate_against_store-lists}
use proxa.Store.{
  Result, ok, err, Codec, Key, key_eq, key_eq_iff, key-Eq, Tables, get_service, list_services,
  list_projects,
}
use proxa.Store.Access.{key_of}
use proxa.Store.Consistent.{IsConsistent}
use proxa.Store.Listing.{get_service-ok, list_services-mem, list_projects-mem}
use proxa.Server.{route_lookup, services_of}

-- Of two services, the hosts of their routes differ, or they are of one project and the paths differ.
pub record RoutesApart (codec : Codec) (t : Tables) : Type 0 where
  pub apart :
      (p n q m : Text) (a b : Service) (x y : Route)
      → get_service codec p n t ≡ ok a
      → get_service codec q m t ≡ ok b
      → key_eq (key_of p n) (key_of q m) ≡ false
      → Memᴰ x a.spec.routes
      → Memᴰ y b.spec.routes
      → x.host ≡ y.host
      → (p ≡ q) × (x.path ≢ y.path)

listed_ok : (r : Result (List Service)) (l : List Service) → services_of r ≡ some l → r ≡ ok l
listed_ok (ok l') l h = ap ok (some_inj.0 h)
listed_ok (err e) l h = cc

module _ (codec : Codec) (u : Tables) (c : IsConsistent u) (spec : TaskDef)
    (checked : validate_against_store spec (some (route_lookup codec u)) ≡ none) where
  -- A checked specification stays apart from the services that are stored.
  pub new_old :
      (q m : Text) (b : Service) (x y : Route)
      → get_service codec q m u ≡ ok b
      → key_eq (key_of spec.project spec.name) (key_of q m) ≡ false
      → Memᴰ x spec.routes
      → Memᴰ y b.spec.routes
      → x.host ≡ y.host
      → (q ≡ spec.project) × (x.path ≢ y.path)
  unfolding route_lookup is_same_service key_eq
  new_old q m b x y g other mx my host =
      let (row, at, reads, eta) = get_service-ok codec q m u b g in
      let there = c.has_project (key_of q m) (rw at refl) in
      let in_projects = list_projects-mem u q there in
      let (l, listed) =
        validate_against_store-lists spec (route_lookup codec u) (list_projects u)
          (record { name = q }) x checked refl in_projects mx in
      let found =
        list_services-mem codec u l (key_of q m) row b.spec
          (listed_ok (list_services codec q u) l listed) at reads in
      let (same, differ) =
        validate_against_store-isolates spec (route_lookup codec u) (list_projects u)
          (record { name = q }) l
          (record { project = q; name = m; spec = b.spec; status = row.status }) x y checked refl
          in_projects listed found
          (ground (
            arith,
            other,
            text_eq_iff q spec.project,
            text_eq_iff spec.project q,
            text_eq_iff m spec.name,
            text_eq_iff spec.name m,
          ))
          mx my host in
      (same, differ)

module _ (codec : Codec) (t u : Tables) (project name : Text) (svc : Service)
    (apart_t : RoutesApart codec t)
    (reads : (p n : Text)
      → get_service codec p n u
        ≡ (if key_eq (key_of project name) (key_of p n) then ok svc else get_service codec p n t))
    (new_apart : (q m : Text) (b : Service) (x y : Route)
      → get_service codec q m t ≡ ok b
      → key_eq (key_of project name) (key_of q m) ≡ false
      → Memᴰ x svc.spec.routes
      → Memᴰ y b.spec.routes
      → x.host ≡ y.host
      → (q ≡ project) × (x.path ≢ y.path)) where
  at_new :
      (p n : Text) (a : Service)
      → key_eq (key_of project name) (key_of p n) ≡ true
      → get_service codec p n u ≡ ok a
      → (svc ≡ a) × (project ≡ p) × (name ≡ n)
  at_new p n a here g =
      let key = (key_eq_iff (key_of project name) (key_of p n)).0 here in
      (
        ok_inj (rw here at (sym (reads p n) ∙ g)),
        ap (λ (k : Key). k.project) key,
        ap (λ (k : Key). k.name) key,
      )
    where
      ok_inj : {x y : Service} → ok x ≡ ok y → x ≡ y
      ok_inj e = cc

  at_old :
      (p n : Text) (a : Service)
      → key_eq (key_of project name) (key_of p n) ≡ false
      → get_service codec p n u ≡ ok a
      → get_service codec p n t ≡ ok a
  at_old p n a away g = rw away at (sym (reads p n) ∙ g)

  -- One service replaced by one that stays apart from the others.
  pub replaced_apart : RoutesApart codec u
  replaced_apart = record {
    apart = λ p n q m a b x y ga gb differ mx my host.
        elim (Bool-cases (key_eq (key_of project name) (key_of p n))) [
          | inl new_a ↦
              let (ea, ep, en) = at_new p n a new_a ga in
              let away : key_eq (key_of project name) (key_of q m) ≡ false = rw (ep, en) differ in
              let (same, paths) =
                new_apart q m b x y (at_old q m b away gb) away (rw ea mx) my host in
              (sym (same ∙ ep), paths)
          | inr old_a ↦ elim (Bool-cases (key_eq (key_of project name) (key_of q m))) [
            | inl new_b ↦
                let (eb, eq, em) = at_new q m b new_b gb in
                let (same, paths) =
                  new_apart p n a y x (at_old p n a old_a ga) old_a (rw eb my) mx (sym host) in
                (same ∙ eq, λ e. paths (sym e))
            | inr old_b ↦
                apart_t.apart p n q m a b x y (at_old p n a old_a ga) (at_old q m b old_b gb) differ
                  mx my host
          ]
        ];
  }
