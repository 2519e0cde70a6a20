-- ===== src/Store/Listing.antt =====
-- What the lists of the store contain.
use mathlib.Core.List.Memᴰ
use proxa.Prelude.{
  ◌≡◌, inl, inr, refl, sym, ap, ◌∙◌, true, List, [], ◌∷◌, some, is_nil, Memᴰ, filter, mem-filter,
  Option-cases,
}
use proxa.Prelude.Text.{Text, text_eq_iff, text_compare}
use proxa.Prelude.Maps.{lookup, text-Eq}
use proxa.Prelude.Maps.Keys.{mem_of_lookup}
use proxa.Prelude.Sort.{sort}
use proxa.Prelude.Sort.Laws.{mem-sort}
use proxa.Types.{TaskDef, Service}
use proxa.Store.{
  Result, ok, err, Codec, Key, key-Eq, Row, Tables, is_there, cons_ok, decoded, scan_service,
  scan_found, get_service, scan_all, in_project, by_name, list_services, list_projects,
}
use proxa.Store.Access.{key_of, past}

cons_ok-ok :
    (a : Result Service) (b : Result (List Service)) (l : List Service)
    → cons_ok a b ≡ ok l
    → (x : Service) × (rest : List Service) × (a ≡ ok x) × (b ≡ ok rest) × (l ≡ x ∷ rest)
cons_ok-ok (err e) b l h = cc
cons_ok-ok (ok x) (err e) l h = cc
cons_ok-ok (ok x) (ok rest) l h = (x, rest, refl, refl, cc)

scan_all-mem :
    (codec : Codec) (rows : List (Key × Row)) (l : List Service) (k : Key) (row : Row)
    (svc : Service)
    → scan_all codec rows ≡ ok l
    → Memᴰ (k, row) rows
    → scan_service codec k row ≡ ok svc
    → Memᴰ svc l
unfolding scan_all
scan_all-mem codec [] l k row svc h m e = elim m [ ]
scan_all-mem codec ((j, r) ∷ rest) l k row svc h m e =
    let (x, others, ex, eo, el) = cons_ok-ok (scan_service codec j r) (scan_all codec rest) l h in
    elim (Memᴰ.cases_cons m) [
      | inl here ↦
          let row_here : scan_service codec j r ≡ ok svc =
            sym (ap (λ (t : Key × Row). scan_service codec t.0 t.1) here) ∙ e in
          rw el (Memᴰ.head (cc (row_here, ex)))
      | inr there ↦ rw el (Memᴰ.tail (scan_all-mem codec rest others k row svc eo there e))
    ]

-- A row of a project whose specification reads is in the list of the project.
pub list_services-mem :
    (codec : Codec) (t : Tables) (l : List Service) (k : Key) (row : Row) (spec : TaskDef)
    → list_services codec k.project t ≡ ok l
    → lookup k t.services ≡ some row
    → codec.read row.spec_json ≡ some spec
    → Memᴰ (record { project = k.project; name = k.name; spec = spec; status = row.status }) l
unfolding list_services
list_services-mem codec t l k row spec h at r =
    let (named, scanned) = past (is_nil k.project) _ h in
    scan_all-mem codec (sort by_name (filter (in_project k.project) t.services)) l k row _ scanned
      (mem-sort by_name (k, row) (filter (in_project k.project) t.services)
        (mem-filter (in_project k.project) (k, row) t.services (mem_of_lookup k row t.services at)
          ((text_eq_iff k.project k.project).1 refl)))
      (unfold scan_service decoded in rw r refl)

-- A row of a project is in the list of projects.
pub list_projects-mem :
    (t : Tables) (name : Text)
    → is_there (lookup name t.projects) ≡ true
    → Memᴰ (record { name = name }) (list_projects t)
unfolding list_projects
list_projects-mem t name h = elim (Option-cases (lookup name t.projects)) [
  | inl none_there ↦ cc (none_there, h)
  | inr (created, at) ↦
      Memᴰ.map (λ (p : Text × Text). record { name = p.0 })
        (mem-sort (λ (p q : Text × Text). text_compare p.0 q.0) (name, created) t.projects
          (mem_of_lookup name created t.projects at))
]

-- The row behind a service that was read.
pub get_service-ok :
    (codec : Codec) (p n : Text) (t : Tables) (a : Service)
    → get_service codec p n t ≡ ok a
    → (row : Row) × (lookup (key_of p n) t.services ≡ some row)
      × (codec.read row.spec_json ≡ some a.spec)
      × (a ≡ record { project = p; name = n; spec = a.spec; status = row.status })
unfolding get_service scan_found scan_service decoded
get_service-ok codec p n t a h =
    let (named, found) = past (is_nil p) _ h in
    elim (Option-cases (lookup (key_of p n) t.services)) [
      | inl absent ↦ cc (rw absent at found)
      | inr (row, at) ↦
          let scanned = rw at at found in
          elim (Option-cases (codec.read row.spec_json)) [
            | inl unreadable ↦ cc (rw unreadable at scanned)
            | inr (spec, reads) ↦
                let same : a ≡ record { project = p; name = n; spec = spec; status = row.status } =
                  cc (rw reads at scanned) in
                (
                  row,
                  at,
                  reads ∙ ap some (sym (ap (λ (s : Service). s.spec) same)),
                  same
                      ∙ ap (λ x. record { project = p; name = n; spec = x; status = row.status })
                          (sym (ap (λ (s : Service). s.spec) same)),
                )
          ]
    ]
