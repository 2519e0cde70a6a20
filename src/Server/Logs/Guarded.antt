-- ===== src/Server/Logs/Guarded.antt =====
-- What a request for logs may ask of the daemon.
use proxa.Prelude.{
  ◌≡◌, inl, inr, refl, ap, List, Option, none, some, Bool-cases, Memᴰ, is_nil, filter, get_elem?,
  ◌⊎◌, mem_of_filter, mem_of_get_elem?,
}
use proxa.Prelude.Int.{ℤ, pos_part}
use proxa.Prelude.Text.{Text, codes, text_eq, text_eq_iff}
use proxa.Prelude.Sort.{sort}
use proxa.Prelude.Sort.Laws.{mem_of_sort}
use mathlib.Core.List.Memᴰ
use proxa.Types.{ContainerInfo}
use proxa.Docker.{label_service}
use proxa.Auth.{Decision, allowed, forbidden, list_error, authorize}
use proxa.Reconciler.Diff.{label}
use proxa.Server.Logs.{
  LogRequest, LogOpts, DaemonCall, list_call, stream_call, LogError, World, at_index, by_replica,
  resolve_replica_container, stream_from, authorized, logs_request, with_subject, parsed,
  parse_since, parse_tail, parse_replica, stream_service_logs,
}

-- The container whose logs are streamed: one of the service's, which runs or was created.
abbrev pub IsReplica : Option (List ContainerInfo) → Text → ContainerInfo → Type 0
IsReplica listed service c =
    (l : List ContainerInfo) × (listed ≡ some l)
    × Memᴰ c l
    × (label label_service c.labels ≡ service)
    × ((c.state ≡ codes "running") ⊎ (c.state ≡ codes "created"))

-- The calls that a request may make: none, unless the policies allow its subject to read the logs of the
-- service that it names; then a list of the project, and after it the stream of one of its replicas.
abbrev pub Guarded : World → LogRequest → DaemonCall → Type 0
Guarded w r (list_call p) =
    (sub : Text) × (r.subject ≡ some sub)
    × (authorize w.policies (logs_request w r sub) ≡ allowed)
    × (p ≡ r.project)
Guarded w r (stream_call id opts) =
    (sub : Text) × (r.subject ≡ some sub)
    × (authorize w.policies (logs_request w r sub) ≡ allowed)
    × ((c : ContainerInfo) × IsReplica (w.list_containers r.project) r.name c × (id ≡ c.id))

abbrev found_or : ContainerInfo → LogError ⊎ ContainerInfo → ContainerInfo
found_or d (inl e) = d
found_or d (inr c) = c

at_index-live :
    (o : Option ContainerInfo) (c : ContainerInfo)
    → at_index o ≡ inr c
    → (o ≡ some c) × ((c.state ≡ codes "running") ⊎ (c.state ≡ codes "created"))
unfolding at_index
at_index-live none c h = cc h
at_index-live (some d) c h = elim (Bool-cases (text_eq d.state (codes "running"))) [
  | inl running ↦
      let same : d ≡ c = ap (found_or d) (rw running at h) in
      rw (← same) (refl, inl ((text_eq_iff d.state (codes "running")).0 running))
  | inr other ↦ elim (Bool-cases (text_eq d.state (codes "created"))) [
    | inl made ↦
        let same : d ≡ c = ap (found_or d) (rw (other, made) at h) in
        rw (← same) (refl, inr ((text_eq_iff d.state (codes "created")).0 made))
    | inr neither ↦ cc (rw (other, neither) at h)
  ]
]

resolve-IsReplica :
    (o : Option (List ContainerInfo)) (service : Text) (idx : ℤ) (c : ContainerInfo)
    → resolve_replica_container o service idx ≡ inr c
    → IsReplica o service c
unfolding resolve_replica_container
resolve-IsReplica none service idx c h = cc h
resolve-IsReplica (some l) service idx c h =
    let matching =
      filter (λ (d : ContainerInfo). text_eq (label label_service d.labels) service) l in
    elim (Bool-cases (is_nil matching)) [
      | inl empty ↦ cc (rw empty at h)
      | inr several ↦
          let (found, live) =
            at_index-live (get_elem? (sort by_replica matching) (pos_part idx)) c
              (rw several at h) in
          let member =
            mem_of_sort by_replica c matching
              (mem_of_get_elem? (sort by_replica matching) (pos_part idx) c found) in
          let (here, named) =
            mem_of_filter (λ (d : ContainerInfo). text_eq (label label_service d.labels) service) c
              l member in
          (l, refl, here, (text_eq_iff (label label_service c.labels) service).0 named, live)
    ]

module _ (w : World) where
  stream_from-Guarded :
      (r : LogRequest) (opts : LogOpts) (idx : ℤ) (o : LogError ⊎ ContainerInfo) (sub : Text)
      (call : DaemonCall)
      → r.subject ≡ some sub
      → authorize w.policies (logs_request w r sub) ≡ allowed
      → resolve_replica_container (w.list_containers r.project) r.name idx ≡ o
      → Memᴰ call (stream_from w r opts idx o).calls
      → Guarded w r call
  unfolding stream_from
  stream_from-Guarded r opts idx (inl e) sub call who may at m = elim (Memᴰ.cases_cons m) [
    | inl first ↦ rw first (sub, who, may, refl)
    | inr later ↦ elim later [ ]
  ]
  stream_from-Guarded r opts idx (inr c) sub call who may at m = elim (Memᴰ.cases_cons m) [
    | inl first ↦ rw first (sub, who, may, refl)
    | inr later ↦ elim (Memᴰ.cases_cons later) [
      | inl second ↦ rw second (
        sub,
        who,
        may,
        (c, resolve-IsReplica (w.list_containers r.project) r.name idx c at, refl),
      )
      | inr none_left ↦ elim none_left [ ]
    ]
  ]

  authorized-Guarded :
      (r : LogRequest) (opts : LogOpts) (idx : ℤ) (d : Decision) (sub : Text) (call : DaemonCall)
      → r.subject ≡ some sub
      → authorize w.policies (logs_request w r sub) ≡ d
      → Memᴰ call (authorized w r opts idx d).calls
      → Guarded w r call
  unfolding authorized
  authorized-Guarded r opts idx allowed sub call who may m =
      stream_from-Guarded r opts idx
        (resolve_replica_container (w.list_containers r.project) r.name idx) sub call who may refl m
  authorized-Guarded r opts idx forbidden sub call who may m = elim m [ ]
  authorized-Guarded r opts idx list_error sub call who may m = elim m [ ]

  with_subject-Guarded :
      (r : LogRequest) (opts : LogOpts) (idx : ℤ) (o : Option Text) (call : DaemonCall)
      → r.subject ≡ o
      → Memᴰ call (with_subject w r opts idx o).calls
      → Guarded w r call
  unfolding with_subject
  with_subject-Guarded r opts idx none call who m = elim m [ ]
  with_subject-Guarded r opts idx (some sub) call who m =
      authorized-Guarded r opts idx (authorize w.policies (logs_request w r sub)) sub call who refl
        m

  parsed-Guarded :
      (r : LogRequest) (tail replica : Option ℤ) (since : Option (Option ℤ)) (call : DaemonCall)
      → Memᴰ call (parsed w r tail replica since).calls
      → Guarded w r call
  unfolding parsed
  parsed-Guarded r none replica since call m = elim m [ ]
  parsed-Guarded r (some n) none since call m = elim m [ ]
  parsed-Guarded r (some n) (some idx) none call m = elim m [ ]
  parsed-Guarded r (some n) (some idx) (some t) call m =
      with_subject-Guarded r _ idx r.subject call refl m

  -- A request for logs asks the daemon for nothing unless the policies allow its subject to read the logs of
  -- the service that it names. Then it lists the containers of the project only, and streams only one of
  -- them that has the service's label and runs or was created.
  pub stream_service_logs-Guarded :
      (r : LogRequest) (call : DaemonCall)
      → Memᴰ call (stream_service_logs w r).calls
      → Guarded w r call
  unfolding stream_service_logs
  stream_service_logs-Guarded r call m =
      parsed-Guarded r (parse_tail r.tail) (parse_replica r.replica)
        (parse_since w.parse_time r.since) call m
