-- ===== src/Server/Host/Unmanaged.antt =====
-- What the handlers of host containers may do.
use proxa.Prelude.{
  ◌≡◌, ◌≢◌, inl, inr, refl, Bool, true, false, ◌&&◌, not, Option, none, some, Bool-cases, ◌⊎◌,
  is_nil, [], ◌∷◌, sym,
}
use mathlib.Core.Option.{some_inj}
use proxa.Prelude.Text.{Text, codes, text_eq, text_eq_iff}
use proxa.Types.{ContainerInfo}
use proxa.Docker.{label_project}
use proxa.Events.{Table}
use proxa.Reconciler.Diff.{label}
use proxa.Server.Host.{
  Host, HostRequest, action_request, remove_request, Operation, start_container, stop_container,
  restart_container, remove_container, managed_from_labels, operation_of, parse_bool, attempted,
  by_action, act_on, host_container_action, remove_found, host_container_remove, serve_host,
}

-- The container that an operation is about.
abbrev pub about : Operation → Text
about (start_container id) = id
about (stop_container id) = id
about (restart_container id) = id
about (remove_container id force) = id

-- The container that a request names.
abbrev pub named_id : HostRequest → Text
named_id (action_request action id) = id
named_id (remove_request id force) = id

-- An operation that removes a running container is forced.
abbrev pub Permitted : Operation → ContainerInfo → Type 0
Permitted op info =
    (label label_project info.labels ≡ [])
    × ((force : Bool)
        → op ≡ remove_container (about op) force
        → (force ≡ true) ⊎ (info.state ≢ codes "running"))

nil_of : (p : Text) → is_nil p ≡ true → p ≡ []
nil_of [] h = refl
nil_of (c ∷ p) h = cc h

unmanaged :
    (info : ContainerInfo)
    → (managed_from_labels info.labels).0 ≡ false
    → label label_project info.labels ≡ []
unfolding managed_from_labels
unmanaged info h = elim (Bool-cases (is_nil (label label_project info.labels))) [
  | inl empty ↦ nil_of (label label_project info.labels) empty
  | inr there ↦ cc (rw there at h)
]

forced_or_stopped :
    (state : Text) (b f : Bool)
    → text_eq state (codes "running") && not b ≡ false
    → b ≡ f
    → (f ≡ true) ⊎ (state ≢ codes "running")
forced_or_stopped state true f h e = inl (sym e)
forced_or_stopped state false f h e =
    inr (λ p. cc ((text_eq_iff state (codes "running")).1 p, rw e at h))

module _ (h : Host) where
  attempted-call :
      (op c : Operation) (type id : Text) (info : ContainerInfo) (t : Table)
      → (attempted h op type id info t).call ≡ some c
      → op ≡ c
  unfolding attempted
  attempted-call op c type id info t e = elim (Bool-cases (h.succeeds op)) [
    | inl well ↦ some_inj.0 (rw well at e)
    | inr ill ↦ some_inj.0 (rw ill at e)
  ]

  -- What an operation on an inspected container must satisfy.
  abbrev pub Rightful : (id : Text) → Operation → Type 0
  Rightful id op =
      (about op ≡ id) × ((info : ContainerInfo) × (h.inspect id ≡ some info) × Permitted op info)

  by_action-Rightful :
      (action id : Text) (info : ContainerInfo) (t : Table) (op : Operation)
      → h.inspect id ≡ some info
      → label label_project info.labels ≡ []
      → (by_action h id info t (operation_of action id)).call ≡ some op
      → Rightful id op
  unfolding by_action operation_of
  by_action-Rightful action id info t op seen free e =
      elim (Bool-cases (text_eq action (codes "start"))) [
        | inl a ↦
            let is = attempted-call (start_container id) op _ id info t (rw a at e) in
            rw (← is) (refl, (info, seen, (free, λ force q. cc q)))
        | inr a ↦ elim (Bool-cases (text_eq action (codes "stop"))) [
          | inl b ↦
              let is = attempted-call (stop_container id) op _ id info t (rw (a, b) at e) in
              rw (← is) (refl, (info, seen, (free, λ force q. cc q)))
          | inr b ↦ elim (Bool-cases (text_eq action (codes "restart"))) [
            | inl c ↦
                let is = attempted-call (restart_container id) op _ id info t (rw (a, b, c) at e) in
                rw (← is) (refl, (info, seen, (free, λ force q. cc q)))
            | inr c ↦ cc (rw (a, b, c) at e)
          ]
        ]
      ]

  act_on-Rightful :
      (action id : Text) (t : Table) (o : Option ContainerInfo) (op : Operation)
      → h.inspect id ≡ o
      → (act_on h action id t o).call ≡ some op
      → Rightful id op
  unfolding act_on
  act_on-Rightful action id t none op seen e = cc e
  act_on-Rightful action id t (some info) op seen e =
      elim (Bool-cases (managed_from_labels info.labels).0) [
        | inl managed ↦ cc (rw managed at e)
        | inr free ↦
            by_action-Rightful action id info t op seen (unmanaged info free) (rw free at e)
      ]

  remove_found-Rightful :
      (id force : Text) (t : Table) (o : Option ContainerInfo) (op : Operation)
      → h.inspect id ≡ o
      → (remove_found h id force t o).call ≡ some op
      → Rightful id op
  unfolding remove_found
  remove_found-Rightful id force t none op seen e = cc e
  remove_found-Rightful id force t (some info) op seen e =
      elim (Bool-cases (managed_from_labels info.labels).0) [
        | inl managed ↦ cc (rw managed at e)
        | inr free ↦
            elim (Bool-cases (text_eq info.state (codes "running") && not (parse_bool force))) [
              | inl running ↦ cc (rw (free, running) at e)
              | inr stopped ↦
                  let is =
                    attempted-call (remove_container id (parse_bool force)) op _ id info t
                      (rw (free, stopped) at e) in
                  rw (← is) (
                    refl,
                    (
                      info,
                      seen,
                      (
                        unmanaged info free,
                        λ f q. forced_or_stopped info.state (parse_bool force) f stopped (cc q),
                      ),
                    ),
                  )
            ]
      ]

  -- A host-container request changes at most the container that it names, as `InspectContainer` shows it,
  -- and only if that has no project label, so is none of Proxa's; it removes a running one only by force.
  pub serve_host-Rightful :
      (req : HostRequest) (t : Table) (op : Operation)
      → (serve_host h req t).call ≡ some op
      → Rightful (named_id req) op
  unfolding serve_host host_container_action host_container_remove
  serve_host-Rightful (action_request action id) t op e =
      act_on-Rightful action id t (h.inspect id) op refl e
  serve_host-Rightful (remove_request id force) t op e =
      remove_found-Rightful id force t (h.inspect id) op refl e
