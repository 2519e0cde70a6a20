-- ===== src/Ingress/Forwarders.antt =====
-- internal/ingress/certmagic_ingress.go: `UpdateRoutes` swaps the routing table and brings the forwarders
-- of layer-4 ports in line with it. A forwarder is the route that it was made from.
use proxa.Prelude.{
  ◌≡◌, ◌≢◌, ◌⊎◌, inl, inr, refl, ◌∙◌, Bool, true, false, not, ◌&&◌, List, [], ◌∷◌, Option, none,
  some, if◌then◌else◌, is_nil, arith, Bool-cases,
}
use proxa.Prelude.Int.{pos, ltb_ℤ}
use proxa.Prelude.Text.{Text}
use proxa.Prelude.Maps.{Map, lookup, put, lookup-put, text-Eq}
use proxa.Types.{Route}
use proxa.Ingress.{ServiceId, L4Key, L4Route, l4-Eq, l4_eq, l4_eq_iff}
use proxa.Ingress.Router.Clashes.{no_clash}
use proxa.Ingress.Router.Conflicts.{is_built, build_router-is_built}
use proxa.Ingress.Router.{Router, RouteConflict, build_router, is_some, l4_key}

-- The fields of `certMagicIngress` that `UpdateRoutes` reads and writes; `running` says that `l4Ctx` is
-- set, that is that `Run` has begun.
pub record Controller : Type 0 where
  pub router : Option Router
  pub allowed_host : Map Text Bool
  pub running : Bool
  pub forwarders : Map L4Key L4Route

add_host : Route → Map Text Bool → Map Text Bool
add_host rt hosts = if is_nil rt.l4 && not (is_nil rt.host) then put rt.host true hosts else hosts

-- "Refresh the ACME on-demand allow-list."
pub hosts_of : List (ServiceId × Route) → Map Text Bool → Map Text Bool
unfolding add_host
hosts_of [] hosts = hosts
hosts_of ((svc, rt) ∷ rest) hosts = hosts_of rest (add_host rt hosts)

add_desired : ServiceId → Route → Map L4Key L4Route → Map L4Key L4Route
unfolding l4_key
add_desired svc rt m =
    if not (is_nil rt.l4) && ltb_ℤ (pos 0) rt.port
    then put (l4_key rt) (record { project = svc.project; service = svc; lb = rt.lb_strategy }) m
    else m

-- "Compute the desired L4 set."
unfoldable pub desired_l4 : List (ServiceId × Route) → Map L4Key L4Route → Map L4Key L4Route
unfolding add_desired
desired_l4 [] m = m
desired_l4 ((svc, rt) ∷ rest) m = desired_l4 rest (add_desired svc rt m)

-- "Stop forwarders for keys that disappeared."
stop_gone : Map L4Key L4Route → Map L4Key L4Route → Map L4Key L4Route
unfolding is_some
stop_gone desired [] = []
stop_gone desired ((k, f) ∷ rest) =
    let kept = stop_gone desired rest in if is_some (lookup k desired) then (k, f) ∷ kept else kept

start_one : Bool → L4Key → L4Route → Map L4Key L4Route → Map L4Key L4Route
unfolding is_some
start_one running k rt m = if is_some (lookup k m) then m else if running then put k rt m else m

-- "Start forwarders for keys that appeared."
start_new : Bool → Map L4Key L4Route → Map L4Key L4Route → Map L4Key L4Route
unfolding start_one
start_new running [] m = m
start_new running ((k, rt) ∷ rest) m = start_new running rest (start_one running k rt m)

install :
    List (ServiceId × Route)
    → Controller
    → RouteConflict ⊎ Router
    → Option RouteConflict × Controller
unfolding hosts_of desired_l4 stop_gone start_new
install routes c (inl e) = (some e, c)
install routes c (inr r) =
    let desired = desired_l4 routes [] in
    (
      none,
      record c {
        router = some r;
        allowed_host = hosts_of routes [];
        forwarders = start_new c.running desired (stop_gone desired c.forwarders);
      },
    )

-- `UpdateRoutes`, with its error.
unfoldable pub update_routes :
    List (ServiceId × Route) → Controller → Option RouteConflict × Controller
unfolding install
update_routes routes c = install routes c (build_router routes)

lookup-stop_gone :
    (desired m : Map L4Key L4Route) (k : L4Key)
    → lookup k (stop_gone desired m) ≡ (if is_some (lookup k desired) then lookup k m else none)
unfolding stop_gone lookup
lookup-stop_gone desired [] k = ground arith
lookup-stop_gone desired ((j, f) ∷ m) k = elim (Bool-cases (l4_eq j k)) [
  | inl e ↦
      let same = (l4_eq_iff j k).0 e in
      rw same (ground (arith, e, lookup-stop_gone desired m k, (l4_eq_iff k k).1 refl))
  | inr e ↦ ground (arith, lookup-stop_gone desired m k)
]

lookup-start_one :
    (running : Bool) (j : L4Key) (rt : L4Route) (m : Map L4Key L4Route) (k : L4Key)
    → lookup k (start_one running j rt m) ≡ (
        if is_some (lookup k m) then lookup k m else if running && l4_eq j k then some rt else none)
unfolding start_one is_some
lookup-start_one running j rt m k = ground (arith, lookup-put j k rt m, l4_eq_iff j k)

lookup-start_new :
    (running : Bool) (desired m : Map L4Key L4Route) (k : L4Key)
    → lookup k (start_new running desired m)
      ≡ (if is_some (lookup k m) then lookup k m else if running then lookup k desired else none)
unfolding start_new is_some lookup
lookup-start_new running [] m k = ground arith
lookup-start_new running ((j, rt) ∷ rest) m k = ground (
  arith,
  lookup-start_new running rest (start_one running j rt m) k,
  lookup-start_one running j rt m k,
)

install-lookup :
    (routes : List (ServiceId × Route)) (c : Controller) (r : RouteConflict ⊎ Router) (k : L4Key)
    → (install routes c r).0 ≡ none
    → lookup k (install routes c r).1.forwarders ≡ (
        if is_some (lookup k (desired_l4 routes []))
        then (if is_some (lookup k c.forwarders)
            then lookup k c.forwarders
            else if c.running
            then lookup k (desired_l4 routes [])
            else none)
        else none)
unfolding install is_some
install-lookup routes c (inl e) k h = cc h
install-lookup routes c (inr r) k h =
    let desired = desired_l4 routes [] in
    ground (
      arith,
      lookup-start_new c.running desired (stop_gone desired c.forwarders) k,
      lookup-stop_gone desired c.forwarders k,
    )

-- After routes that `UpdateRoutes` accepts, a port has a forwarder only if a route asks for it: the one
-- that it had, whatever service the route now names, and else, once `Run` has begun, one for the
-- route.
pub update_routes-forwarders :
    (routes : List (ServiceId × Route)) (c : Controller) (k : L4Key)
    → (update_routes routes c).0 ≡ none
    → lookup k (update_routes routes c).1.forwarders ≡ (
        if is_some (lookup k (desired_l4 routes []))
        then (if is_some (lookup k c.forwarders)
            then lookup k c.forwarders
            else if c.running
            then lookup k (desired_l4 routes [])
            else none)
        else none)
unfolding update_routes
update_routes-forwarders routes c k h = install-lookup routes c (build_router routes) k h

install-rejects :
    (routes : List (ServiceId × Route)) (c : Controller) (r : RouteConflict ⊎ Router)
    → is_built r ≡ false
    → ((install routes c r).0 ≢ none) × ((install routes c r).1 ≡ c)
unfolding install
install-rejects routes c (inl e) h = ((λ p. cc p), refl)
install-rejects routes c (inr r) h = cc h

-- Routes of which two clash are refused with an error and leave the table, the allow-list and the
-- forwarders as they were.
pub update_routes-rejects :
    (routes : List (ServiceId × Route)) (c : Controller)
    → no_clash routes ≡ false
    → ((update_routes routes c).0 ≢ none) × ((update_routes routes c).1 ≡ c)
unfolding update_routes
update_routes-rejects routes c h =
    install-rejects routes c (build_router routes) (build_router-is_built routes ∙ h)
