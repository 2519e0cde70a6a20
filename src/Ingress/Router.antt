-- ===== src/Ingress/Router.antt =====
-- internal/ingress/router.go: the routing table. The routes that `BuildRouter` meets while it iterates
-- over its map are a list of pairs of a service and a route.
pub mod Lookup
pub mod Clashes
pub mod Conflicts
pub mod Known
pub mod Isolation
use proxa.Prelude.{
  ℕ, ◌≡◌, ◌↔◌, Bool, true, false, not, ◌&&◌, ◌||◌, List, [], ◌∷◌, ◌++◌, Option, none, some,
  if◌then◌else◌, is_nil, length, compare, Ordering, ◌⊎◌, inl, inr, arith,
}
use proxa.Prelude.Int.{ℤ}
use proxa.Prelude.Text.{
  Text, codes, text_eq, text_eq_iff, text_compare, has_prefix, has_suffix, cut_suffix,
}
use proxa.Prelude.Maps.{Map, Eq, text-Eq, lookup, put}
use proxa.Prelude.Sort.{sort, lex}
use proxa.Types.{Route}
use proxa.Ingress.{ServiceId, L4Key, L4Route, l4-Eq}

-- `l7Route`
pub record L7Route : Type 0 where
  pub project : Text
  pub host : Text
  pub path_glob : Text
  pub service : ServiceId
  pub lb : Text

pub record Router : Type 0 where
  pub l7_routes : List L7Route
  pub l4_routes : Map L4Key L4Route

after_raw : Text → Text → Option Text → Bool
after_raw glob path (some before) = has_prefix path before
after_raw glob path none = text_eq glob path

after_slash : Text → Text → Option Text → Bool
unfolding after_raw
after_slash glob path (some before) =
    text_eq path before
    || (has_prefix path (before ++ codes "/") || text_eq path (before ++ codes "/"))
after_slash glob path none = after_raw glob path (cut_suffix glob (codes "*"))

-- `matchPath`
unfoldable pub match_path : Text → Text → Bool
unfolding after_slash
match_path glob path =
    if is_nil glob then true else after_slash glob path (cut_suffix glob (codes "/*"))

first_match : Text → Text → List L7Route → Option (ServiceId × Text)
unfolding match_path
first_match host path [] = none
first_match host path (r ∷ rest) =
    let later = first_match host path rest in
    if text_eq r.host host && match_path r.path_glob path then some (r.service, r.lb) else later

-- `Router.LookupL7`; `none` for a nil router or no match.
unfoldable pub lookup_l7 : Option Router → Text → Text → Option (ServiceId × Text)
unfolding first_match
lookup_l7 none host path = none
lookup_l7 (some r) host path = first_match host path r.l7_routes

l4_answer : Option L4Route → Option (ServiceId × Text)
l4_answer none = none
l4_answer (some rt) = some (rt.service, rt.lb)

-- `Router.LookupL4`
unfoldable pub lookup_l4 : Option Router → Text → ℤ → Option (ServiceId × Text)
unfolding l4_answer
lookup_l4 none proto port = none
lookup_l4 (some r) proto port =
    l4_answer (lookup (record { proto = proto; port = port }) r.l4_routes)

-- `hpKey`
pub record HpKey : Type 0 where
  pub project : Text
  pub host : Text
  pub path : Text

unfoldable pub hp_eq : HpKey → HpKey → Bool
hp_eq a b = text_eq a.project b.project && (text_eq a.host b.host && text_eq a.path b.path)

pub hp_eq_iff : (a b : HpKey) → (hp_eq a b ≡ true) ↔ (a ≡ b)
unfolding hp_eq
hp_eq_iff a b =
    ground
      (arith, text_eq_iff a.project b.project, text_eq_iff a.host b.host, text_eq_iff a.path b.path)

instance abbrev pub hp-Eq : Eq HpKey
hp-Eq = record { beq = hp_eq; beq_iff = hp_eq_iff }

-- The three errors, each with the route that it is about.
pub data RouteConflict : Type 0 where
  l4_conflict host_conflict path_conflict : ServiceId × Route → RouteConflict

-- The maps of `BuildRouter` while it runs; `l7` is in the order of `append`.
pub record Building : Type 0 where
  pub l7 : List L7Route
  pub l4 : Map L4Key L4Route
  pub host_to_project : Map Text Text
  pub seen_hp : Map HpKey Bool

unfoldable pub is_some {ℓ} : {A : Type ℓ} → Option A → Bool
is_some none = false
is_some (some a) = true

pub is_other : Text → Option Text → Bool
is_other project none = false
is_other project (some owner) = not (text_eq owner project)

unfoldable pub l4_key : Route → L4Key
l4_key rt = record { proto = rt.l4; port = rt.port }

unfoldable pub hp_key : ServiceId → Route → HpKey
hp_key svc rt = record { project = svc.project; host = rt.host; path = rt.path }

pub add_l4 : ServiceId → Route → Building → RouteConflict ⊎ Building
unfolding is_some l4_key
add_l4 svc rt b =
    if is_some (lookup (l4_key rt) b.l4)
    then inl (l4_conflict (svc, rt))
    else inr (record b {
      l4 =
          put (l4_key rt) (record { project = svc.project; service = svc; lb = rt.lb_strategy })
            b.l4;
    })

pub l7_route : ServiceId → Route → L7Route
l7_route svc rt = record {
  project = svc.project;
  host = rt.host;
  path_glob = rt.path;
  service = svc;
  lb = rt.lb_strategy;
}

pub add_l7 : ServiceId → Route → Building → RouteConflict ⊎ Building
unfolding is_some is_other hp_key l7_route
add_l7 svc rt b =
    if is_other svc.project (lookup rt.host b.host_to_project)
    then inl (host_conflict (svc, rt))
    else if is_some (lookup (hp_key svc rt) b.seen_hp)
    then inl (path_conflict (svc, rt))
    else inr (record b {
      l7 = b.l7 ++ l7_route svc rt ∷ [];
      host_to_project = put rt.host svc.project b.host_to_project;
      seen_hp = put (hp_key svc rt) true b.seen_hp;
    })

-- One round of the inner loop.
pub add_route : ServiceId → Route → Building → RouteConflict ⊎ Building
unfolding add_l4 add_l7
add_route svc rt b = if is_nil rt.l4 then add_l7 svc rt b else add_l4 svc rt b

-- `return nil, err`, or go on.
pub and_then :
    RouteConflict ⊎ Building → (Building → RouteConflict ⊎ Building) → RouteConflict ⊎ Building
and_then (inl e) f = inl e
and_then (inr b) f = f b

-- The loop.
pub add_all : List (ServiceId × Route) → Building → RouteConflict ⊎ Building
unfolding and_then add_route
add_all [] b = inr b
add_all ((svc, rt) ∷ rest) b = and_then (add_route svc rt b) (λ b'. add_all rest b')

is_wildcard : L7Route → Bool
is_wildcard r = has_suffix r.path_glob (codes "*")

-- "Exact > wildcard at equal length."
abbrev exact_first : Bool → Bool → Ordering
exact_first false true = Ordering.lt
exact_first true false = Ordering.gt
exact_first _ _ = Ordering.eq

-- The comparison of `slices.SortFunc`: the longest glob first.
unfoldable pub compare_routes : L7Route → L7Route → Ordering
unfolding is_wildcard
compare_routes =
    lex (λ a b. compare (length b.path_glob) (length a.path_glob))
      (lex (λ a b. exact_first (is_wildcard a) (is_wildcard b))
        (lex (λ a b. text_compare a.host b.host) (λ a b. text_compare a.path_glob b.path_glob)))

finish : RouteConflict ⊎ Building → RouteConflict ⊎ Router
finish (inl e) = inl e
finish (inr b) = inr (record { l7_routes = sort compare_routes b.l7; l4_routes = b.l4 })

abbrev pub empty : Building
empty = record { l7 = []; l4 = []; host_to_project = []; seen_hp = [] }

-- `BuildRouter`
unfoldable pub build_router : List (ServiceId × Route) → RouteConflict ⊎ Router
unfolding add_all finish
build_router routes = finish (add_all routes empty)
