-- ===== src/Ingress/Router/Lookup.antt =====
-- What `LookupL7` finds in a table that `BuildRouter` returned: the longest glob that matches.
use mathlib.Core.List.Memᴰ
use proxa.Prelude.{
  ◌≤◌, ◌≡◌, ◌↔◌, ◌⊎◌, inl, inr, refl, sym, ap, Bool, true, false, ◌&&◌, List, [], ◌∷◌, Option, none,
  some, arith, Bool-cases, Memᴰ, length, compare,
}
use proxa.Prelude.Text.{Text, text_eq, text_eq_iff, text_compare, text_compare-IsOrder}
use proxa.Prelude.Sort.{IsOrder, IsSorted, lex-IsOrder, comap-IsOrder, sort, is_gt}
use proxa.Prelude.Sort.Laws.{sort-IsSorted, first_le, tail-IsSorted}
use proxa.Types.{Route}
use proxa.Ingress.{ServiceId}
use proxa.Ingress.Router.{
  Router, L7Route, RouteConflict, Building, build_router, finish, compare_routes, exact_first,
  is_wildcard, lookup_l7, first_match, match_path, add_all, empty,
}

longest-IsOrder : IsOrder (λ (a b : L7Route). compare (length b.path_glob) (length a.path_glob))
longest-IsOrder = record {
  swap_eq = λ a b. ground arith;
  lt_trans = λ a b c p q. ground arith;
  eq_left = λ a b c p. ground arith;
}

exact_first-IsOrder : IsOrder exact_first
exact_first-IsOrder = record {
  swap_eq = λ a b. ground arith;
  lt_trans = λ a b c p q. ground arith;
  eq_left = λ a b c p. ground arith;
}

compare_routes-IsOrder : IsOrder compare_routes
unfolding compare_routes
compare_routes-IsOrder = lex-IsOrder _ _ longest-IsOrder (
    lex-IsOrder _ _ (comap-IsOrder is_wildcard exact_first exact_first-IsOrder) (
      lex-IsOrder _ _ (comap-IsOrder (λ (r : L7Route). r.host) text_compare text_compare-IsOrder)
        (comap-IsOrder (λ (r : L7Route). r.path_glob) text_compare text_compare-IsOrder)))

-- Not after in the order of the table: not the shorter glob.
longer_first :
    (a b : L7Route) → is_gt (compare_routes a b) ≡ false → length b.path_glob ≤ length a.path_glob
unfolding compare_routes
longer_first a b h = ground arith

-- A route of the list that serves a request.
abbrev pub Serves : List L7Route → Text → Text → L7Route → Type 0
Serves l host path r = Memᴰ r l × (r.host ≡ host) × (match_path r.path_glob path ≡ true)

-- The answer to a request: none if no route serves it, else the service and strategy of one that does,
-- with a glob as long as that of any that does.
abbrev pub IsBest : List L7Route → Text → Text → Option (ServiceId × Text) → Type 0
IsBest l host path none = (r : L7Route) → ¬ Serves l host path r
IsBest l host path (some (svc, lb)) =
    (r : L7Route) × Serves l host path r
    × (r.service ≡ svc)
    × (r.lb ≡ lb)
    × ((q : L7Route) → Serves l host path q → length q.path_glob ≤ length r.path_glob)

abbrev serves : Text → Text → L7Route → Bool
serves host path r = text_eq r.host host && match_path r.path_glob path

serves_iff :
    (host path : Text) (r : L7Route)
    → (serves host path r ≡ true) ↔ ((r.host ≡ host) × (match_path r.path_glob path ≡ true))
serves_iff host path r =
    ((λ e. ground (arith, text_eq_iff r.host host)), (λ e. ground (arith, text_eq_iff r.host host)))

-- A first route that does not serve the request changes nothing.
skip_first :
    (host path : Text) (x : L7Route) (l : List L7Route) (o : Option (ServiceId × Text))
    → serves host path x ≡ false
    → IsBest l host path o
    → IsBest (x ∷ l) host path o
skip_first host path x l none out h = λ r (m, on, fits). elim (Memᴰ.cases_cons m) [
  | inl e ↦ cc (ap (serves host path) (sym e), out, (serves_iff host path r).1 (on, fits))
  | inr t ↦ h r (t, on, fits)
]
skip_first host path x l (some a) out (r, (m, on, fits), e, f, best) = (
  r,
  (Memᴰ.tail m, on, fits),
  e,
  f,
  λ q (k, on', fits'). elim (Memᴰ.cases_cons k) [
    | inl e ↦ cc (ap (serves host path) (sym e), out, (serves_iff host path q).1 (on', fits'))
    | inr t ↦ best q (t, on', fits')
  ],
)

first_match-IsBest :
    (host path : Text) (l : List L7Route)
    → IsSorted compare_routes l
    → IsBest l host path (first_match host path l)
unfolding first_match
first_match-IsBest host path [] s = λ r (m, on, fits). elim m [ ]
first_match-IsBest host path (x ∷ l) s = elim (Bool-cases (serves host path x)) [
  | inl hit ↦
      let (on, fits) = (serves_iff host path x).0 hit in
      rw hit (
        x,
        (Memᴰ.head refl, on, fits),
        refl,
        refl,
        λ q (k, on', fits'). elim (Memᴰ.cases_cons k) [
          | inl e ↦ rw e (omega arith)
          | inr t ↦ longer_first x q (first_le compare_routes compare_routes-IsOrder s q t)
        ],
      )
  | inr miss ↦ rw miss (
      skip_first host path x l (first_match host path l) miss
        (first_match-IsBest host path l (tail-IsSorted compare_routes compare_routes-IsOrder s)))
]

abbrev l7_of : RouteConflict ⊎ Router → List L7Route
l7_of (inl e) = []
l7_of (inr r) = r.l7_routes

built-IsSorted :
    (b : RouteConflict ⊎ Building) (table : Router)
    → finish b ≡ inr table
    → IsSorted compare_routes table.l7_routes
unfolding finish
built-IsSorted (inl e) table h = cc h
built-IsSorted (inr b) table h =
    let e : sort compare_routes b.l7 ≡ table.l7_routes = ap l7_of h in
    rw (← e) (sort-IsSorted compare_routes compare_routes-IsOrder b.l7)

-- In a table that `BuildRouter` returned, `LookupL7` answers a host and a path with a route of the table
-- for that host whose glob matches the path and is at least as long as that of any other such route,
-- and with nothing exactly if there is none.
pub lookup_l7-IsBest :
    (routes : List (ServiceId × Route)) (table : Router) (host path : Text)
    → build_router routes ≡ inr table
    → IsBest table.l7_routes host path (lookup_l7 (some table) host path)
unfolding build_router lookup_l7
lookup_l7-IsBest routes table host path built =
    first_match-IsBest host path table.l7_routes (built-IsSorted (add_all routes empty) table built)
