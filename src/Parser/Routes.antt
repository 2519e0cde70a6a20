-- ===== src/Parser/Routes.antt =====
-- What a route, and a path of a route, looks like when validation accepts it.
use proxa.Prelude.{
  ℕ, zero, suc, ◌≡◌, ◌≢◌, ◌↔◌, ◌⊎◌, inl, inr, refl, ap, true, List, [], ◌∷◌, none, some, is_nil,
  length, get_elem?, arith, Memᴰ,
}
use proxa.Prelude.Int.{pos, ◌≤ℤ◌}
use proxa.Prelude.Text.{Text, codes, text_eq, text_eq_iff}
use proxa.Types.{Route}
use proxa.Parser.{
  in_ports, is_hostname, check_path, star_loop, validate_route_path, validate_route,
  validate_routes,
}

-- A `*` stands only at the end.
abbrev pub StarsEnd : Text → Type 0
StarsEnd p = (i : ℕ) → get_elem? p i ≡ some b'*' → suc i ≡ length p

star_loop→StarsEnd : (p : Text) → star_loop p ≡ none → StarsEnd p
unfolding star_loop
star_loop→StarsEnd [] h i e = cc e
star_loop→StarsEnd (c ∷ []) h zero e = refl
star_loop→StarsEnd (c ∷ d ∷ s) h zero e = ground arith
star_loop→StarsEnd (c ∷ []) h (suc i) e = cc e
star_loop→StarsEnd (c ∷ d ∷ s) h (suc i) e =
    ground (arith, star_loop→StarsEnd (d ∷ s) (ground arith) i e)

StarsEnd→star_loop : (p : Text) → StarsEnd p → star_loop p ≡ none
unfolding star_loop
StarsEnd→star_loop [] h = refl
StarsEnd→star_loop (c ∷ []) h = ground arith
StarsEnd→star_loop (c ∷ d ∷ s) h =
    let later : star_loop (d ∷ s) ≡ none =
      StarsEnd→star_loop (d ∷ s) (λ i e. omega (arith, h (suc i) e)) in
    let not_star : c ≢ b'*' = (λ e. omega (arith, h 0 (ap some e))) in
    ground (arith, later, not_star)

-- An empty path, or one that starts with a slash and has no `*` but at its end.
abbrev pub PathIsValid : Text → Type 0
PathIsValid p = (p ≡ []) ⊎ ((get_elem? p 0 ≡ some b'/') × StarsEnd p)

path→ : (p : Text) → validate_route_path p ≡ none → PathIsValid p
unfolding validate_route_path check_path
path→ [] h = inl refl
path→ (c ∷ s) h = inr (ground arith, star_loop→StarsEnd (c ∷ s) (ground arith))

→path : (p : Text) → PathIsValid p → validate_route_path p ≡ none
unfolding validate_route_path check_path
→path [] h = refl
→path (c ∷ s) (inl e) = cc e
→path (c ∷ s) (inr (e, h)) = let inner = StarsEnd→star_loop (c ∷ s) h in ground (arith, inner, e)

abbrev pub RouteIsValid : Route → Type 0
RouteIsValid r =
    (((r.l4 ≡ []) × (r.host ≢ []))
      ⊎ (((r.l4 ≡ codes "tcp") ⊎ (r.l4 ≡ codes "udp")) × (pos 1 ≤ℤ r.port) × (r.port ≤ℤ pos 65535)))
    × ((r.host ≡ []) ⊎ (is_hostname r.host ≡ true))
    × PathIsValid r.path
    × ((r.lb_strategy ≡ [])
        ⊎ ((r.lb_strategy ≡ codes "random") ⊎ (r.lb_strategy ≡ codes "round-robin")))

nil_eq : (s : Text) → text_eq s [] ≡ is_nil s
unfolding text_eq
nil_eq [] = refl
nil_eq (c ∷ s) = refl

is_nil_iff : (s : Text) → (is_nil s ≡ true) ↔ (s ≡ [])
is_nil_iff [] = ((λ e. refl), (λ e. refl))
is_nil_iff (c ∷ s) = ((λ e. cc e), (λ e. cc e))

route→ : (r : Route) → validate_route r ≡ none → RouteIsValid r
unfolding validate_route in_ports
route→ r h =
    let path : validate_route_path r.path ≡ none = ground arith in
    (
      ground (
        arith,
        is_nil_iff r.l4,
        is_nil_iff r.host,
        nil_eq r.l4,
        text_eq_iff r.l4 (codes "tcp"),
        text_eq_iff r.l4 (codes "udp"),
      ),
      ground (arith, is_nil_iff r.host),
      path→ r.path path,
      ground (
        arith,
        text_eq_iff r.lb_strategy [],
        text_eq_iff r.lb_strategy (codes "random"),
        text_eq_iff r.lb_strategy (codes "round-robin"),
      ),
    )

→route : (r : Route) → RouteIsValid r → validate_route r ≡ none
unfolding validate_route in_ports
→route r (shape, host, path, lb) =
    let p = →path r.path path in
    ground (
      arith,
      p,
      is_nil_iff r.l4,
      is_nil_iff r.host,
      nil_eq r.l4,
      text_eq_iff r.l4 (codes "tcp"),
      text_eq_iff r.l4 (codes "udp"),
      text_eq_iff r.lb_strategy [],
      text_eq_iff r.lb_strategy (codes "random"),
      text_eq_iff r.lb_strategy (codes "round-robin"),
    )

abbrev pub AllValid : List Route → Type 0
AllValid l = (r : Route) → Memᴰ r l → RouteIsValid r

routes→ : (l : List Route) → validate_routes l ≡ none → AllValid l
unfolding validate_routes
routes→ [] h r m = elim m [ ]
routes→ (x ∷ l) h r (Memᴰ.head e) = rw e (route→ x (ground arith))
routes→ (x ∷ l) h r (Memᴰ.tail m) = routes→ l (ground arith) r m

→routes : (l : List Route) → AllValid l → validate_routes l ≡ none
unfolding validate_routes
→routes [] h = refl
→routes (x ∷ l) h =
    let here = →route x (h x (Memᴰ.head refl)) in
    let later = →routes l (λ r m. h r (Memᴰ.tail m)) in ground (arith, here, later)

-- The routes of a task definition are accepted exactly when each is: a layer-7 route with a host, or a
-- tcp or udp route with a port from 1 to 65535; a host, if any, of the form of a DNS name; a path that
-- is empty, or starts with a slash and has no `*` but at its end; and a known strategy.
pub validate_routes-iff-AllValid : (l : List Route) → (validate_routes l ≡ none) ↔ AllValid l
validate_routes-iff-AllValid l = (routes→ l, →routes l)
