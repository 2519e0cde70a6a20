-- ===== src/Ingress/Router/Conflicts.antt =====
-- When `BuildRouter` accepts its routes: exactly when no two of them clash.
use proxa.Prelude.{
  ◌≡◌, ◌⊎◌, inl, inr, refl, ◌∙◌, Bool, true, false, not, ◌&&◌, List, [], ◌∷◌, any, arith,
}
use proxa.Prelude.Maps.{text-Eq}
use proxa.Ingress.{l4-Eq}
use proxa.Ingress.Router.{
  RouteConflict, Building, hp-Eq, add_all, build_router, empty, finish, Router,
}
use proxa.Ingress.Router.Clashes.{Entry, clashes, clashes_comm, no_clash}
use proxa.Ingress.Router.Known.{accepted, add_all-accepted, empty-Knows, no_clash_after}

-- No route of the second list clashes with one of the first.
abbrev none_clash : List Entry → List Entry → Bool
none_clash done [] = true
none_clash done (y ∷ l) = not (any (clashes y) done) && none_clash done l

none_clash_cons :
    (x : Entry) (done l : List Entry)
    → none_clash (x ∷ done) l ≡ (not (any (clashes x) l) && none_clash done l)
none_clash_cons x done [] = refl
none_clash_cons x done (y ∷ l) = rw (clashes_comm y x) (ground (arith, none_clash_cons x done l))

no_clash_split : (done l : List Entry) → no_clash_after done l ≡ (none_clash done l && no_clash l)
no_clash_split done [] = refl
no_clash_split done (y ∷ l) = ground (arith, no_clash_split (y ∷ done) l, none_clash_cons y done l)

none_clash_nil : (l : List Entry) → none_clash [] l ≡ true
none_clash_nil [] = refl
none_clash_nil (y ∷ l) = none_clash_nil l

abbrev pub is_built : RouteConflict ⊎ Router → Bool
is_built (inl e) = false
is_built (inr r) = true

is_built-finish : (b : RouteConflict ⊎ Building) → is_built (finish b) ≡ accepted b
unfolding finish
is_built-finish (inl e) = refl
is_built-finish (inr b) = refl

-- `BuildRouter` returns a table exactly when no two of its routes clash; else it returns an error.
pub build_router-is_built : (routes : List Entry) → is_built (build_router routes) ≡ no_clash routes
unfolding build_router
build_router-is_built routes =
    is_built-finish (add_all routes empty)
    ∙ add_all-accepted routes [] empty empty-Knows
    ∙ no_clash_split [] routes
    ∙ rw (none_clash_nil routes) refl
