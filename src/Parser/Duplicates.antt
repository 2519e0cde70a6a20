-- ===== src/Parser/Duplicates.antt =====
-- A route that a task definition declares twice.
use proxa.Prelude.{◌≡◌, ◌∙◌, false, [], ◌∷◌, none, arith}
use proxa.Prelude.Text.{text_eq_refl}
use proxa.Types.{Route}
use proxa.Ingress.{ServiceId, l4_eq}
use proxa.Ingress.Router.{build_router, hp_eq, l4_key, hp_key}
use proxa.Ingress.Router.Conflicts.{is_built, build_router-is_built}
use proxa.Parser.{validate_route, validate_routes}

-- Validation of the routes accepts the same valid route twice, and the routing table of one service with
-- both is refused.
validate_routes-twice :
    (svc : ServiceId) (r : Route)
    → validate_route r ≡ none
    → (validate_routes (r ∷ r ∷ []) ≡ none)
      × (is_built (build_router ((svc, r) ∷ (svc, r) ∷ [])) ≡ false)
unfolding validate_routes l4_eq hp_eq hp_key l4_key
validate_routes-twice svc r h = (
  ground (arith, h),
  build_router-is_built ((svc, r) ∷ (svc, r) ∷ [])
      ∙ ground (
        arith,
        text_eq_refl r.l4,
        text_eq_refl r.host,
        text_eq_refl r.path,
        text_eq_refl svc.project,
      ),
)
