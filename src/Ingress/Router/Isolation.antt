-- ===== src/Ingress/Router/Isolation.antt =====
-- What an accepted routing table says of the owners of hosts.
use proxa.Prelude.{◌≡◌, inl, inr, refl, sym, ap, ◌∙◌, true, false, List, [], is_nil, arith, Memᴰ}
use proxa.Prelude.Text.{text_eq, text_eq_iff}
use proxa.Prelude.Maps.{text-Eq}
use proxa.Types.{Route}
use proxa.Ingress.{ServiceId, l4-Eq}
use proxa.Ingress.Router.{hp-Eq, build_router, Router}
use proxa.Ingress.Router.Clashes.{Entry, clashes, no_clash, apart}
use proxa.Ingress.Router.Conflicts.{is_built, build_router-is_built}

same_project :
    (s t : ServiceId) (r q : Route)
    → is_nil r.l4 ≡ true
    → is_nil q.l4 ≡ true
    → text_eq q.host r.host ≡ true
    → clashes (s, r) (t, q) ≡ false
    → s.project ≡ t.project
same_project s t r q h k e f = ground (arith, text_eq_iff t.project s.project)

-- In an accepted table a host belongs to one project: two layer-7 routes for the same host are of
-- services of the same project.
pub build_router-isolates :
    (routes : List Entry) (table : Router) (s t : ServiceId) (r q : Route)
    → build_router routes ≡ inr table
    → Memᴰ (s, r) routes
    → Memᴰ (t, q) routes
    → r.l4 ≡ []
    → q.l4 ≡ []
    → r.host ≡ q.host
    → s.project ≡ t.project
build_router-isolates routes table s t r q built m k r7 q7 host =
    let clear : no_clash routes ≡ true = sym (build_router-is_built routes) ∙ ap is_built built in
    elim (apart routes (s, r) (t, q) clear m k) [
      | inl e ↦ ap (λ (x : Entry). x.0.project) e
      | inr f ↦
          same_project s t r q (rw r7 refl) (rw q7 refl) ((text_eq_iff q.host r.host).1 (sym host))
            f
    ]
