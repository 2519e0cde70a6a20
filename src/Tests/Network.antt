-- ===== src/Tests/Network.antt =====
-- Examples of the HTTP proxy and of the forwarder of UDP packets.
use mathlib.Core.List.Memᴰ
use mathlib.Core.Option
use proxa.Prelude.{◌≡◌, inl, inr, refl, List, [], ◌∷◌, true, none, some, Memᴰ, arith}
use proxa.Prelude.Int.{ℤ, pos, ◌<ℤ◌, ◌+ℤ◌}
use proxa.Prelude.Text.{Text, codes, text_eq, show_ℤ}
use proxa.Prelude.Maps.{lookup, put}
use proxa.Prelude.Sort.{sort}
use proxa.Types.{Route}
use proxa.Ingress.{ServiceId, Backend, service_eq}
use proxa.Ingress.Router.{Router, build_router, lookup_l7, hp_eq, compare_routes}
use proxa.Ingress.Router.Clashes.{Entry}
use proxa.Ingress.Pool.{Pools, pick}
use proxa.Ingress.Proxy.{Request, Outgoing, forwarded, director, serve_http}
use proxa.Ingress.Proxy.Forwarding.{Forwards, serve_http-Forwards}
use proxa.Ingress.Sticky.{
  Forwarder, Packet, thirty_seconds, pick_udp_backend, receive_all, pick_udp_backend-sticky,
}

abbrev web_id : ServiceId
web_id = record { project = codes "shop"; service = codes "web" }

abbrev at_root : Route
at_root = record { host = codes "a.io"; path = []; l4 = []; port = pos 0; lb_strategy = [] }

abbrev entries : List Entry
entries = (web_id, at_root) ∷ []

abbrev table : Router
table = record {
  l7_routes =
      (record {
        project = codes "shop";
        host = codes "a.io";
        path_glob = [];
        service = web_id;
        lb = [];
      })
      ∷ [];
  l4_routes = [];
}

table_built : build_router entries ≡ inr table
unfolding build_router lookup put text_eq hp_eq sort compare_routes
table_built = refl

abbrev backend : Backend
backend = record {
  container_id = codes "x";
  ip_address = codes "10.0.0.7";
  port = pos 8080;
  healthy = true;
}

abbrev pools : Pools
pools = (web_id, record { backends = backend ∷ []; cursor = 3 }) ∷ []

abbrev request : Request
request = record {
  host = codes "a.io:8443";
  path = codes "/cart";
  request_uri = codes "/cart?n=1";
  forwarded_host = [];
}

abbrev sent : Outgoing
sent = record {
  url_host = codes "10.0.0.7:8080";
  host = codes "a.io:8443";
  forwarded_host = codes "a.io:8443";
  forwarded_proto = codes "https";
}

served : (serve_http (λ n. 0) (λ out. none) (some table) pools request).0 ≡ forwarded sent
unfolding serve_http lookup_l7 pick lookup text_eq service_eq director Option.bind show_ℤ
served = refl

serve_http-Forwards_example : Forwards (λ n. 0) (λ out. none) table pools request sent
serve_http-Forwards_example =
    serve_http-Forwards (λ n. 0) (λ out. none) entries table pools request sent table_built served

-- The source is seen at second 5, the pool is emptied, another source sends, and it is back at second 34.
abbrev idle : Forwarder
idle = record { udp_route = []; pools = pools }

abbrev client : Text
client = codes "10.1.1.1:5000"

abbrev first_time : ℤ
first_time = pos 5000000000

abbrev other_packet : Packet (λ n. 0) web_id []
other_packet = record { src = codes "10.1.1.2:5000"; at = pos 9000000000; pools_then = [] }

client_served : (pick_udp_backend (λ n. 0) web_id [] client first_time idle).0 ≡ some backend
unfolding pick_udp_backend pick lookup text_eq service_eq Option.bind
client_served = refl

before_end :
    (p : Packet (λ n. 0) web_id [])
    → Memᴰ p (other_packet ∷ [])
    → p.at <ℤ (first_time +ℤ thirty_seconds)
unfolding ◌+ℤ◌
before_end p m = elim (Memᴰ.cases_cons m) [
  | inl first ↦ rw first (omega arith)
  | inr later ↦ elim later [ ]
]

back_in_time : pos 34000000000 <ℤ (first_time +ℤ thirty_seconds)
unfolding ◌+ℤ◌
back_in_time = omega arith

pick_udp_backend-sticky_example :
    (pick_udp_backend
      (λ n. 0)
      web_id
      []
      client
      (pos 34000000000)
      (record (receive_all
        (λ n. 0)
        web_id
        []
        (other_packet ∷ [])
        (pick_udp_backend (λ n. 0) web_id [] client first_time idle).1) { pools = [] })).0
    ≡ some backend
unfolding lookup
pick_udp_backend-sticky_example =
    pick_udp_backend-sticky (λ n. 0) web_id [] client first_time (pos 34000000000) idle backend
      (other_packet ∷ []) [] refl client_served before_end back_in_time
