-- ===== src/Ingress/Proxy/Forwarding.antt =====
-- Where the proxy sends a request.
use proxa.Prelude.{
  ℕ, ◌≤◌, ◌≡◌, ◌≢◌, ◌↔◌, inr, refl, ◌∙◌, Bool, true, List, [], ◌∷◌, ◌++◌, Option, none, some,
  length, arith, Memᴰ, reverse, reverse-append, reverse-cons, ◌&&◌,
}
use mathlib.Core.List.{append_assoc, reverse-reverse}
use proxa.Prelude.Text.{Text, is_digit}
use proxa.Prelude.Maps.{lookup}
use proxa.Types.{Route}
use proxa.Ingress.{Backend, ServiceId, service-Eq}
use proxa.Ingress.Router.{Router, L7Route, build_router, lookup_l7}
use proxa.Ingress.Router.Lookup.{Serves, IsBest, lookup_l7-IsBest}
use proxa.Ingress.Pool.{BackendPool, Pools, pick}
use proxa.Ingress.Pool.Published.{pick-healthy}
use proxa.Ingress.Proxy.{
  Request, Outgoing, not_found, forwarded, host_port, director, answer, picked, pooled, routed,
  serve_http, strip_port, before_port,
}

abbrev pub all_digits : Text → Bool
all_digits [] = true
all_digits (c ∷ s) = is_digit c && all_digits s

all_digits-snoc : (s : Text) (c : ℕ) → all_digits (c ∷ s) ≡ true → all_digits (s ++ c ∷ []) ≡ true
all_digits-snoc [] c h = ground (arith, h)
all_digits-snoc (d ∷ s) c h = ground (arith, h, all_digits-snoc s c)

before_port-digits :
    (ds rest : Text) → all_digits ds ≡ true → before_port (ds ++ b':' ∷ rest) ≡ some rest
unfolding before_port is_digit
before_port-digits [] rest h = refl
before_port-digits (c ∷ ds) rest h = ground (arith, h, before_port-digits ds rest)

all_digits-reverse : (s : Text) → all_digits s ≡ true → all_digits (reverse s) ≡ true
all_digits-reverse [] h = refl
all_digits-reverse (c ∷ s) h =
    rw (reverse-cons c s) (all_digits-snoc (reverse s) c (ground (arith, h, all_digits-reverse s)))

-- A host that ends in a colon and digits is stripped of both.
strip_port-joined : (h ds : Text) → all_digits ds ≡ true → strip_port (h ++ b':' ∷ ds) ≡ h
unfolding strip_port
strip_port-joined h ds d =
    let reversed : reverse (h ++ b':' ∷ ds) ≡ reverse ds ++ b':' ∷ reverse h =
      reverse-append h (b':' ∷ ds)
      ∙ rw (reverse-cons b':' ds) (append_assoc (reverse ds) (b':' ∷ []) (reverse h)) in
    rw (reversed, before_port-digits (reverse ds) (reverse h) (all_digits-reverse ds d))
      (reverse-reverse h)

answer-forwards :
    (out sent : Outgoing) (o : Option Text) → answer sent o ≡ forwarded out → out ≡ sent
unfolding answer
answer-forwards out sent none h = cc h
answer-forwards out sent (some e) h = cc h

module _ (rand : ℕ → ℕ) (transport : Outgoing → Option Text) where
  picked-forwards :
      (req : Request) (svc : ServiceId) (pools : Pools) (o : Option Backend × BackendPool)
      (out : Outgoing)
      → (picked rand transport req svc pools o).0 ≡ forwarded out
      → (b : Backend) × (o.0 ≡ some b) × (out ≡ director req b)
  unfolding picked
  picked-forwards req svc pools (none, p) out h = cc h
  picked-forwards req svc pools (some b, p) out h =
      (b, refl, answer-forwards out (director req b) (transport (director req b)) h)

  pooled-forwards :
      (req : Request) (svc : ServiceId) (lb : Text) (pools : Pools) (o : Option BackendPool)
      (out : Outgoing)
      → (pooled rand transport req svc lb pools o).0 ≡ forwarded out
      → (p : BackendPool) × (b : Backend) × (o ≡ some p)
        × Memᴰ b p.backends
        × (b.healthy ≡ true)
        × (out ≡ director req b)
  unfolding pooled
  pooled-forwards req svc lb pools none out h = cc h
  pooled-forwards req svc lb pools (some p) out h =
      let (b, at, sent) = picked-forwards req svc pools (pick rand lb p) out h in
      let (member, well) = pick-healthy rand lb p b at in (p, b, refl, member, well, sent)

  -- Where a request goes that is forwarded: a route serves it, by its host without the port and its
  -- path, with a glob as long as that of any route that does, and `out` names a healthy backend of that
  -- route's service, by its address and port, and the request's host.
  abbrev pub Forwards : Router → Pools → Request → Outgoing → Type 0
  Forwards table pools req out =
      (r : L7Route) × Serves table.l7_routes (strip_port req.host) req.path r
      × ((q : L7Route)
          → Serves table.l7_routes (strip_port req.host) req.path q
          → length q.path_glob ≤ length r.path_glob)
      × ((p : BackendPool) × (b : Backend) × (lookup r.service pools ≡ some p)
          × Memᴰ b p.backends
          × (b.healthy ≡ true)
          × (out.url_host ≡ host_port b)
          × (out.host ≡ req.host))

  routed-Forwards :
      (table : Router) (pools : Pools) (req : Request) (out : Outgoing)
      (o : Option (ServiceId × Text))
      → IsBest table.l7_routes (strip_port req.host) req.path o
      → (routed rand transport req pools o).0 ≡ forwarded out
      → Forwards table pools req out
  unfolding routed director
  routed-Forwards table pools req out none best e = cc e
  routed-Forwards table pools req out (some (svc, lb)) (r, on, same, strategy, longest) e =
      let (p, b, found, member, well, sent) =
        pooled-forwards req svc lb pools (lookup svc pools) out e in
      (r, on, longest, (p, b, rw same found, member, well, rw sent refl, rw sent refl))

  -- A request that is forwarded is one that a route of the table serves, by its host without the port
  -- and its path, with a glob as long as that of any route that does; it goes to a healthy backend of
  -- that route's service, at the backend's address and port, with the request's host.
  pub serve_http-Forwards :
      (routes : List (ServiceId × Route)) (table : Router) (pools : Pools) (req : Request)
      (out : Outgoing)
      → build_router routes ≡ inr table
      → (serve_http rand transport (some table) pools req).0 ≡ forwarded out
      → Forwards table pools req out
  unfolding serve_http
  serve_http-Forwards routes table pools req out built h =
      routed-Forwards table pools req out (lookup_l7 (some table) (strip_port req.host) req.path)
        (lookup_l7-IsBest routes table (strip_port req.host) req.path built) h

  answer-found : (out : Outgoing) (o : Option Text) → answer out o ≢ not_found
  unfolding answer
  answer-found out none h = cc h
  answer-found out (some e) h = cc h

  picked-found :
      (req : Request) (svc : ServiceId) (pools : Pools) (o : Option Backend × BackendPool)
      → (picked rand transport req svc pools o).0 ≢ not_found
  unfolding picked
  picked-found req svc pools (none, q) h = cc h
  picked-found req svc pools (some b, q) h =
      answer-found (director req b) (transport (director req b)) h

  pooled-found :
      (req : Request) (svc : ServiceId) (lb : Text) (pools : Pools) (o : Option BackendPool)
      → (pooled rand transport req svc lb pools o).0 ≢ not_found
  unfolding pooled
  pooled-found req svc lb pools none h = cc h
  pooled-found req svc lb pools (some p) h = picked-found req svc pools (pick rand lb p) h

  routed-not_found :
      (table : Router) (pools : Pools) (req : Request) (o : Option (ServiceId × Text))
      → IsBest table.l7_routes (strip_port req.host) req.path o
      → ((routed rand transport req pools o).0 ≡ not_found)
        ↔ ((r : L7Route) → ¬ Serves table.l7_routes (strip_port req.host) req.path r)
  unfolding routed
  routed-not_found table pools req none best = (λ h. best, λ h. refl)
  routed-not_found table pools req (some (svc, lb)) (r, on, same, strategy, longest) =
      (λ h. absurd (pooled-found req svc lb pools (lookup svc pools) h), λ h. absurd (h r on))

  -- A request is answered "not found" exactly where no route of the table serves it.
  serve_http-not_found :
      (routes : List (ServiceId × Route)) (table : Router) (pools : Pools) (req : Request)
      → build_router routes ≡ inr table
      → ((serve_http rand transport (some table) pools req).0 ≡ not_found)
        ↔ ((r : L7Route) → ¬ Serves table.l7_routes (strip_port req.host) req.path r)
  unfolding serve_http
  serve_http-not_found routes table pools req built =
      routed-not_found table pools req (lookup_l7 (some table) (strip_port req.host) req.path)
        (lookup_l7-IsBest routes table (strip_port req.host) req.path built)
