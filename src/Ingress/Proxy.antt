-- ===== src/Ingress/Proxy.antt =====
-- internal/ingress/proxy.go and `redirectToHTTPS` of certmagic_ingress.go: where an HTTP request goes. The
-- transport to a backend is an argument; its answer is `none`, or the text of an error.
pub mod Forwarding
use proxa.Prelude.{
  Bool, true, false, not, List, [], ◌∷◌, ◌++◌, Option, none, some, if◌then◌else◌, is_nil, reverse,
  ◌==◌, ℕ,
}
use mathlib.Core.Option
use proxa.Prelude.Int.{ℤ, pos, eqb_ℤ}
use proxa.Prelude.Text.{Text, codes, is_digit, show_ℤ}
use proxa.Prelude.Maps.{lookup, put}
use proxa.Ingress.{Backend, ServiceId, service-Eq}
use proxa.Ingress.Router.{Router, lookup_l7}
use proxa.Ingress.Pool.{BackendPool, Pools, pick}

-- The loop of `stripPort` from the last byte on: what stands before the colon, if only digits follow it.
pub before_port : Text → Option Text
unfolding is_digit
before_port [] = none
before_port (c ∷ rest) =
    let earlier = before_port rest in
    if c == b':' then some rest else if is_digit c then earlier else none

-- `stripPort`
unfoldable pub strip_port : Text → Text
unfolding before_port
strip_port host = Option.get_or (Option.map reverse (before_port (reverse host))) host

-- What the proxy reads of a request; an empty `forwarded_host` is a header that is not set.
pub record Request : Type 0 where
  pub host : Text
  pub path : Text
  pub request_uri : Text
  pub forwarded_host : Text

-- What the `Director` sends.
pub record Outgoing : Type 0 where
  pub url_host : Text
  pub host : Text
  pub forwarded_host : Text
  pub forwarded_proto : Text

pub data Reply : Type 0 where
  not_found : Reply
  -- `writeRetryAfter503`
  unavailable : (reason : Text) → Reply
  forwarded : Outgoing → Reply

abbrev pub host_port : Backend → Text
host_port b = b.ip_address ++ b':' ∷ show_ℤ b.port

unfoldable pub director : Request → Backend → Outgoing
director req b = record {
  url_host = host_port b;
  host = req.host;
  forwarded_host = if is_nil req.forwarded_host then req.host else req.forwarded_host;
  forwarded_proto = codes "https";
}

-- The answer of the backend, or the `ErrorHandler`.
pub answer : Outgoing → Option Text → Reply
answer out none = forwarded out
answer out (some e) = unavailable e

module _ (rand : ℕ → ℕ) (transport : Outgoing → Option Text) where
  pub picked : Request → ServiceId → Pools → Option Backend × BackendPool → Reply × Pools
  unfolding director answer
  picked req svc pools (none, p) = (unavailable (codes "no healthy backends"), put svc p pools)
  picked req svc pools (some b, p) =
      let out = director req b in (answer out (transport out), put svc p pools)

  pub pooled : Request → ServiceId → Text → Pools → Option BackendPool → Reply × Pools
  unfolding picked
  pooled req svc lb pools none = (unavailable (codes "no backend pool for service"), pools)
  pooled req svc lb pools (some p) = picked req svc pools (pick rand lb p)

  pub routed : Request → Pools → Option (ServiceId × Text) → Reply × Pools
  unfolding pooled
  routed req pools none = (not_found, pools)
  routed req pools (some (svc, lb)) = pooled req svc lb pools (lookup svc pools)

  -- `ServeHTTP`
  unfoldable pub serve_http : Option Router → Pools → Request → Reply × Pools
  unfolding routed strip_port
  serve_http router pools req = routed req pools (lookup_l7 router (strip_port req.host) req.path)

-- The target of `redirectToHTTPS`.
unfoldable pub redirect_target : (https_port : ℤ) → Request → Text
unfolding strip_port
redirect_target https_port req =
    let site = codes "https://" ++ strip_port req.host in
    (if eqb_ℤ https_port (pos 443) then site else site ++ b':' ∷ show_ℤ https_port)
    ++ req.request_uri
