-- ===== src/Ingress/Sticky.antt =====
-- internal/ingress/l4.go: the backend of a connection or a packet on a layer-4 port.
use proxa.Prelude.{
  ℕ, ◌≡◌, inl, inr, refl, ap, ◌∙◌, true, false, List, [], ◌∷◌, ◌++◌, Option, none, some,
  if◌then◌else◌, any, ◌==◌, Bool-cases, arith, Memᴰ,
}
use mathlib.Core.Option
use mathlib.Core.Option.{some_inj}
use proxa.Prelude.Int.{ℤ, pos, ltb_ℤ, ◌+ℤ◌, ◌<ℤ◌}
use proxa.Prelude.Text.{Text, codes, show_ℤ, text_eq, text_eq_iff}
use proxa.Prelude.Maps.{Map, lookup, put, lookup-put, text-Eq}
use proxa.Ingress.{Backend, ServiceId, service-Eq}
use proxa.Ingress.Pool.{BackendPool, Pools, pick}

-- `udpStickyEntry`, the time in nanoseconds.
pub record StickyEntry : Type 0 where
  pub backend : Backend
  pub expires : ℤ

-- What a forwarder changes: its own map of sources and, through the cursors, the pools.
pub record Forwarder : Type 0 where
  pub udp_route : Map Text StickyEntry
  pub pools : Pools

abbrev pub thirty_seconds : ℤ
thirty_seconds = pos 30000000000

-- `net.JoinHostPort`: brackets around a host with a colon.
abbrev join_host_port : Text → ℤ → Text
join_host_port ip port =
    (if any (λ c. c == b':') ip then codes "[" ++ ip ++ codes "]" else ip) ++ b':' ∷ show_ℤ port

before : (a b : ℤ) → a <ℤ b → ltb_ℤ a b ≡ true
before a b h = ground arith

module _ (rand : ℕ → ℕ) (svc : ServiceId) (lb : Text) where
  -- The pool of the service, and the pick from it.
  pub from_pool : Pools → Option BackendPool → Option Backend × Pools
  from_pool pools none = (none, pools)
  from_pool pools (some p) = let (o, q) = pick rand lb p in (o, put svc q pools)

  -- `handleTCPConn`: the address that is dialled; `none` drops the connection.
  unfoldable pub tcp_target : Pools → Option Text × Pools
  unfolding from_pool
  tcp_target pools =
      let (o, after) = from_pool pools (lookup svc pools) in
      (Option.map (λ b. join_host_port b.ip_address b.port) o, after)

  -- A new choice is remembered for thirty seconds.
  pub remember :
      Text → ℤ → Map Text StickyEntry → Option Backend × Pools → Option Backend × Forwarder
  remember src now routes (none, pools) = (none, record { udp_route = routes; pools = pools })
  remember src now routes (some b, pools) = (
    some b,
    record {
      udp_route = put src (record { backend = b; expires = now +ℤ thirty_seconds }) routes;
      pools = pools;
    },
  )

  pub choose : Text → ℤ → Forwarder → Option Backend × Forwarder
  unfolding remember from_pool
  choose src now f = remember src now f.udp_route (from_pool f.pools (lookup svc f.pools))

  pub by_entry : Text → ℤ → Forwarder → Option StickyEntry → Option Backend × Forwarder
  unfolding choose
  by_entry src now f none = choose src now f
  by_entry src now f (some e) =
      if ltb_ℤ now e.expires then (some e.backend, f) else choose src now f

  -- `pickUDPBackend`, with one reading of the clock.
  unfoldable pub pick_udp_backend : Text → ℤ → Forwarder → Option Backend × Forwarder
  unfolding by_entry
  pick_udp_backend src now f = by_entry src now f (lookup src f.udp_route)

  -- A packet, with the pools as the reconciler has left them by then.
  pub record Packet : Type 0 where
    pub src : Text
    pub at : ℤ
    pub pools_then : Pools

  -- The packets that a forwarder receives, in order.
  pub receive_all : List Packet → Forwarder → Forwarder
  unfolding pick_udp_backend
  receive_all [] f = f
  receive_all (p ∷ rest) f =
      receive_all rest (pick_udp_backend p.src p.at (record f { pools = p.pools_then })).1

  remember-other :
      (src j : Text) (now : ℤ) (routes : Map Text StickyEntry) (o : Option Backend × Pools)
      → text_eq j src ≡ false
      → lookup src (remember j now routes o).1.udp_route ≡ lookup src routes
  unfolding remember
  remember-other src j now routes (none, pools) ne = refl
  remember-other src j now routes (some b, pools) ne =
      lookup-put j src (record { backend = b; expires = now +ℤ thirty_seconds }) routes ∙ rw ne refl

  by_entry-other :
      (src j : Text) (now : ℤ) (f : Forwarder) (o : Option StickyEntry)
      → text_eq j src ≡ false
      → lookup src (by_entry j now f o).1.udp_route ≡ lookup src f.udp_route
  unfolding by_entry choose
  by_entry-other src j now f none ne =
      remember-other src j now f.udp_route (from_pool f.pools (lookup svc f.pools)) ne
  by_entry-other src j now f (some e) ne = elim (Bool-cases (ltb_ℤ now e.expires)) [
    | inl live ↦ rw live refl
    | inr late ↦
        rw late (remember-other src j now f.udp_route (from_pool f.pools (lookup svc f.pools)) ne)
  ]

  pick_udp_backend-keeps :
      (src j : Text) (now : ℤ) (f : Forwarder) (e : StickyEntry)
      → lookup src f.udp_route ≡ some e
      → now <ℤ e.expires
      → lookup src (pick_udp_backend j now f).1.udp_route ≡ some e
  unfolding pick_udp_backend
  pick_udp_backend-keeps src j now f e at live = elim (Bool-cases (text_eq j src)) [
    | inl same ↦
        let here : lookup j f.udp_route ≡ some e = rw ((text_eq_iff j src).0 same) at in
        rw here (rw (before now e.expires live) at)
    | inr other ↦ by_entry-other src j now f (lookup j f.udp_route) other ∙ at
  ]

  receive_all-keeps :
      (src : Text) (e : StickyEntry) (ps : List Packet) (f : Forwarder)
      → lookup src f.udp_route ≡ some e
      → ((p : Packet) → Memᴰ p ps → p.at <ℤ e.expires)
      → lookup src (receive_all ps f).udp_route ≡ some e
  unfolding receive_all
  receive_all-keeps src e [] f at live = at
  receive_all-keeps src e (p ∷ ps) f at live =
      receive_all-keeps src e ps _
        (pick_udp_backend-keeps src p.src p.at (record f { pools = p.pools_then }) e at
          (live p (Memᴰ.head refl)))
        (λ q m. live q (Memᴰ.tail m))

  abbrev entry : ℤ → Backend → StickyEntry
  entry now b = record { backend = b; expires = now +ℤ thirty_seconds }

  remember-stores :
      (src : Text) (now : ℤ) (routes : Map Text StickyEntry) (o : Option Backend × Pools)
      (b : Backend)
      → (remember src now routes o).0 ≡ some b
      → lookup src (remember src now routes o).1.udp_route ≡ some (entry now b)
  unfolding remember
  remember-stores src now routes (none, pools) b h = cc h
  remember-stores src now routes (some c, pools) b h =
      lookup-put src src (entry now c) routes
      ∙ rw ((text_eq_iff src src).1 refl) (ap (λ d. some (entry now d)) (some_inj.0 h))

  pick_udp_backend-stores :
      (src : Text) (now : ℤ) (f : Forwarder) (b : Backend)
      → lookup src f.udp_route ≡ none
      → (pick_udp_backend src now f).0 ≡ some b
      → lookup src (pick_udp_backend src now f).1.udp_route ≡ some (entry now b)
  unfolding pick_udp_backend by_entry choose
  pick_udp_backend-stores src now f b new h =
      rw new (
        remember-stores src now f.udp_route (from_pool f.pools (lookup svc f.pools)) b
          (rw new at h))

  pick_udp_backend-live :
      (src : Text) (now : ℤ) (f : Forwarder) (e : StickyEntry)
      → lookup src f.udp_route ≡ some e
      → now <ℤ e.expires
      → (pick_udp_backend src now f).0 ≡ some e.backend
  unfolding pick_udp_backend by_entry
  pick_udp_backend-live src now f e at live = rw (at, before now e.expires live) refl

  -- A source that had no entry, and that got a backend, gets the same one for thirty seconds, whatever
  -- other packets come in between and whatever becomes of the pools.
  pub pick_udp_backend-sticky :
      (src : Text) (now later : ℤ) (f : Forwarder) (b : Backend) (ps : List Packet) (pools : Pools)
      → lookup src f.udp_route ≡ none
      → (pick_udp_backend src now f).0 ≡ some b
      → ((p : Packet) → Memᴰ p ps → p.at <ℤ (now +ℤ thirty_seconds))
      → later <ℤ (now +ℤ thirty_seconds)
      → (pick_udp_backend src later
          (record (receive_all ps (pick_udp_backend src now f).1) { pools = pools })).0
        ≡ some b
  pick_udp_backend-sticky src now later f b ps pools new chosen live soon =
      pick_udp_backend-live src later
        (record (receive_all ps (pick_udp_backend src now f).1) { pools = pools }) (entry now b)
        (receive_all-keeps src (entry now b) ps (pick_udp_backend src now f).1
          (pick_udp_backend-stores src now f b new chosen) live)
        soon
