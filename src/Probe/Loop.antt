-- ===== src/Probe/Loop.antt =====
-- internal/probe/manager.go: what `probeLoop` sets up for one container, and its rounds. The results of
-- the probes are arguments; `none` in place of a plan is a loop that returns at once.
use proxa.Prelude.{
  ◌/◌, ◌≡◌, ◌⊎◌, Bool, true, false, not, ◌&&◌, ◌||◌, List, [], ◌∷◌, Option, none, some,
  if◌then◌else◌, is_nil, arith,
}
use mathlib.Core.Option
use proxa.Prelude.Int.{ℤ, pos, ltb_ℤ, leb_ℤ, eqb_ℤ, ◌<ℤ◌, ◌≤ℤ◌, pos_part}
use proxa.Prelude.Text.{Text, codes, text_eq}
use proxa.Types.{TaskDef, HealthCheck, Route, PortSpec}
use proxa.Probe.{Result, Manager, record_result}

-- The interval, the timeout and the retries of a loop.
pub record Timing : Type 0 where
  pub interval : ℤ
  pub timeout : ℤ
  pub retries : ℤ

unfoldable interval_of : ℤ → ℤ
interval_of n = if leb_ℤ n (pos 0) then pos 10000000000 else n

unfoldable timeout_of : (timeout interval : ℤ) → ℤ
timeout_of timeout interval =
    if leb_ℤ timeout (pos 0) || ltb_ℤ interval timeout
    then (let half = pos (pos_part interval / 2) in
        if leb_ℤ half (pos 0) then pos 1000000000 else half)
    else timeout

unfoldable pub timing : HealthCheck → Timing
unfolding interval_of timeout_of
timing h = record {
  interval = interval_of h.interval;
  timeout = timeout_of h.timeout (interval_of h.interval);
  retries = if leb_ℤ h.retries (pos 0) then pos 3 else h.retries;
}

-- `lookupRouteHost`
route_host : List Route → Text
route_host [] = []
route_host (r ∷ rest) =
    let later = route_host rest in if is_nil r.l4 && not (is_nil r.host) then r.host else later

-- Where an HTTP probe goes: through the ingress with a host, or to an address and a port.
data Dial : Type 0 where
  via_ingress : (host : Text) → Dial
  direct : (ip : Text) → (port : ℤ) → Dial

-- The two probes of a loop, the second of which runs a command.
record Plan : Type 0 where
  http : Option Dial
  command : List Text

abbrev first_container : List PortSpec → ℤ → ℤ
first_container [] port = port
first_container (e ∷ rest) port = if eqb_ℤ port (pos 0) then e.container else port

direct_dial : TaskDef → Option Text → Option Dial
direct_dial spec none = none
direct_dial spec (some ip) = some (direct ip (first_container spec.expose spec.health.port))

ingress_dial : Text → Option Dial
ingress_dial [] = none
ingress_dial (c ∷ host) = some (via_ingress (c ∷ host))

-- `ingress_port` is `m.ingressHTTPPort`, and `inspected` the address that `InspectContainer` answers.
http_dial : (ingress_port : ℤ) → (inspected : Option Text) → TaskDef → Option Dial
unfolding direct_dial ingress_dial route_host
http_dial ingress_port inspected spec =
    if text_eq spec.health.via (codes "ingress") && ltb_ℤ (pos 0) ingress_port
    then ingress_dial (route_host spec.routes)
    else direct_dial spec inspected

-- The probes of a loop; `none` where it returns without probing.
unfoldable plan : (ingress_port : ℤ) → (inspected : Option Text) → TaskDef → Option Plan
unfolding http_dial
plan ingress_port inspected spec =
    if is_nil spec.health.path
    then some (record { http = none; command = spec.health.command })
    else Option.map (λ d. record { http = some d; command = spec.health.command })
        (http_dial ingress_port inspected spec)

abbrev has_http : Plan → Bool
has_http p = Option.get_or (Option.map (λ d. true) p.http) false

-- `runOnce`: the result that is recorded, of what the two probes answer; `zero` is the zero result.
unfoldable round : Plan → (zero http exec : Result) → Result
round p zero http exec =
    if has_http p && not http.healthy
    then http
    else if not (is_nil p.command)
    then exec
    else if has_http p
    then http
    else zero

-- The rounds of a loop, each with the answers of the two probes.
run_rounds : Plan → Result → Text → List (Result × Result) → Manager → Manager
unfolding round
run_rounds p zero id [] m = m
run_rounds p zero id ((http, exec) ∷ rest) m =
    run_rounds p zero id rest (record_result id (round p zero http exec) m).0

-- The interval, the timeout and the retries of a loop are positive, and the timeout is at most the
-- interval unless that is one nanosecond.
pub timing-bounds :
    (h : HealthCheck)
    → (pos 0 <ℤ (timing h).interval)
      × (pos 0 <ℤ (timing h).timeout)
      × (pos 0 <ℤ (timing h).retries)
      × (((timing h).interval ≡ pos 1) ⊎ ((timing h).timeout ≤ℤ (timing h).interval))
unfolding timing interval_of timeout_of
timing-bounds h = (ground arith, ground arith, ground arith, ground arith)

-- A round counts as healthy exactly where every probe of the plan that is there succeeded, where there
-- is one.
round-healthy :
    (p : Plan) (zero http exec : Result)
    → (has_http p || not (is_nil p.command)) ≡ true
    → (round p zero http exec).healthy
      ≡ ((not (has_http p) || http.healthy) && (is_nil p.command || exec.healthy))
unfolding round
round-healthy p zero http exec h = ground arith
