-- ===== src/Parser.antt =====
-- internal/parser/toml/validate.go: the checks of a task definition, alone and against the store. An error
-- is its stable code; its message is left out. The regular expressions are functions on bytes.
pub mod Routes
pub mod Store
pub mod Duplicates
pub mod Version
use proxa.Prelude.{
  ℕ, zero, suc, ◌+◌, Bool, true, false, not, ◌&&◌, ◌||◌, List, [], ◌∷◌, Option, none, some,
  if◌then◌else◌, is_nil, length, ltb, leb, ◌==◌, any,
}
use proxa.Prelude.Int.{ℤ, pos, leb_ℤ, ltb_ℤ, eqb_ℤ}
use proxa.Prelude.Text.{Text, codes, text_eq, is_digit}
use proxa.Types.{TaskDef, Route, PortSpec, VolumeMount, Service, Project, start_first, stop_first}
use proxa.Security
use proxa.Security.{SecurityError, root_requires_allow_root, no_new_privileges_requires_allow_root}

pub data Code : Type 0 where
  invalid_project_name missing_or_invalid_name invalid_image_ref invalid_replicas invalid_strategy :
      Code
  security_error : SecurityError → Code
  invalid_protocol invalid_port invalid_volume_source invalid_resource : Code
  health_mutually_exclusive health_probe_needs_port health_timeout_out_of_range : Code
  health_retries_out_of_range health_bad_via : Code
  route_invalid_protocol route_needs_host route_needs_port route_bad_host route_bad_path
        route_bad_lb :
      Code
  route_conflict list_projects_failed list_services_failed : Code

-- `if cond { return err }`, then the rest.
abbrev pub check : Bool → Code → Option Code → Option Code
check bad e rest = if bad then some e else rest

-- `if err := first; err != nil { return err }`, then the rest.
abbrev pub first_error : Option Code → Option Code → Option Code
first_error (some e) rest = some e
first_error none rest = rest

-- `m[s]`, for a map that lists the texts that are allowed.
abbrev pub one_of : Text → List Text → Bool
one_of s allowed = any (λ t. text_eq s t) allowed

pub is_alnum : ℕ → Bool
is_alnum c = (leb b'a' c && leb c b'z') || is_digit c

all_name : Text → Bool
unfolding is_alnum
all_name [] = true
all_name (c ∷ s) = let rest = all_name s in (is_alnum c || c == b'-') && rest

-- `nameRe`: ^[a-z0-9][a-z0-9-]{0,62}$
unfoldable pub is_name : Text → Bool
unfolding all_name
is_name [] = false
is_name (c ∷ s) = is_alnum c && (all_name s && leb (length s) 62)

all_digits : Text → Bool
all_digits [] = true
all_digits (c ∷ s) = let rest = all_digits s in is_digit c && rest

-- The digits at the start of a text, and what follows them.
skip_digits : Text → Text
skip_digits [] = []
skip_digits (c ∷ s) = let rest = skip_digits s in if is_digit c then rest else c ∷ s

starts_with_digit : Text → Bool
starts_with_digit [] = false
starts_with_digit (c ∷ s) = is_digit c

-- `cpuRe`: ^\d+m?$
unfoldable pub is_cpu : Text → Bool
unfolding skip_digits starts_with_digit
is_cpu s = starts_with_digit s && one_of (skip_digits s) ([] ∷ codes "m" ∷ [])

-- `memoryRe`: ^\d+(Ki|Mi|Gi)?$
unfoldable pub is_memory : Text → Bool
unfolding skip_digits starts_with_digit
is_memory s =
    starts_with_digit s && one_of (skip_digits s) ([] ∷ codes "Ki" ∷ codes "Mi" ∷ codes "Gi" ∷ [])

-- One label of a host name has 1 to 63 bytes, and none but alphanumeric ones at its ends: `n` bytes
-- of the label were read, the last of them `last`.
labels : (n : ℕ) (last : Bool) → Text → Bool
labels n last [] = last && leb n 63
labels n last (c ∷ s) =
    let same = labels (suc n) (is_alnum c) s in
    let next = labels 0 false s in
    if c == b'.'
    then last && (leb n 63 && next)
    else if is_alnum c
    then same
    else (c == b'-' && ltb 0 n) && same

-- `hostnameRe`: ^[a-z0-9]([a-z0-9-]{0,61}[a-z0-9])?(\.[a-z0-9]([a-z0-9-]{0,61}[a-z0-9])?)*$
unfoldable pub is_hostname : Text → Bool
unfolding labels is_alnum
is_hostname s = labels 0 false s

check_path : ℕ → Option Code → Option Code
check_path c rest = check (not (c == b'/')) route_bad_path rest

-- The loop over the bytes: a `*` before the last one is refused.
star_loop : Text → Option Code
star_loop [] = none
star_loop (c ∷ s) =
    let rest = star_loop s in check (c == b'*' && not (is_nil s)) route_bad_path rest

-- `validateRoutePath`
unfoldable pub validate_route_path : Text → Option Code
unfolding check_path star_loop
validate_route_path [] = none
validate_route_path (c ∷ s) = check_path c (star_loop (c ∷ s))

pub in_ports : ℤ → ℤ → Bool
in_ports low p = leb_ℤ low p && leb_ℤ p (pos 65535)

-- One round of `validateRoutes`.
unfoldable pub validate_route : Route → Option Code
unfolding in_ports
validate_route r =
    check (not (one_of r.l4 ([] ∷ codes "tcp" ∷ codes "udp" ∷ []))) route_invalid_protocol (
      first_error
        (if is_nil r.l4
          then check (is_nil r.host) route_needs_host none
          else check (not (in_ports (pos 1) r.port)) route_needs_port none)
        (check (not (is_nil r.host) && not (is_hostname r.host)) route_bad_host (
          first_error (validate_route_path r.path) (
            check (not (one_of r.lb_strategy ([] ∷ codes "random" ∷ codes "round-robin" ∷ [])))
              route_bad_lb none))))

-- `validateRoutes`
unfoldable pub validate_routes : List Route → Option Code
validate_routes [] = none
validate_routes (r ∷ rest) =
    let later = validate_routes rest in first_error (validate_route r) later

first_container : List PortSpec → ℤ
first_container [] = pos 0
first_container (p ∷ rest) = p.container

probe_port : TaskDef → ℤ
unfolding first_container
probe_port td = if eqb_ℤ td.health.port (pos 0) then first_container td.expose else td.health.port

-- `validateHealth`
unfoldable pub validate_health : TaskDef → Option Code
unfolding probe_port
validate_health td =
    let h = td.health in
    check (not (is_nil h.path) && not (is_nil h.command)) health_mutually_exclusive (
      check (not (is_nil h.path) && eqb_ℤ (probe_port td) (pos 0)) health_probe_needs_port (
        check (ltb_ℤ (pos 0) h.timeout && (ltb_ℤ (pos 0) h.interval && ltb_ℤ h.interval h.timeout))
          health_timeout_out_of_range
          (check (ltb_ℤ h.retries (pos 0) || ltb_ℤ (pos 100) h.retries) health_retries_out_of_range
            (check (not (one_of h.via ([] ∷ codes "direct" ∷ codes "ingress" ∷ []))) health_bad_via
              none))))

validate_expose : List PortSpec → Option Code
validate_expose [] = none
validate_expose (p ∷ rest) =
    let later = validate_expose rest in
    check (not (one_of p.protocol (codes "tcp" ∷ codes "udp" ∷ codes "http" ∷ codes "https" ∷ [])))
      invalid_protocol
      (check (not (in_ports (pos 1) p.container)) invalid_port
        (check (not (in_ports (pos 0) p.host)) invalid_port later))

validate_volumes : List VolumeMount → Option Code
validate_volumes [] = none
validate_volumes (v ∷ rest) =
    let later = validate_volumes rest in check (is_nil v.source) invalid_volume_source later

security_code : Option SecurityError → Option Code
security_code none = none
security_code (some e) = some (security_error e)

-- `Validate`; `none` is a nil error.
unfoldable pub validate : TaskDef → Option Code
unfolding validate_expose validate_volumes security_code
validate td = check (not (is_name td.project)) invalid_project_name (
    check (not (is_name td.name)) missing_or_invalid_name (
      check (is_nil td.image) invalid_image_ref (
        check (ltb_ℤ td.replicas (pos 0)) invalid_replicas (
          check (not (one_of td.strategy (start_first ∷ stop_first ∷ [] ∷ []))) invalid_strategy (
            first_error (security_code (Security.validate td.security)) (
              first_error (validate_expose td.expose) (
                first_error (validate_volumes td.volumes) (
                  check (not (is_nil td.resources.cpu) && not (is_cpu td.resources.cpu))
                    invalid_resource
                    (check (not (is_nil td.resources.memory) && not (is_memory td.resources.memory))
                      invalid_resource
                      (first_error (validate_health td) (validate_routes td.routes)))))))))))
