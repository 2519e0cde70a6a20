-- ===== src/Security.antt =====
-- internal/security/profile.go and internal/runtime/docker/security.go: the security profile of a
-- container, its defaults, and what reaches the Docker daemon.
pub mod Laws
use proxa.Prelude.{
  Bool, true, false, not, ◌&&◌, ◌||◌, List, [], ◌∷◌, ◌++◌, Option, none, some, if◌then◌else◌,
  is_nil,
}
use proxa.Prelude.Text.{Text, codes, text_eq}
use proxa.Types.{SecurityProfile, zero_security}

pub data SecurityError : Type 0 where
  root_requires_allow_root no_new_privileges_requires_allow_root : SecurityError

-- `Default`
unfoldable pub default : SecurityProfile
default = record zero_security { cap_drop = some (codes "ALL" ∷ []); no_new_privileges = some true }

abbrev or_default {ℓ} : {A : Type ℓ} → Option A → Option A → Option A
or_default none d = d
or_default (some a) d = some a

-- `Apply`
unfoldable pub apply : SecurityProfile → SecurityProfile
unfolding default
apply p = record p {
  cap_drop = or_default p.cap_drop default.cap_drop;
  no_new_privileges = or_default p.no_new_privileges default.no_new_privileges;
}

-- `*p == false`, for a pointer that may be nil.
abbrev pub is_some_false : Option Bool → Bool
is_some_false (some b) = not b
is_some_false none = false

-- `Validate`; `none` is a nil error.
unfoldable pub validate : SecurityProfile → Option SecurityError
validate p =
    if (text_eq p.user (codes "root") || text_eq p.user (codes "0") || text_eq p.user (codes "0:0"))
      && not p.allow_root
    then some root_requires_allow_root
    else if is_some_false p.no_new_privileges && not p.allow_root
    then some no_new_privileges_requires_allow_root
    else none

-- `resolveUser`
unfoldable pub resolve_user : SecurityProfile → Text
resolve_user p =
    if not (is_nil p.user) then p.user else if p.allow_root then [] else codes "1000:1000"

abbrev pub opt_if : Bool → Text → List Text
opt_if true t = t ∷ []
opt_if false t = []

-- `securityOpts`
unfoldable pub security_opts : SecurityProfile → List Text
security_opts p =
    opt_if (not (is_some_false p.no_new_privileges)) (codes "no-new-privileges:true")
    ++ (opt_if (not (is_nil p.seccomp_profile)) (codes "seccomp=" ++ p.seccomp_profile)
        ++ opt_if (not (is_nil p.app_armor_profile)) (codes "apparmor=" ++ p.app_armor_profile))

-- The part of `container.Config` and `container.HostConfig` that the profile decides.
pub record HostConfig : Type 0 where
  pub user : Text
  pub cap_add : Option (List Text)
  pub cap_drop : Option (List Text)
  pub read_only_rootfs : Bool
  pub security_opt : List Text

-- `applySecurityProfile`
unfoldable pub apply_security_profile : SecurityProfile → HostConfig
unfolding apply resolve_user security_opts
apply_security_profile security =
    let prof = apply security in
    record {
      user = resolve_user prof;
      cap_add = prof.cap_add;
      cap_drop = prof.cap_drop;
      read_only_rootfs = prof.read_only_root_fs;
      security_opt = security_opts prof;
    }
