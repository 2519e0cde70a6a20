-- ===== src/Security/Laws.antt =====
-- What a validated profile turns into at the Docker daemon.
use proxa.Prelude.{◌≡◌, ◌≢◌, ◌⊎◌, false, none, some, [], ◌∷◌, get_elem?, arith}
use proxa.Prelude.Text.{codes, text_eq_iff}
use proxa.Types.{SecurityProfile}
use proxa.Security.{apply, validate, apply_security_profile}

-- Filling in the defaults twice is filling them in once, for every profile.
apply_idem : (p : SecurityProfile) → apply (apply p) ≡ apply p
unfolding apply
apply_idem p = ground arith

-- Filling in the defaults does not change whether, and why, a profile is rejected.
validate-apply : (p : SecurityProfile) → validate (apply p) ≡ validate p
unfolding apply validate
validate-apply p = ground arith

-- A profile that passes validation without `allowRoot` reaches the daemon with a user that is none of
-- "", "root", "0" and "0:0", and with "no-new-privileges:true" first among the security options;
-- a profile whose list of capabilities to drop is absent drops ["ALL"].
pub apply_security_profile_safe :
    (p : SecurityProfile)
    → validate p ≡ none
    → p.allow_root ≡ false
    → let c = apply_security_profile p in
      (c.user ≢ [])
      × (c.user ≢ codes "root")
      × (c.user ≢ codes "0")
      × (c.user ≢ codes "0:0")
      × (get_elem? c.security_opt 0 ≡ some (codes "no-new-privileges:true"))
      × ((p.cap_drop ≢ none) ⊎ (c.cap_drop ≡ some (codes "ALL" ∷ [])))
unfolding validate apply_security_profile
apply_security_profile_safe p v r = ground (
  arith,
  text_eq_iff p.user (codes "root"),
  text_eq_iff p.user (codes "0"),
  text_eq_iff p.user (codes "0:0"),
)
