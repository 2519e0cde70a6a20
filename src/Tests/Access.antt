-- ===== src/Tests/Access.antt =====
-- Examples of the policy engine and of security profiles.
use proxa.Prelude.{◌≡◌, ◌≢◌, ◌⊎◌, inl, refl, List, [], ◌∷◌, Option, none, some, Memᴰ, get_elem?}
use proxa.Prelude.Text.{Text, codes, text_eq}
use proxa.Types.{SecurityProfile, zero_security}
use proxa.Security.{validate, apply_security_profile}
use proxa.Security.Laws.{apply_security_profile_safe}
use proxa.Auth.{
  Policy, AuthzRequest, admin, editor, agent, is_project_scoped, service, update, wildcard, allowed,
  matches, authorize, put_policy, stored, list_policies_for, Policies,
}
use proxa.Auth.Scope.{AllWellScoped, isolation}

-- Profiles.
abbrev nginx : SecurityProfile
nginx = record zero_security { user = codes "1001" }

nginx_valid : validate nginx ≡ none
unfolding validate text_eq
nginx_valid = refl

apply_security_profile_safe_example :
    let c = apply_security_profile nginx in
    (c.user ≢ [])
    × (c.user ≢ codes "root")
    × (c.user ≢ codes "0")
    × (c.user ≢ codes "0:0")
    × (get_elem? c.security_opt 0 ≡ some (codes "no-new-privileges:true"))
    × ((nginx.cap_drop ≢ none) ⊎ (c.cap_drop ≡ some (codes "ALL" ∷ [])))
apply_security_profile_safe_example = apply_security_profile_safe nginx nginx_valid refl

-- Policies.
abbrev root_policy : Policy
root_policy = record { id = codes "p1"; subject_id = codes "ada"; role = admin; project = wildcard }

abbrev shop_editor : Policy
shop_editor = record {
  id = codes "p2";
  subject_id = codes "bob";
  role = editor;
  project = codes "shop";
}

abbrev deploy : Text → AuthzRequest
deploy who = record {
  subject = some who;
  verb = update;
  resource = record { kind = service; project = codes "shop"; name = codes "web" };
}

abbrev rows : Policies
rows = root_policy ∷ []

abbrev store : Text → Option (List Policy)
store s = some (list_policies_for rows s)

rows_scoped : AllWellScoped rows
rows_scoped p (Memᴰ.head e) w = rw e refl
rows_scoped p (Memᴰ.tail t) w = elim t [ ]

editor_stored : put_policy shop_editor rows ≡ stored (root_policy ∷ shop_editor ∷ [])
unfolding put_policy text_eq
editor_stored = refl

ada_allowed : authorize store (deploy (codes "ada")) ≡ allowed
unfolding authorize text_eq list_policies_for is_project_scoped matches
ada_allowed = refl

ada_elsewhere :
    (p : Policy)
    → Memᴰ p rows
    → p.subject_id ≡ codes "ada"
    → (p.project ≢ codes "shop") × (p.role ≢ agent)
ada_elsewhere p (Memᴰ.head e) s = rw e ((λ q. cc q), (λ q. cc q))
ada_elsewhere p (Memᴰ.tail t) s = elim t [ ]

isolation_example :
    (p : Policy) × Memᴰ p rows
    × (p.subject_id ≡ codes "ada")
    × (p.role ≡ admin)
    × (p.project ≡ wildcard)
isolation_example =
    isolation rows (deploy (codes "ada")) (codes "ada") rows_scoped refl (inl refl) ada_elsewhere
      ada_allowed
