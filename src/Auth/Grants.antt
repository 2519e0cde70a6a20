-- ===== src/Auth/Grants.antt =====
-- The roles in words, and that the engine grants what they say and no more.
use proxa.Prelude.{◌≡◌, ◌⊎◌, ◌↔◌, true, arith}
use proxa.Prelude.Text.{Text, text_eq_iff}
use proxa.Auth.{
  Role, admin, editor, viewer, agent, other_role, ResourceKind, project, service, job, secret, node,
  policy, subject, Verb, get, list, update, Policy, AuthzRequest, matches, wildcard, grants,
}

abbrev pub IsRead : Verb → Type 0
IsRead v = (v ≡ get) ⊎ (v ≡ list)

abbrev pub IsWorkload : ResourceKind → Type 0
IsWorkload k = (k ≡ service) ⊎ (k ≡ job) ⊎ (k ≡ secret)

-- What each role says of a verb on a kind in project `q`, for a policy scoped to project `p`.
abbrev pub Permits : Role → Text → Verb → ResourceKind → Text → Type 0
Permits admin p v k q = (p ≡ wildcard) ⊎ (p ≡ q) ⊎ ¬ IsWorkload k
Permits editor p v k q =
    (p ≡ q) × (IsWorkload k ⊎ ((k ≡ project) ⊎ (k ≡ policy) ⊎ (k ≡ subject)) × IsRead v)
Permits viewer p v k q = (p ≡ q) × IsRead v
Permits agent p v k q =
    ((k ≡ service) ⊎ (k ≡ job)) × IsRead v ⊎ (k ≡ node) × ((v ≡ update) ⊎ (v ≡ get))
Permits (other_role r) p v k q = ⊥

abbrev pub PolicyPermits : Policy → AuthzRequest → Type 0
PolicyPermits p req = Permits p.role p.project req.verb req.resource.kind req.resource.project

grants→Permits :
    (r : Role) (p q : Text) (v : Verb) (k : ResourceKind)
    → grants r p v k q ≡ true
    → Permits r p v k q
unfolding grants
grants→Permits admin p q v k h = ground (arith, text_eq_iff p wildcard, text_eq_iff p q)
grants→Permits editor p q v k h = ground (arith, text_eq_iff p q)
grants→Permits viewer p q v k h = ground (arith, text_eq_iff p q)
grants→Permits agent p q v k h = ground arith
grants→Permits (other_role r) p q v k h = cc

Permits→grants :
    (r : Role) (p q : Text) (v : Verb) (k : ResourceKind)
    → Permits r p v k q
    → grants r p v k q ≡ true
unfolding grants
Permits→grants admin p q v k h = ground (arith, text_eq_iff p wildcard, text_eq_iff p q)
Permits→grants editor p q v k h = ground (arith, text_eq_iff p q)
Permits→grants viewer p q v k h = ground (arith, text_eq_iff p q)
Permits→grants agent p q v k h = ground arith
Permits→grants (other_role r) p q v k h = absurd h

-- A policy matches a request exactly when its role permits the verb on the kind, in the project of the
-- policy and that of the request, by the table of roles: an admin everything in its own project, in
-- every project for "*", and on every kind that is no workload; an editor every verb on workloads and
-- reads of projects, policies and subjects, in its own project; a viewer reads in its own project; an
-- agent reads of services and jobs, and gets and updates of nodes, in every project.
pub matches-iff-PolicyPermits :
    (p : Policy) (req : AuthzRequest) → (matches p req ≡ true) ↔ PolicyPermits p req
unfolding matches
matches-iff-PolicyPermits p req = (
  grants→Permits p.role p.project req.resource.project req.verb req.resource.kind,
  Permits→grants p.role p.project req.resource.project req.verb req.resource.kind,
)
