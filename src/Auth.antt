-- ===== src/Auth.antt =====
-- internal/auth/policy.go, internal/auth/dbpolicy/dbpolicy.go and the policy rows of
-- internal/store/sqlite/auth.go: who may do what. The named string types of roles, kinds and verbs
-- are data types with one more constructor for every other text.
pub mod Grants
pub mod Scope
pub mod Login
pub mod Subjects
use proxa.Prelude.{
  Bool, true, false, not, ◌&&◌, ◌||◌, List, [], ◌∷◌, Option, none, some, if◌then◌else◌, is_nil, any,
  filter,
}
use proxa.Prelude.Text.{Text, codes, text_eq}

pub data Role : Type 0 where
  admin editor viewer agent : Role
  other_role : Text → Role

pub data ResourceKind : Type 0 where
  project service job secret node policy subject : ResourceKind
  other_kind : Text → ResourceKind

pub data Verb : Type 0 where
  get list create update delete exec logs : Verb
  other_verb : Text → Verb

pub record Policy : Type 0 where
  pub id : Text
  pub subject_id : Text
  pub role : Role
  pub project : Text

pub record ResourceRef : Type 0 where
  pub kind : ResourceKind
  pub project : Text
  pub name : Text

-- `subject` is the ID of `req.Subject`, or `none` where that is nil.
pub record AuthzRequest : Type 0 where
  pub subject : Option Text
  pub verb : Verb
  pub resource : ResourceRef

pub data Decision : Type 0 where
  allowed forbidden list_error : Decision

abbrev pub wildcard : Text
wildcard = codes "*"

unfoldable pub is_project_scoped : ResourceKind → Bool
is_project_scoped service = true
is_project_scoped job = true
is_project_scoped secret = true
is_project_scoped _ = false

abbrev is_read : Verb → Bool
is_read get = true
is_read list = true
is_read _ = false

abbrev is_update_or_get : Verb → Bool
is_update_or_get update = true
is_update_or_get get = true
is_update_or_get _ = false

editor_grants : ResourceKind → Verb → Bool
editor_grants service v = true
editor_grants job v = true
editor_grants secret v = true
editor_grants project v = is_read v
editor_grants policy v = is_read v
editor_grants subject v = is_read v
editor_grants _ v = false

agent_grants : ResourceKind → Verb → Bool
agent_grants service v = is_read v
agent_grants job v = is_read v
agent_grants node v = is_update_or_get v
agent_grants _ v = false

grants : Role → Text → Verb → ResourceKind → Text → Bool
unfolding editor_grants agent_grants is_project_scoped
grants admin p v k q = text_eq p wildcard || text_eq p q || not (is_project_scoped k)
grants editor p v k q = if not (text_eq p q) then false else editor_grants k v
grants viewer p v k q = if not (text_eq p q) then false else is_read v
grants agent p v k q = agent_grants k v
grants (other_role r) p v k q = false

-- `matches`: does the policy grant the request?
unfoldable pub matches : Policy → AuthzRequest → Bool
unfolding grants
matches p req = grants p.role p.project req.verb req.resource.kind req.resource.project

decide : AuthzRequest → Option (List Policy) → Decision
decide req none = list_error
decide req (some policies) =
    if is_project_scoped req.resource.kind && is_nil req.resource.project
    then forbidden
    else if any (λ p. matches p req) policies
    then allowed
    else forbidden

authorize_subject : (Text → Option (List Policy)) → AuthzRequest → Option Text → Decision
unfolding decide
authorize_subject list_policies_for req none = forbidden
authorize_subject list_policies_for req (some id) = decide req (list_policies_for id)

-- `Engine.Authorize`; `list_policies_for` is the store's answer, `none` an error.
unfoldable pub authorize : (Text → Option (List Policy)) → AuthzRequest → Decision
unfolding authorize_subject
authorize list_policies_for req = authorize_subject list_policies_for req req.subject

-- The policies table, one row for each ID.
abbrev pub Policies : Type 0
Policies = List Policy

pub data PutPolicy : Type 0 where
  stored : Policies → PutPolicy
  empty_id wildcard_not_admin : PutPolicy

abbrev pub is_admin : Role → Bool
is_admin admin = true
is_admin _ = false

upsert : Policy → Policies → Policies
upsert p [] = p ∷ []
upsert p (q ∷ rows) = let rest = upsert p rows in if text_eq q.id p.id then p ∷ rows else q ∷ rest

-- `Store.PutPolicy`: `INSERT … ON CONFLICT(id) DO UPDATE` on a table that accepts the row.
unfoldable pub put_policy : Policy → Policies → PutPolicy
unfolding upsert
put_policy p rows =
    if is_nil p.id
    then empty_id
    else if text_eq p.project wildcard && not (is_admin p.role)
    then wildcard_not_admin
    else stored (upsert p rows)

-- `Store.ListPoliciesFor`
unfoldable pub list_policies_for : Policies → Text → List Policy
list_policies_for rows id = filter (λ p. text_eq p.subject_id id) rows
