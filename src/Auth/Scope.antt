-- ===== src/Auth/Scope.antt =====
-- What a whole request may do: the decision over every policy of the subject.
use proxa.Prelude.{
  ◌≡◌, ◌≢◌, ◌⊎◌, ◌↔◌, none, some, List, [], ◌∷◌, Memᴰ, arith, Bool-cases, inl, inr, Option, refl,
  ◌∙◌, any_of_mem, mem_of_any, mem_of_filter,
}
use proxa.Prelude.Text.{Text, text_eq, text_eq_iff}
use mathlib.Core.List.Memᴰ
use mathlib.Core.Option.{some_inj}
use proxa.Auth.{
  Role, admin, editor, viewer, agent, other_role, Policy, AuthzRequest, allowed, is_project_scoped,
  matches, authorize, wildcard, Policies, stored, put_policy, upsert, list_policies_for, decide,
  authorize_subject,
}
use proxa.Auth.Grants.{PolicyPermits, Permits, matches-iff-PolicyPermits, IsWorkload}

-- A request that reaches the policy table: it has a subject, the store answers for it, and a
-- workload is not asked for in the empty project.
abbrev pub Granted : (Text → Option (List Policy)) → AuthzRequest → Type 0
Granted list req =
    (id : Text) × (req.subject ≡ some id)
    × (ps : List Policy) × (list id ≡ some ps)
    × ¬ (IsWorkload req.resource.kind × (req.resource.project ≡ []))
    × (p : Policy) × Memᴰ p ps
    × PolicyPermits p req

decide→ :
    (req : AuthzRequest) (ps : List Policy)
    → decide req (some ps) ≡ allowed
    → ¬ (IsWorkload req.resource.kind × (req.resource.project ≡ []))
      × (p : Policy) × Memᴰ p ps
      × PolicyPermits p req
unfolding decide is_project_scoped
decide→ req ps h =
    let found = mem_of_any (λ p. matches p req) ps (ground arith) in
    let (p, m, e) = found in (λ (w, n). ground arith, p, m, (matches-iff-PolicyPermits p req).0 e)

→decide :
    (req : AuthzRequest) (ps : List Policy) (p : Policy)
    → ¬ (IsWorkload req.resource.kind × (req.resource.project ≡ []))
    → Memᴰ p ps
    → PolicyPermits p req
    → decide req (some ps) ≡ allowed
unfolding decide is_project_scoped
→decide req ps p scoped m h =
    let found = any_of_mem (λ p. matches p req) p ps m ((matches-iff-PolicyPermits p req).1 h) in
    ground arith

decide-list_error : (req : AuthzRequest) → decide req none ≢ allowed
unfolding decide
decide-list_error req h = cc

pub authorize-iff-Granted :
    (list : Text → Option (List Policy)) (req : AuthzRequest)
    → (authorize list req ≡ allowed) ↔ Granted list req
unfolding authorize matches
authorize-iff-Granted list req = (forward, backward)
  where
    on_list :
        (id : Text) (o : Option (List Policy))
        → req.subject ≡ some id
        → list id ≡ o
        → decide req o ≡ allowed
        → Granted list req
    on_list id none s e h = absurd (decide-list_error req h)
    on_list id (some ps) s e h = let (c, p, m, q) = decide→ req ps h in (id, s, ps, e, c, p, m, q)

    on_subject :
        (o : Option Text)
        → req.subject ≡ o
        → authorize_subject list req o ≡ allowed
        → Granted list req
    on_subject none s h = absurd (ground arith)
    on_subject (some id) s h = on_list id (list id) s refl h

    forward : authorize_subject list req req.subject ≡ allowed → Granted list req
    forward h = on_subject req.subject refl h

    backward : Granted list req → authorize_subject list req req.subject ≡ allowed
    backward (id, s, ps, e, c, p, m, q) = rw (s, e) (→decide req ps p c m q)

-- Rows that `PutPolicy` lets in: a wildcard only for an admin.
abbrev pub IsWellScoped : Policy → Type 0
IsWellScoped p = p.project ≡ wildcard → p.role ≡ admin

abbrev pub AllWellScoped : Policies → Type 0
AllWellScoped rows = (p : Policy) → Memᴰ p rows → IsWellScoped p

mem_of_upsert : (p q : Policy) (rows : Policies) → Memᴰ q (upsert p rows) → (q ≡ p) ⊎ Memᴰ q rows
unfolding upsert
mem_of_upsert p q [] m = Memᴰ.cases_cons m
mem_of_upsert p q (r ∷ rows) m = elim (Bool-cases (text_eq r.id p.id)) [
  | inl e ↦ elim (Memᴰ.cases_cons (rw e at m)) [ inl a ↦ inl a | inr t ↦ inr (Memᴰ.tail t) ]
  | inr e ↦ elim (Memᴰ.cases_cons (rw e at m)) [
    | inl a ↦ inr (Memᴰ.head a)
    | inr t ↦ elim (mem_of_upsert p q rows t) [ inl b ↦ inl b | inr k ↦ inr (Memᴰ.tail k) ]
  ]
]

put_policy-row :
    (p : Policy) (rows out : Policies)
    → put_policy p rows ≡ stored out
    → (out ≡ upsert p rows) × IsWellScoped p
unfolding put_policy
put_policy-row p rows out h = (ground arith, λ w. ground (arith, text_eq_iff p.project wildcard))

-- Storing a policy in a table without wildcard rows for roles other than admin, where it is stored,
-- leaves a table without such rows.
pub put_policy-AllWellScoped :
    (p : Policy) (rows out : Policies)
    → AllWellScoped rows
    → put_policy p rows ≡ stored out
    → AllWellScoped out
put_policy-AllWellScoped p rows out all h q m =
    let (e, w) = put_policy-row p rows out h in
    elim (mem_of_upsert p q rows (rw e at m)) [ inl same ↦ rw same w | inr old ↦ all q old ]

star_of :
    (p : Policy) (req : AuthzRequest)
    → p.project ≢ req.resource.project
    → p.role ≢ agent
    → IsWorkload req.resource.kind
    → PolicyPermits p req
    → p.project ≡ wildcard
star_of p req elsewhere not_agent w h = by_role p.role refl h
  where
    by_role :
        (r : Role)
        → p.role ≡ r
        → Permits r p.project req.verb req.resource.kind req.resource.project
        → p.project ≡ wildcard
    by_role admin e (inl star) = star
    by_role admin e (inr (inl same)) = absurd (elsewhere same)
    by_role admin e (inr (inr other)) = absurd (other w)
    by_role editor e (same, g) = absurd (elsewhere same)
    by_role viewer e (same, g) = absurd (elsewhere same)
    by_role agent e g = absurd (not_agent e)
    by_role (other_role t) e g = absurd g

-- Project isolation: over a table without wildcard rows for roles other than admin, a subject none of
-- whose policies is an agent's or names project `q` is refused every verb on every service, job and
-- secret of `q`, unless it holds an admin policy for "*".
pub isolation :
    (rows : Policies) (req : AuthzRequest) (id : Text)
    → AllWellScoped rows
    → req.subject ≡ some id
    → IsWorkload req.resource.kind
    → ((p : Policy)
        → Memᴰ p rows
        → p.subject_id ≡ id
        → (p.project ≢ req.resource.project) × (p.role ≢ agent))
    → authorize (λ s. some (list_policies_for rows s)) req ≡ allowed
    → (p : Policy) × Memᴰ p rows × (p.subject_id ≡ id) × (p.role ≡ admin) × (p.project ≡ wildcard)
unfolding list_policies_for
isolation rows req id scoped s w none_here h =
    let (id', s', ps, e, c, p, m, permitted) =
      (authorize-iff-Granted (λ s. some (list_policies_for rows s)) req).0 h in
    let same : id' ≡ id = ground arith in
    let (k, owner) = mem_of_filter (λ p. text_eq p.subject_id id') p rows (rw (some_inj.0 e) m) in
    let mine : p.subject_id ≡ id = (text_eq_iff p.subject_id id').0 owner ∙ same in
    let (elsewhere, not_agent) = none_here p k mine in
    let star = star_of p req elsewhere not_agent w permitted in (p, k, mine, scoped p k star, star)
