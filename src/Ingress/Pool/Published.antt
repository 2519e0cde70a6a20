-- ===== src/Ingress/Pool/Published.antt =====
-- What a pick may return after `UpdateBackends`.
use mathlib.Core.Option.{some_inj}
use proxa.Prelude.{
  ℕ, ◌%◌, ◌≡◌, inl, inr, refl, sym, ap, ◌∙◌, true, List, [], ◌∷◌, none, some, is_nil, Memᴰ, length,
  Bool-cases, mem_of_filter, mem_of_get_elem?,
}
use proxa.Prelude.Text.{Text, codes, text_eq}
use proxa.Prelude.Maps.{lookup, put, remove, lookup-put, lookup-remove}
use proxa.Ingress.{Backend, ServiceId, service-Eq, service_eq_iff}
use proxa.Ingress.Pool.{
  BackendPool, Pools, replace, healthy_from, chosen, pick_from, pick, pool_or_new, upsert,
  update_backends,
}
use proxa.Ingress.Pool.Rotation.{chosen-healthy_from}

pick_from-chosen :
    (rand : ℕ → ℕ) (strategy : Text) (p : BackendPool) (l : List ℕ) (b : Backend)
    → (pick_from rand strategy p l).0 ≡ some b
    → (j : ℕ) × (chosen p.backends l j ≡ some b)
unfolding pick_from
pick_from-chosen rand strategy p [] b h = cc
pick_from-chosen rand strategy p (i ∷ is) b h =
    elim (Bool-cases (text_eq strategy (codes "round-robin"))) [
      | inl e ↦ (p.cursor % length (i ∷ is), rw e at h)
      | inr e ↦ (rand (length (i ∷ is)), rw e at h)
    ]

-- A pick, by any strategy, returns a healthy backend of the pool.
pub pick-healthy :
    (rand : ℕ → ℕ) (strategy : Text) (p : BackendPool) (b : Backend)
    → (pick rand strategy p).0 ≡ some b
    → Memᴰ b p.backends × (b.healthy ≡ true)
unfolding pick
pick-healthy rand strategy p b h =
    let (j, at) = pick_from-chosen rand strategy p (healthy_from 0 p.backends) b h in
    mem_of_filter (λ b. b.healthy) b p.backends
      (mem_of_get_elem? _ j b (sym (chosen-healthy_from [] p.backends j) ∙ at))

-- The pool of a service holds the backends that were last published for it.
pub lookup-update_backends :
    (svc : ServiceId) (bs : List Backend) (pools : Pools) (p : BackendPool)
    → lookup svc (update_backends svc bs pools) ≡ some p
    → p.backends ≡ bs
unfolding update_backends upsert replace
lookup-update_backends svc bs pools p h = elim (Bool-cases (is_nil bs)) [
  | inl empty ↦
      let gone = rw empty at h in
      let absent : lookup svc (remove svc pools) ≡ none =
        lookup-remove svc svc pools ∙ rw ((service_eq_iff svc svc).1 refl) refl in
      cc (absent, gone)
  | inr several ↦
      let found = rw several at h in
      let put_here : lookup svc
            (put svc (record (pool_or_new (lookup svc pools)) { backends = bs }) pools)
          ≡ some (record (pool_or_new (lookup svc pools)) { backends = bs }) =
        lookup-put svc svc _ pools ∙ rw ((service_eq_iff svc svc).1 refl) refl in
      sym (ap (λ (q : BackendPool). q.backends) (some_inj.0 (sym put_here ∙ found)))
]
