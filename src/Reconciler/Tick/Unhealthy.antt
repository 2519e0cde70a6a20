-- ===== src/Reconciler/Tick/Unhealthy.antt =====
-- Which containers a tick takes for unhealthy.
use proxa.Prelude.{
  ◌≡◌, ◌≢◌, inl, inr, refl, ◌∙◌, Bool, true, false, ◌&&◌, List, [], ◌∷◌, some, if◌then◌else◌, any,
  arith, Memᴰ, Option-cases, Bool-cases,
}
use proxa.Prelude.Int.{ℤ, pos, ◌<ℤ◌}
use proxa.Prelude.Text.{Text, text_eq}
use proxa.Prelude.Maps.{Map, lookup, put, lookup-put, text-Eq}
use proxa.Types.{Service, ContainerInfo}
use proxa.Docker.{label_service}
use proxa.Probe.{Manager, Format, snapshot, history_cap}
use proxa.Probe.Track.{Reach, streak_capped}
use proxa.Reconciler.Diff.{label}
use proxa.Reconciler.Tick.{
  retries_by_service, retries_of, past_retries, is_past, mark_all, probe_unhealthy_set,
  is_unhealthy,
}

lookup-mark_all :
    (m : Manager) (retries : Map Text ℤ) (l : List ContainerInfo) (out : Map Text Bool) (id : Text)
    → lookup id (mark_all m retries l out)
      ≡ (if any (λ c. text_eq c.id id && is_past m retries c) l then some true else lookup id out)
unfolding mark_all
lookup-mark_all m retries [] out id = refl
lookup-mark_all m retries (c ∷ l) out id = ground (
  arith,
  lookup-mark_all m retries l (put c.id true out) id,
  lookup-mark_all m retries l out id,
  lookup-put c.id id true out,
)

-- A container is in the unhealthy set exactly when some container of the list with its ID has a service
-- with known retries and a snapshot that is not healthy and whose streak is at least these retries.
probe_unhealthy_set-is_past :
    (m : Manager) (desired : List Service) (actual : List ContainerInfo) (id : Text)
    → is_unhealthy (probe_unhealthy_set m desired actual) id
      ≡ any (λ c. text_eq c.id id && is_past m (retries_by_service desired []) c) actual
unfolding is_unhealthy probe_unhealthy_set lookup
probe_unhealthy_set-is_past m desired actual id =
    ground (arith, lookup-mark_all m (retries_by_service desired []) actual [] id)

abbrev AllAbove : Map Text ℤ → Type 0
AllAbove retries = (k : Text) (n : ℤ) → lookup k retries ≡ some n → pos history_cap <ℤ n

AllAbove-put :
    (k : Text) (n : ℤ) (m : Map Text ℤ) → pos history_cap <ℤ n → AllAbove m → AllAbove (put k n m)
AllAbove-put k n m h all j x e = elim (Bool-cases (text_eq k j)) [
  | inl same ↦ ground (arith, rw (lookup-put k j n m, same) at e)
  | inr other ↦ all j x (rw (lookup-put k j n m, other) at e)
]

abbrev pub AllRetriesAbove : List Service → Type 0
AllRetriesAbove l = (svc : Service) → Memᴰ svc l → pos history_cap <ℤ svc.spec.health.retries

retries-AllAbove :
    (l : List Service) (m : Map Text ℤ)
    → AllRetriesAbove l
    → AllAbove m
    → AllAbove (retries_by_service l m)
unfolding retries_by_service retries_of
retries-AllAbove [] m h all = all
retries-AllAbove (svc ∷ l) m h all =
    let big = h svc (Memᴰ.head refl) in
    retries-AllAbove l _ (λ s k. h s (Memᴰ.tail k))
      (AllAbove-put svc.name (retries_of svc) m (ground (arith, big)) all)

never_past :
    (f : Format) {m : Manager} (retries : Map Text ℤ) (c : ContainerInfo)
    → Reach f m
    → AllAbove retries
    → is_past m retries c ≡ false
unfolding is_past past_retries
never_past f {m} retries c r all =
    elim (Option-cases (lookup (label label_service c.labels) retries)) [
      | inl e ↦ rw e refl
      | inr (n, e) ↦ elim (Option-cases (snapshot m c.id)) [
        | inl g ↦ rw e (rw g refl)
        | inr (s, g) ↦
            let above = all (label label_service c.labels) n e in
            let bounded = streak_capped f c.id r g in rw e (rw g (ground (arith, above, bounded)))
      ]
    ]

nothing_known : (k : Text) (n : ℤ) → lookup {V = ℤ} k [] ≢ some n
unfolding lookup
nothing_known k n e = cc e

any_none :
    {A : Type 0} (p q : A → Bool) (l : List A)
    → ((x : A) → q x ≡ false)
    → any (λ x. p x && q x) l ≡ false
any_none p q [] h = refl
any_none p q (x ∷ l) h = ground (arith, h x, any_none p q l h)

-- When every service has more than 32 retries, no container is in the unhealthy set of a reachable
-- manager, whatever the results of its probes.
pub probe_unhealthy_set-capped :
    (f : Format) {m : Manager} (desired : List Service) (actual : List ContainerInfo) (id : Text)
    → Reach f m
    → AllRetriesAbove desired
    → is_unhealthy (probe_unhealthy_set m desired actual) id ≡ false
probe_unhealthy_set-capped f {m} desired actual id r h =
    let retries = retries_by_service desired [] in
    let all = retries-AllAbove desired [] h (λ k n e. absurd (nothing_known k n e)) in
    probe_unhealthy_set-is_past m desired actual id
    ∙ any_none (λ c. text_eq c.id id) (is_past m retries) actual (λ c. never_past f retries c r all)
