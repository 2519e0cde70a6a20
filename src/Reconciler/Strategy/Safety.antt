-- ===== src/Reconciler/Strategy/Safety.antt =====
-- What the two strategies do to the old and the new container, whatever the runtime answers.
use proxa.Prelude.{
  ℕ, suc, ◌+◌, ◌*◌, ◌^◌, ◌<◌, max, ◌≡◌, ◌↔◌, ◌⊎◌, ap, ◌∙◌, Bool, true, false, not, ◌&&◌, ◌||◌, List,
  [], ◌∷◌, ◌++◌, some, if◌then◌else◌, is_nil, arith,
}
use proxa.Prelude.Int.{
  ℤ, pos, negsuc, ◌≤ℤ◌, wrap64_fits, wrap64, ◌*ℤ◌, ◌+ℤ◌, max_ℤ, pos-*ℤ-pos, pos-+ℤ-pos,
}
use proxa.Prelude.Text.{Text, codes, text_eq, text_eq_refl}
use proxa.Types.{HealthCheck}
use proxa.Hash.{Encoding}
use proxa.Reconciler.Strategy.{
  Call, pull, create_container, start, stop, remove_container, track, Request, Answers, done,
  rolled_back, failed, spec_for, start_first_apply, stop_first_apply, probe_deadline_for, deadline,
  interval_or_default, retries_or_default, canonical_name,
}

-- Does this call remove the container?
abbrev pub is_removal : Text → Call → Bool
is_removal id (remove_container x) = text_eq id x
is_removal id _ = false

-- Is the container removed by some call?
abbrev pub removes : Text → List Call → Bool
removes id [] = false
removes id (c ∷ cs) = is_removal id c || removes id cs

-- The call that creates the new container of start-first.
abbrev pub start_first_creation : Encoding → Request → Call
start_first_creation enc req =
    create_container (spec_for enc req (canonical_name req ++ codes "-new"))

-- In a start-first replacement of an existing container by another one, the old container is removed
-- exactly when the pull, the start and the tracking of the new container succeeded and it became healthy.
pub start_first_apply-removal :
    (enc : Encoding) (a : Answers) (req : Request) (new : Text)
    → a.new_id ≡ some new
    → text_eq req.old_id new ≡ false
    → is_nil req.old_id ≡ false
    → (removes req.old_id (start_first_apply enc a req).0 ≡ true) ↔ (
        (a.succeeds (pull req.new_spec.image) ≡ true)
        × (a.succeeds (start new) ≡ true)
        × (a.succeeds (track new) ≡ true)
        × (a.is_healthy ≡ true))
unfolding start_first_apply
start_first_apply-removal enc a req new n d o =
    rw n (
      (λ h. ground (arith, text_eq_refl req.old_id)),
      (λ h. ground (arith, text_eq_refl req.old_id)),
    )

-- A start-first replacement whose pull succeeds and that creates the new container ends as done, or calls for
-- the removal of the new container, whatever this call answers, or has a healthy new container and failed to
-- remove the old one.
pub start_first_apply-no_leak :
    (enc : Encoding) (a : Answers) (req : Request) (new : Text)
    → a.new_id ≡ some new
    → a.succeeds (pull req.new_spec.image) ≡ true
    → let run = start_first_apply enc a req in
      (run.1 ≡ done)
      ⊎ ((removes new run.0 ≡ true)
          ⊎ ((a.is_healthy ≡ true) × (run.1 ≡ failed (remove_container req.old_id))))
unfolding start_first_apply
start_first_apply-no_leak enc a req new n p = rw n (ground (arith, text_eq_refl new))

-- Where the runtime creates the new container, a start-first replacement rolls back exactly when
-- the pull, the start and the tracking succeeded and the new container did not become healthy in
-- time.
pub start_first_apply-rolled_back :
    (enc : Encoding) (a : Answers) (req : Request) (new : Text)
    → a.new_id ≡ some new
    → ((start_first_apply enc a req).1 ≡ rolled_back) ↔ (
        (a.succeeds (pull req.new_spec.image) ≡ true)
        × (a.succeeds (start new) ≡ true)
        × (a.succeeds (track new) ≡ true)
        × (a.is_healthy ≡ false))
unfolding start_first_apply
start_first_apply-rolled_back enc a req new n = rw n ((λ h. ground arith), (λ h. ground arith))

-- Does this call make a container come into being or run?
abbrev pub is_launch : Call → Bool
is_launch (create_container c) = true
is_launch (start x) = true
is_launch _ = false

-- No launch, until the container has been stopped, waited for and removed, in this order.
abbrev pub no_launch : List Call → Bool
no_launch [] = true
no_launch (c ∷ cs) = not (is_launch c) && no_launch cs

abbrev pub exclusive_removed : Text → List Call → Bool
exclusive_removed id [] = true
exclusive_removed id (c ∷ cs) =
    not (is_launch c) && (if is_removal id c then true else exclusive_removed id cs)

abbrev pub exclusive : Text → List Call → Bool
exclusive id [] = true
exclusive id (stop x ∷ cs) = if text_eq id x then exclusive_removed id cs else exclusive id cs
exclusive id (c ∷ cs) = not (is_launch c) && exclusive id cs

-- In stop-first, when there is an old container, no container is created or started before the
-- calls that stop and then remove the old one, and none at all unless both succeed.
pub stop_first_apply-exclusive :
    (enc : Encoding) (a : Answers) (req : Request)
    → is_nil req.old_id ≡ false
    → let run = stop_first_apply enc a req in
      (exclusive req.old_id run.0 ≡ true)
      × ((no_launch run.0 ≡ true)
          ⊎ ((a.succeeds (stop req.old_id) ≡ true)
              × (a.succeeds (remove_container req.old_id) ≡ true)))
unfolding stop_first_apply
stop_first_apply-exclusive enc a req o = ground (arith, text_eq_refl req.old_id)

max-upper : (a : ℤ) → pos 10000000000 ≤ℤ max_ℤ a (pos 10000000000)
max-upper (pos n) = ground arith
max-upper (negsuc n) = ground arith

-- The rollover deadline is at least ten seconds, whatever the health check says and also where the
-- product overflows.
probe_deadline_for-lower : (h : HealthCheck) → pos 10000000000 ≤ℤ probe_deadline_for h
unfolding probe_deadline_for deadline
probe_deadline_for-lower h =
    max-upper (wrap64 (interval_or_default h *ℤ wrap64 (retries_or_default h +ℤ pos 1)))

product_fits :
    (i r : ℕ)
    → r + 2 < 2 ^ 63
    → suc i * (r + 2) < 2 ^ 63
    → wrap64 (pos (suc i) *ℤ wrap64 (pos (suc r) +ℤ pos 1)) ≡ pos (suc i * (r + 2))
product_fits i r f g =
    let n : suc r + 1 ≡ r + 2 = omega arith in
    ap (λ x. wrap64 (pos (suc i) *ℤ wrap64 x)) (pos-+ℤ-pos (suc r) 1 ∙ ap pos n)
    ∙ (ap (λ x. wrap64 (pos (suc i) *ℤ x)) (wrap64_fits (r + 2) f)
        ∙ (ap wrap64 (pos-*ℤ-pos (suc i) (r + 2)) ∙ wrap64_fits (suc i * (r + 2)) g))

max-pos : (a b : ℕ) → max_ℤ (pos a) (pos b) ≡ pos (max a b)
max-pos a b = ground arith

deadline_fits :
    (i r : ℕ)
    → r + 2 < 2 ^ 63
    → suc i * (r + 2) < 2 ^ 63
    → deadline (pos (suc i)) (pos (suc r)) ≡ pos (max (suc i * (r + 2)) 10000000000)
unfolding deadline
deadline_fits i r f g =
    ap (λ d. max_ℤ d (pos 10000000000)) (product_fits i r f g)
    ∙ max-pos (suc i * (r + 2)) 10000000000

-- For a positive interval and positive retries whose product with the interval fits in int64, the
-- deadline is the larger of `interval * (retries + 1)` and ten seconds.
probe_deadline_for-exact :
    (h : HealthCheck) (i r : ℕ)
    → h.interval ≡ pos (suc i)
    → h.retries ≡ pos (suc r)
    → r + 2 < 2 ^ 63
    → suc i * (r + 2) < 2 ^ 63
    → probe_deadline_for h ≡ pos (max (suc i * (r + 2)) 10000000000)
unfolding probe_deadline_for
probe_deadline_for-exact h i r hi hr f g =
    let ei : interval_or_default h ≡ pos (suc i) = rw hi (ground arith) in
    let er : retries_or_default h ≡ pos (suc r) = rw hr (ground arith) in
    rw ei (rw er (deadline_fits i r f g))
