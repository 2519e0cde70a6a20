-- ===== src/Plugin/Accounted.antt =====
-- What becomes of the events of a registry.
use proxa.Prelude.{
  ℕ, ◌||◌, ◌+◌, ◌≤◌, ◌≡◌, inl, inr, refl, sym, subst, ◌∙◌, Bool, true, false, not, ◌&&◌, List, [],
  ◌∷◌, Option, none, some, if◌then◌else◌, length, is_nil, any, Bool-cases, arith,
}
use proxa.Prelude.Text.{Text, text_eq, text_eq_iff}
use proxa.Events.{Event}
use proxa.Plugin.{
  HookSub, Publication, Registry, new_registry, queue_size, register, publish, due, send_due, send,
  deliver, close, shut, Step, register_step, publish_step, send_step, deliver_step, close_step,
  shut_step, run_step, run_steps,
}
use proxa.Plugin.Counts.{
  copied_for, pending_for, AllAccounted, handled, copied_for-sent_at, copied_for-panic_at,
}
use proxa.Plugin.Sound.{run_steps-IsSound}

module _ (p : Event → Bool) where
  -- The publications, among the steps, of an event that passes the test while a hook is registered.
  unfoldable pub published_to : Text → (is_registered is_closed : Bool) → List Step → ℕ
  published_to name here over [] = 0
  published_to name here over (register_step n ∷ rest) =
      published_to name (here || (not over && text_eq name n)) over rest
  published_to name here over (publish_step e ∷ rest) =
      (if p e && here then 1 else 0) + published_to name here over rest
  published_to name here over (send_step k n ∷ rest) = published_to name here over rest
  published_to name here over (deliver_step n ∷ rest) = published_to name here over rest
  published_to name here over (close_step ∷ rest) = published_to name (over && here) true rest
  published_to name here over (shut_step n ∷ rest) = published_to name here over rest

  registers :
      (name n : Text) (r : Registry)
      → let r2 = (register n r).1 in
        (any (text_eq name) r2.hooks
          ≡ any (text_eq name) r.hooks || (not r.closed && text_eq name n))
        × (r2.closed ≡ r.closed)
        × (r2.publications ≡ r.publications)
  unfolding register
  registers name n r = elim (Bool-cases r.closed) [
    | inl over ↦ rw over (ground arith, refl, refl)
    | inr running ↦ elim (Bool-cases (any (text_eq n) r.hooks)) [
      | inl taken ↦
          rw (running, taken)
            (
              elim (Bool-cases (text_eq name n)) [
                | inl same ↦ ground (
                  arith,
                  same,
                  subst (λ m. any (text_eq m) r.hooks ≡ true) (sym ((text_eq_iff name n).0 same))
                      taken,
                )
                | inr other ↦ ground (arith, other)
              ],
              refl,
              refl,
            )
      | inr free ↦ rw (running, free) (ground arith, refl, refl)
    ]
  ]

  sends :
      (name : Text) (k : ℕ) (n : Text) (r : Registry) (o : Option Event)
      → let r2 = send_due k n r o in
        (r2.hooks ≡ r.hooks)
        × (r2.closed ≡ r.closed)
        × (copied_for p name r2.publications ≡ copied_for p name r.publications)
  unfolding send_due
  sends name k n r none = (refl, refl, refl)
  sends name k n r (some e) =
      elim (Bool-cases (any (λ (s : HookSub). text_eq s.name n && s.is_shut) r.subs)) [
        | inl gone ↦ rw gone (refl, refl, (copied_for-panic_at p k name r.publications).0)
        | inr live ↦ rw live (refl, refl, copied_for-sent_at p k n name r.publications)
      ]

  publish-copied :
      (name : Text) (e : Event) (r : Registry)
      → copied_for p name (publish e r).publications
        ≡ (if p e && any (text_eq name) r.hooks then 1 else 0) + copied_for p name r.publications
  unfolding publish copied_for
  publish-copied name e r = refl

  closes :
      (name : Text) (r : Registry)
      → let r2 = close r in
        (any (text_eq name) r2.hooks ≡ r.closed && any (text_eq name) r.hooks)
        × (r2.closed ≡ true)
        × (r2.publications ≡ r.publications)
  unfolding close
  closes name r = elim (Bool-cases r.closed) [
    | inl over ↦ (ground (arith, over), ground (arith, over), rw over refl)
    | inr running ↦ rw running (refl, refl, refl)
  ]

  shuts :
      (name n : Text) (r : Registry)
      → let r2 = shut n r in
        (any (text_eq name) r2.hooks ≡ any (text_eq name) r.hooks)
        × (r2.closed ≡ r.closed)
        × (r2.publications ≡ r.publications)
  unfolding shut
  shuts name n r =
      elim (Bool-cases (
        any (text_eq n) r.closing
        && not (any (λ (s : HookSub). s.is_shut && not (is_nil s.queue)) r.subs))) [
          | inl now ↦ rw now (refl, refl, refl)
          | inr later ↦ rw later (refl, refl, refl)
        ]

  -- The publications that copied a hook are those made while it was registered.
  run_steps-copied :
      (name : Text) (steps : List Step) (r : Registry)
      → copied_for p name (run_steps steps r).publications
        ≡ published_to name (any (text_eq name) r.hooks) r.closed steps
          + copied_for p name r.publications
  unfolding run_steps run_step published_to
  run_steps-copied name [] r = omega arith
  run_steps-copied name (register_step n ∷ rest) r =
      let (here, over, same) = registers name n r in
      run_steps-copied name rest (register n r).1 ∙ rw (here, over, same) refl
  run_steps-copied name (publish_step e ∷ rest) r =
      ground (arith, run_steps-copied name rest (publish e r), publish-copied name e r)
  run_steps-copied name (send_step k n ∷ rest) r =
      let (here, over, same) = sends name k n r (due k n r.publications) in
      unfold send in run_steps-copied name rest (send k n r) ∙ rw (here, over, same) refl
  run_steps-copied name (deliver_step n ∷ rest) r =
      unfold deliver in run_steps-copied name rest (deliver n r)
  run_steps-copied name (close_step ∷ rest) r =
      let (here, over, same) = closes name r in
      run_steps-copied name rest (close r) ∙ rw (here, over, same) refl
  run_steps-copied name (shut_step n ∷ rest) r =
      let (here, over, same) = shuts name n r in
      run_steps-copied name rest (shut n r) ∙ rw (here, over, same) refl

  -- What is known of every hook that was ever registered.
  abbrev pub AllHandled : List Step → List Publication → List HookSub → Type 0
  AllHandled steps bs [] = Unit
  AllHandled steps bs (s ∷ rest) =
      (handled p s + pending_for p s.name bs ≡ published_to s.name false false steps)
      × (length s.queue ≤ queue_size)
      × AllHandled steps bs rest

  AllHandled-all :
      (steps : List Step) (bs : List Publication)
      → ((n : Text) → copied_for p n bs ≡ published_to n false false steps)
      → (subs : List HookSub) → AllAccounted p bs subs
      → AllHandled steps bs subs
  AllHandled-all steps bs same [] h = tt
  AllHandled-all steps bs same (s ∷ rest) ((c, q), h) =
      (c ∙ same s.name, q, AllHandled-all steps bs same rest h)

-- Under every interleaving of registrations, publications, single sends, deliveries and closings, the
-- events that pass a test and were published while a hook was registered are, for every hook and every test,
-- as many as those that it was called with, those that wait in its channel, those that were dropped for it,
-- and those that their publications have yet to send to it; at most 64 wait.
pub run_steps-AllHandled :
    (p : Event → Bool) (steps : List Step)
    → let r = run_steps steps new_registry in AllHandled p steps r.publications r.subs
unfolding copied_for pending_for
run_steps-AllHandled p steps =
    let r = run_steps steps new_registry in
    AllHandled-all p steps r.publications
      (λ n. ground (arith, run_steps-copied p n steps new_registry)) r.subs
      (run_steps-IsSound p steps new_registry (tt, λ running n free. (refl, refl))).0
