-- ===== src/Plugin/Sound.antt =====
-- Every step accounts for the events of every hook.
use proxa.Prelude.{
  ℕ, ◌+◌, ◌≡◌, inl, inr, refl, sym, ap, subst, ◌∙◌, Bool, true, false, not, ◌&&◌, List, [], ◌∷◌,
  Option, none, some, if◌then◌else◌, is_nil, any, map, Bool-cases, arith,
}
use proxa.Prelude.Text.{Text, text_eq, text_eq_iff}
use proxa.Events.{Event}
use proxa.Plugin.{
  HookSub, Publication, Registry, register, offer, publish, due, sent_at, panic_at, send_due, send,
  take_oldest, deliver, close, shut, Step, register_step, publish_step, send_step, deliver_step,
  close_step, shut_step, run_step, run_steps,
}
use proxa.Plugin.Counts.{
  copied_for, pending_for, IsAccounted, AllAccounted, offer-handled, take_oldest-handled,
  offer-length, offer-name, take_oldest-name, take_oldest-length, copied_for-sent_at,
  pending_for-sent_at-other, pending_for-sent_at, copied_for-panic_at,
}

module _ (p : Event → Bool) where
  -- A name that is not registered is in no publication.
  abbrev NothingFor : Registry → Type 0
  NothingFor r =
      r.closed ≡ false
      → (n : Text) → any (text_eq n) r.hooks ≡ false
      → (copied_for p n r.publications ≡ 0) × (pending_for p n r.publications ≡ 0)

  abbrev IsSound : Registry → Type 0
  IsSound r = AllAccounted p r.publications r.subs × NothingFor r

  module _ (before after : List Publication) (f : HookSub → HookSub)
      (keeps : (s : HookSub) → IsAccounted p before s → IsAccounted p after (f s)) where
    map-AllAccounted :
        (subs : List HookSub) → AllAccounted p before subs → AllAccounted p after (map f subs)
    map-AllAccounted [] h = tt
    map-AllAccounted (s ∷ rest) (o, h) = (keeps s o, map-AllAccounted rest h)

  map-id : (subs : List HookSub) → map (λ (s : HookSub). s) subs ≡ subs
  map-id [] = refl
  map-id (s ∷ rest) = ap (λ t. s ∷ t) (map-id rest)

  AllAccounted-same :
      (before after : List Publication)
      → ((s : HookSub) → IsAccounted p before s → IsAccounted p after s)
      → (subs : List HookSub) → AllAccounted p before subs
      → AllAccounted p after subs
  AllAccounted-same before after keeps subs h =
      subst (AllAccounted p after) (map-id subs)
        (map-AllAccounted before after (λ s. s) keeps subs h)

  register-IsSound : (name : Text) (r : Registry) → IsSound r → IsSound (register name r).1
  unfolding register
  register-IsSound name r (h, u) = elim (Bool-cases r.closed) [
    | inl over ↦ rw over (h, λ impossible n free. cc impossible)
    | inr running ↦ elim (Bool-cases (any (text_eq name) r.hooks)) [
      | inl taken ↦ rw (running, taken) (h, λ still. u running)
      | inr free ↦
          let (c, q) = u running name free in
          rw (running, free)
            (
              ((ground (arith, c, q), omega arith), h),
              λ over n other. u running n (ground (arith, other)),
            )
    ]
  ]

  publish-IsSound : (e : Event) (r : Registry) → IsSound r → IsSound (publish e r)
  unfolding publish copied_for pending_for
  publish-IsSound e r (h, u) = (
    AllAccounted-same r.publications (publish e r).publications (λ s (c, q). (ground (arith, c), q))
        r.subs h,
    λ running n free.
        let (c, q) = u running n free in (ground (arith, free, c), ground (arith, free, q)),
  )

  send_one :
      (k : ℕ) (name : Text) (bs : List Publication) (e : Event)
      → due k name bs ≡ some e
      → (s : HookSub) → IsAccounted p bs s
      → IsAccounted p (sent_at k name bs) (if text_eq s.name name then offer e s else s)
  send_one k name bs e d s (c, q) = elim (Bool-cases (text_eq s.name name)) [
    | inl same ↦
        let named : s.name ≡ name = (text_eq_iff s.name name).0 same in
        rw same (
          rw (offer-name e s, offer-handled p e s, copied_for-sent_at p k name s.name bs)
              (ground (
                arith,
                c,
                subst
                    (λ n.
                      pending_for p n bs
                      ≡ (if p e then 1 else 0) + pending_for p n (sent_at k name bs))
                    (sym named) (pending_for-sent_at p k name bs e d),
              )),
          offer-length e s q,
        )
    | inr other ↦ rw other (
      rw (copied_for-sent_at p k name s.name bs, pending_for-sent_at-other p k name s.name bs other)
          c,
      q,
    )
  ]

  pending-none :
      (k : ℕ) (name n : Text) (bs : List Publication) (e : Event)
      → due k name bs ≡ some e
      → pending_for p n bs ≡ 0
      → pending_for p n (sent_at k name bs) ≡ 0
  pending-none k name n bs e d none_left = elim (Bool-cases (text_eq n name)) [
    | inl same ↦
        let named : n ≡ name = (text_eq_iff n name).0 same in
        ground (
          arith,
          none_left,
          subst
              (λ m.
                pending_for p m bs ≡ (if p e then 1 else 0) + pending_for p m (sent_at k name bs))
              (sym named) (pending_for-sent_at p k name bs e d),
        )
    | inr other ↦ pending_for-sent_at-other p k name n bs other ∙ none_left
  ]

  send_due-IsSound :
      (k : ℕ) (name : Text) (r : Registry) (o : Option Event)
      → due k name r.publications ≡ o
      → IsSound r
      → IsSound (send_due k name r o)
  unfolding send_due
  send_due-IsSound k name r none d (h, u) = (h, u)
  send_due-IsSound k name r (some e) d (h, u) =
      elim (Bool-cases (any (λ (s : HookSub). text_eq s.name name && s.is_shut) r.subs)) [
        | inl gone ↦ rw gone (
          AllAccounted-same r.publications (panic_at k r.publications)
              (λ s (c, q).
                let (same_copied, same_pending) = copied_for-panic_at p k s.name r.publications in
                (rw (same_copied, same_pending) c, q))
              r.subs h,
          λ running n free.
              let (same_copied, same_pending) = copied_for-panic_at p k n r.publications in
              rw (same_copied, same_pending) (u running n free),
        )
        | inr live ↦ rw live (
          map-AllAccounted r.publications (sent_at k name r.publications)
              (λ s. if text_eq s.name name then offer e s else s)
              (send_one k name r.publications e d) r.subs h,
          λ running n free.
              let (c, q) = u running n free in
              (
                copied_for-sent_at p k name n r.publications ∙ c,
                pending-none k name n r.publications e d q,
              ),
        )
      ]

  deliver-IsSound : (name : Text) (r : Registry) → IsSound r → IsSound (deliver name r)
  unfolding deliver
  deliver-IsSound name r (h, u) = (
    map-AllAccounted r.publications r.publications
        (λ s. if text_eq s.name name then take_oldest s s.queue else s)
        (λ s (c, q). elim (Bool-cases (text_eq s.name name)) [
          | inl same ↦ rw same (
            rw (take_oldest-name s s.queue, take_oldest-handled p s s.queue refl) c,
            take_oldest-length s s.queue refl q,
          )
          | inr other ↦ rw other (c, q)
        ])
        r.subs h,
    u,
  )

  close-IsSound : (r : Registry) → IsSound r → IsSound (close r)
  unfolding close
  close-IsSound r (h, u) = elim (Bool-cases r.closed) [
    | inl over ↦ rw over (h, λ impossible n free. cc impossible)
    | inr running ↦ rw running (h, λ impossible n free. cc impossible)
  ]

  shut-IsSound : (name : Text) (r : Registry) → IsSound r → IsSound (shut name r)
  unfolding shut
  shut-IsSound name r (h, u) =
      elim (Bool-cases (
        any (text_eq name) r.closing
        && not (any (λ (s : HookSub). s.is_shut && not (is_nil s.queue)) r.subs))) [
          | inl now ↦ rw now (
            map-AllAccounted r.publications r.publications
                (λ s. if text_eq s.name name then record s { is_shut = true } else s)
                (λ s o. elim (Bool-cases (text_eq s.name name)) [
                  | inl same ↦ rw same o
                  | inr other ↦ rw other o
                ])
                r.subs h,
            u,
          )
          | inr later ↦ rw later (h, u)
        ]

  run_step-IsSound : (s : Step) (r : Registry) → IsSound r → IsSound (run_step s r)
  unfolding run_step send
  run_step-IsSound (register_step name) r h = register-IsSound name r h
  run_step-IsSound (publish_step e) r h = publish-IsSound e r h
  run_step-IsSound (send_step k name) r h =
      send_due-IsSound k name r (due k name r.publications) refl h
  run_step-IsSound (deliver_step name) r h = deliver-IsSound name r h
  run_step-IsSound close_step r h = close-IsSound r h
  run_step-IsSound (shut_step name) r h = shut-IsSound name r h

  pub run_steps-IsSound :
      (steps : List Step) (r : Registry) → IsSound r → IsSound (run_steps steps r)
  unfolding run_steps
  run_steps-IsSound [] r h = h
  run_steps-IsSound (s ∷ rest) r h = run_steps-IsSound rest (run_step s r) (run_step-IsSound s r h)
