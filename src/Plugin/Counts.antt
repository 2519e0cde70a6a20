-- ===== src/Plugin/Counts.antt =====
-- The events and publications of a hook, counted.
use proxa.Prelude.{
  ℕ, zero, suc, ◌+◌, ◌≤◌, ◌≡◌, inl, inr, refl, ap, subst, Bool, false, not, ◌&&◌, List, [], ◌∷◌,
  ◌++◌, some, if◌then◌else◌, length, ltb, any, filter, count, Bool-cases, arith, length-append,
}
use proxa.Prelude.Text.{Text, text_eq, text_eq_iff}
use proxa.Events.{Event}
use proxa.Plugin.{HookSub, Publication, queue_size, offer, due, sent_at, panic_at, take_oldest}

module _ (p : Event → Bool) where
  -- The publications of an event that passes a test which copied a hook, and those of them which have yet to
  -- send to it.
  unfoldable pub copied_for : Text → List Publication → ℕ
  copied_for name [] = 0
  copied_for name (b ∷ bs) =
      (if p b.event && any (text_eq name) b.copied then 1 else 0) + copied_for name bs

  unfoldable pub pending_for : Text → List Publication → ℕ
  pending_for name [] = 0
  pending_for name (b ∷ bs) =
      (if p b.event && any (text_eq name) b.rest then 1 else 0) + pending_for name bs

  -- Of the events published to a hook that pass the test, each is one that it was called with, one that waits
  -- in its channel, one that was dropped, or one that is not sent.
  abbrev pub IsAccounted : List Publication → HookSub → Type 0
  IsAccounted bs s =
      (count p s.received + count p s.queue + count p s.dropped + pending_for s.name bs
        ≡ copied_for s.name bs)
      × (length s.queue ≤ queue_size)

  abbrev pub AllAccounted : List Publication → List HookSub → Type 0
  AllAccounted bs [] = Unit
  AllAccounted bs (s ∷ rest) = IsAccounted bs s × AllAccounted bs rest

  count-append : (xs ys : List Event) → count p (xs ++ ys) ≡ count p xs + count p ys
  count-append [] ys = omega arith
  count-append (x ∷ xs) ys = ground (arith, count-append xs ys)

  -- What became of the events that were sent to a hook.
  abbrev pub handled : HookSub → ℕ
  handled s = count p s.received + count p s.queue + count p s.dropped

  pub offer-handled :
      (e : Event) (s : HookSub) → handled (offer e s) ≡ (if p e then 1 else 0) + handled s
  unfolding offer
  offer-handled e s = elim (Bool-cases (ltb (length s.queue) queue_size)) [
    | inl room ↦ rw room (ground (arith, count-append s.queue (e ∷ [])))
    | inr full ↦ rw full (ground arith)
  ]

  pub take_oldest-handled :
      (s : HookSub) (q : List Event) → s.queue ≡ q → handled (take_oldest s q) ≡ handled s
  unfolding take_oldest
  take_oldest-handled s [] e = refl
  take_oldest-handled s (x ∷ q) e = ground (arith, count-append s.received (x ∷ []), ap (count p) e)

pub offer-length :
    (e : Event) (s : HookSub) → length s.queue ≤ queue_size → length (offer e s).queue ≤ queue_size
unfolding offer
offer-length e s h = elim (Bool-cases (ltb (length s.queue) queue_size)) [
  | inl room ↦ rw room (ground (arith, room, length-append s.queue (e ∷ [])))
  | inr full ↦ rw full h
]

pub offer-name : (e : Event) (s : HookSub) → (offer e s).name ≡ s.name
unfolding offer
offer-name e s = elim (Bool-cases (ltb (length s.queue) queue_size)) [
  | inl room ↦ rw room refl
  | inr full ↦ rw full refl
]

pub take_oldest-name : (s : HookSub) (q : List Event) → (take_oldest s q).name ≡ s.name
unfolding take_oldest
take_oldest-name s [] = refl
take_oldest-name s (x ∷ q) = refl

pub take_oldest-length :
    (s : HookSub) (q : List Event)
    → s.queue ≡ q
    → length s.queue ≤ queue_size
    → length (take_oldest s q).queue ≤ queue_size
unfolding take_oldest
take_oldest-length s [] e h = h
take_oldest-length s (x ∷ q) e h = omega (arith, h, ap length e)

any-filter :
    (n name : Text) (ms : List Text)
    → text_eq n name ≡ false
    → any (text_eq n) (filter (λ m. not (text_eq name m)) ms) ≡ any (text_eq n) ms
any-filter n name [] h = refl
any-filter n name (m ∷ ms) h = elim (Bool-cases (text_eq name m)) [
  | inl same ↦
      rw (same, subst (λ t. text_eq n t ≡ false) ((text_eq_iff name m).0 same) h)
        (any-filter n name ms h)
  | inr other ↦ ground (arith, other, any-filter n name ms h)
]

any-filtered_out :
    (name : Text) (ms : List Text)
    → any (text_eq name) (filter (λ m. not (text_eq name m)) ms) ≡ false
any-filtered_out name [] = refl
any-filtered_out name (m ∷ ms) = ground (arith, any-filtered_out name ms)

module _ (p : Event → Bool) where
  pub copied_for-sent_at :
      (k : ℕ) (name n : Text) (bs : List Publication)
      → copied_for p n (sent_at k name bs) ≡ copied_for p n bs
  unfolding copied_for sent_at
  copied_for-sent_at zero name n [] = refl
  copied_for-sent_at (suc k) name n [] = refl
  copied_for-sent_at zero name n (b ∷ bs) = refl
  copied_for-sent_at (suc k) name n (b ∷ bs) = rw (copied_for-sent_at k name n bs) refl

  pub pending_for-sent_at-other :
      (k : ℕ) (name n : Text) (bs : List Publication)
      → text_eq n name ≡ false
      → pending_for p n (sent_at k name bs) ≡ pending_for p n bs
  unfolding pending_for sent_at
  pending_for-sent_at-other zero name n [] h = refl
  pending_for-sent_at-other (suc k) name n [] h = refl
  pending_for-sent_at-other zero name n (b ∷ bs) h = rw (any-filter n name b.rest h) refl
  pending_for-sent_at-other (suc k) name n (b ∷ bs) h =
      rw (pending_for-sent_at-other k name n bs h) refl

  pub pending_for-sent_at :
      (k : ℕ) (name : Text) (bs : List Publication) (e : Event)
      → due k name bs ≡ some e
      → pending_for p name bs ≡ (if p e then 1 else 0) + pending_for p name (sent_at k name bs)
  unfolding pending_for sent_at due
  pending_for-sent_at zero name [] e h = cc h
  pending_for-sent_at (suc k) name [] e h = cc h
  pending_for-sent_at zero name (b ∷ bs) e h = ground (arith, h, any-filtered_out name b.rest)
  pending_for-sent_at (suc k) name (b ∷ bs) e h = ground (arith, pending_for-sent_at k name bs e h)

  pub copied_for-panic_at :
      (k : ℕ) (n : Text) (bs : List Publication)
      → (copied_for p n (panic_at k bs) ≡ copied_for p n bs)
        × (pending_for p n (panic_at k bs) ≡ pending_for p n bs)
  unfolding copied_for pending_for panic_at
  copied_for-panic_at zero n [] = (refl, refl)
  copied_for-panic_at (suc k) n [] = (refl, refl)
  copied_for-panic_at zero n (b ∷ bs) = (refl, refl)
  copied_for-panic_at (suc k) n (b ∷ bs) =
      let (c, q) = copied_for-panic_at k n bs in (rw c refl, rw q refl)
