-- ===== src/Reconciler/Diff/Converged.antt =====
-- When `Compute` has nothing to do.
use mathlib.Core.Option.{some_inj}
use mathlib.Core.List.Memᴰ
use proxa.Prelude.{
  ◌≡◌, ◌↔◌, inl, inr, refl, sym, ap, subst, ◌∙◌, true, List, [], ◌∷◌, none, some, Bool-cases,
  Option-cases, Memᴰ,
}
use proxa.Prelude.Text.{text_eq, text_eq_iff}
use proxa.Types.{Service, ContainerInfo}
use proxa.Docker.{label_spec_hash}
use proxa.Hash.{Encoding, hash}
use proxa.Reconciler.Diff.{Action, Slot, slot-Eq, Unhealthy, keeps_slot, slot_of, label, compute}
use proxa.Reconciler.Diff.Wanted.{wanted, holder}
use proxa.Reconciler.Diff.Laws.{Justified, dropped, missing, drifted, extra, compute-iff-Justified}

-- Nothing is left to do.
pub record IsConverged (enc : Encoding) (desired : List Service) (actual : List ContainerInfo)
    (u : Unhealthy) : Type 0 where
  pub none_dropped :
      (c : ContainerInfo) (k : Slot) → Memᴰ c actual → slot_of c ≡ some k → keeps_slot u c ≡ true
  pub up_to_date :
      (k : Slot) (svc : Service)
      → wanted desired k ≡ some svc
      → (c : ContainerInfo) × (holder u actual k ≡ some c)
        × (label label_spec_hash c.labels ≡ hash enc svc.spec)
  pub none_extra : (k : Slot) → wanted desired k ≡ none → holder u actual k ≡ none

module _ (enc : Encoding) (desired : List Service) (actual : List ContainerInfo)
    (u : Unhealthy) where
  no_action :
      (a : Action) → compute enc desired actual u ≡ [] → Justified enc desired actual u a → ⊥
  no_action a e j =
      Memᴰ.not-nil (subst (λ l. Memᴰ a l) e ((compute-iff-Justified enc desired actual u a).1 j))

  quiet→converged : compute enc desired actual u ≡ [] → IsConverged enc desired actual u
  quiet→converged e = record {
    none_dropped = λ c k m s. elim (Bool-cases (keeps_slot u c)) [
      | inl kept ↦ kept
      | inr gone ↦ absurd (no_action _ e (dropped (c, k, m, s, gone, refl)))
    ];
    up_to_date = λ k svc w. elim (Option-cases (holder u actual k)) [
      | inl none_held ↦ absurd (no_action _ e (missing k svc w none_held refl))
      | inr (c, h) ↦
          elim (Bool-cases (text_eq (label label_spec_hash c.labels) (hash enc svc.spec))) [
            | inl same ↦ (c, h, (text_eq_iff _ _).0 same)
            | inr differs ↦ absurd (
                no_action _ e (drifted k svc c w h (λ p. cc (differs, (text_eq_iff _ _).1 p)) refl))
          ]
    ];
    none_extra = λ k w. elim (Option-cases (holder u actual k)) [
      | inl none_held ↦ none_held
      | inr (c, h) ↦ absurd (no_action _ e (extra k c h w refl))
    ];
  }

  converged→unjustified :
      (a : Action) → IsConverged enc desired actual u → Justified enc desired actual u a → ⊥
  converged→unjustified a v (dropped (c, k, m, s, f, e)) = cc (v.none_dropped c k m s, f)
  converged→unjustified a v (missing k svc w h e) =
      let (c, at, l) = v.up_to_date k svc w in cc (h, at)
  converged→unjustified a v (drifted k svc c w h ne e) =
      let (d, at, l) = v.up_to_date k svc w in
      ne (ap (λ x. label label_spec_hash x.labels) (some_inj.0 (sym h ∙ at)) ∙ l)
  converged→unjustified a v (extra k c h w e) = cc (v.none_extra k w, h)

  -- `Compute` returns no action exactly when every container that names a slot keeps it, every wanted
  -- slot has a holder with the hash of its specification, and no other slot has a holder.
  pub compute-nil_iff : (compute enc desired actual u ≡ []) ↔ IsConverged enc desired actual u
  compute-nil_iff = (quiet→converged, λ v. none_left (compute enc desired actual u) (justified v))
    where
      none_left : (l : List Action) → ((a : Action) → ¬ Memᴰ a l) → l ≡ []
      none_left [] h = refl
      none_left (a ∷ l) h = absurd (h a (Memᴰ.head refl))

      justified :
          IsConverged enc desired actual u → (a : Action) → ¬ Memᴰ a (compute enc desired actual u)
      justified v a m =
          converged→unjustified a v ((compute-iff-Justified enc desired actual u a).0 m)
