-- ===== src/Reconciler/Diff/Passes.antt =====
-- The actions of the two passes of `Compute`, over what its maps hold.
use mathlib.Core.List.Memᴰ
use proxa.Prelude.{◌≡◌, ◌≢◌, inl, inr, refl, ap, [], ◌∷◌, some, Bool-cases, Memᴰ}
use proxa.Prelude.Text.{text_eq, text_eq_iff}
use proxa.Prelude.Maps.{lookup}
use proxa.Types.{Service, ContainerInfo}
use proxa.Docker.{label_spec_hash}
use proxa.Hash.{Encoding, hash}
use proxa.Reconciler.Diff.{
  Action, Slot, slot-Eq, Actual, Desired, label, replace_action, for_desired, pass1, for_actual,
  pass2,
}

module _ (enc : Encoding) (actual : Actual) where
  pub pass1-sound :
      (wants : Desired) (a : Action)
      → Memᴰ a (pass1 enc actual wants)
      → (k : Slot) × (svc : Service) × Memᴰ (k, svc) wants
        × Memᴰ a (for_desired k svc (hash enc svc.spec) (lookup k actual))
  unfolding pass1
  pass1-sound [] a h = elim h [ ]
  pass1-sound ((k, svc) ∷ rest) a h =
      elim (Memᴰ.append_cases (for_desired k svc (hash enc svc.spec) (lookup k actual)) h) [
        | inl here ↦ (k, svc, Memᴰ.head refl, here)
        | inr there ↦ let (j, s, m, e) = pass1-sound rest a there in (j, s, Memᴰ.tail m, e)
      ]

  pub pass1-complete :
      (wants : Desired) (a : Action) (k : Slot) (svc : Service)
      → Memᴰ (k, svc) wants
      → Memᴰ a (for_desired k svc (hash enc svc.spec) (lookup k actual))
      → Memᴰ a (pass1 enc actual wants)
  unfolding pass1
  pass1-complete [] a k svc m h = elim m [ ]
  pass1-complete ((j, s) ∷ rest) a k svc (Memᴰ.head p) h =
      let same : for_desired k svc (hash enc svc.spec) (lookup k actual)
          ≡ for_desired j s (hash enc s.spec) (lookup j actual) =
        ap (λ (t : Slot × Service). for_desired t.0 t.1 (hash enc t.1.spec) (lookup t.0 actual))
          p in
      Memᴰ.append_left (pass1 enc actual rest) (rw same at h)
  pass1-complete ((j, s) ∷ rest) a k svc (Memᴰ.tail t) h =
      Memᴰ.append_right (for_desired j s (hash enc s.spec) (lookup j actual))
        (pass1-complete rest a k svc t h)

module _ (wants : Desired) where
  pub pass2-sound :
      (actual : Actual) (a : Action)
      → Memᴰ a (pass2 wants actual)
      → (k : Slot) × (c : ContainerInfo) × Memᴰ (k, c) actual
        × Memᴰ a (for_actual k c (lookup k wants))
  unfolding pass2
  pass2-sound [] a h = elim h [ ]
  pass2-sound ((k, c) ∷ rest) a h = elim (Memᴰ.append_cases (for_actual k c (lookup k wants)) h) [
    | inl here ↦ (k, c, Memᴰ.head refl, here)
    | inr there ↦ let (j, d, m, e) = pass2-sound rest a there in (j, d, Memᴰ.tail m, e)
  ]

  pub pass2-complete :
      (actual : Actual) (a : Action) (k : Slot) (c : ContainerInfo)
      → Memᴰ (k, c) actual
      → Memᴰ a (for_actual k c (lookup k wants))
      → Memᴰ a (pass2 wants actual)
  unfolding pass2
  pass2-complete [] a k c m h = elim m [ ]
  pass2-complete ((j, d) ∷ rest) a k c (Memᴰ.head p) h =
      let same : for_actual k c (lookup k wants) ≡ for_actual j d (lookup j wants) =
        ap (λ (t : Slot × ContainerInfo). for_actual t.0 t.1 (lookup t.0 wants)) p in
      Memᴰ.append_left (pass2 wants rest) (rw same at h)
  pass2-complete ((j, d) ∷ rest) a k c (Memᴰ.tail t) h =
      Memᴰ.append_right (for_actual j d (lookup j wants)) (pass2-complete rest a k c t h)

pub for_desired-drift :
    (enc : Encoding) (k : Slot) (svc : Service) (c : ContainerInfo)
    → label label_spec_hash c.labels ≢ hash enc svc.spec
    → Memᴰ
        (replace_action k svc (hash enc svc.spec) c.id)
        (for_desired k svc (hash enc svc.spec) (some c))
unfolding for_desired
for_desired-drift enc k svc c ne =
    elim (Bool-cases (text_eq (label label_spec_hash c.labels) (hash enc svc.spec))) [
      | inl same ↦ absurd (ne ((text_eq_iff _ _).0 same))
      | inr differs ↦ rw differs (Memᴰ.head refl)
    ]
