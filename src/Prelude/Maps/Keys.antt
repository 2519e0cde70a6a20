-- ===== src/Prelude/Maps/Keys.antt =====
-- A map has one pair for each key, so its pairs are its lookups.
use mathlib.Core.Path.{◌≡◌, refl, sym, ap}
use mathlib.Core.Logic.{inl, inr}
use mathlib.Core.Option.{none, some, some_inj}
use mathlib.Core.List.{[], ◌∷◌, Memᴰ}
use native.Mathlib.Omega.{arith}
use proxa.Prelude.Tests.{Bool-cases}
use proxa.Prelude.Maps.{Eq, Map, lookup, put, remove, lookup-put, lookup-remove}

module _ {ℓ κ} {K : Type ℓ} {V : Type κ} ⦃e : Eq K⦄ where
  abbrev pub IsDistinct : Map K V → Type κ
  IsDistinct [] = Unit
  IsDistinct ((k, v) ∷ m) = (lookup k m ≡ none) × IsDistinct m

  pub put-IsDistinct : (k : K) (v : V) (m : Map K V) → IsDistinct m → IsDistinct (put k v m)
  unfolding put lookup
  put-IsDistinct k v [] h = (refl, tt)
  put-IsDistinct k v ((j, w) ∷ m) h = elim (Bool-cases (e.beq j k)) [
    | inl same ↦ rw same h
    | inr other ↦
        rw other (
          ground (arith, lookup-put k j v m, e.beq_iff k j, e.beq_iff j k),
          put-IsDistinct k v m h.1,
        )
  ]

  pub mem_of_lookup : (k : K) (v : V) (m : Map K V) → lookup k m ≡ some v → Memᴰ (k, v) m
  unfolding lookup
  mem_of_lookup k v [] h = cc
  mem_of_lookup k v ((j, w) ∷ m) h = elim (Bool-cases (e.beq j k)) [
    | inl same ↦
        Memᴰ.head (λ i. (sym ((e.beq_iff j k).0 same) i, sym (some_inj.0 (rw same at h)) i))
    | inr other ↦ Memᴰ.tail (mem_of_lookup k v m (rw other at h))
  ]

  pub lookup_of_mem :
      (k : K) (v : V) (m : Map K V) → IsDistinct m → Memᴰ (k, v) m → lookup k m ≡ some v
  unfolding lookup
  lookup_of_mem k v [] d h = elim h [ ]
  lookup_of_mem k v ((j, w) ∷ m) d (Memᴰ.head p) =
      let key : k ≡ j = ap (λ (t : K × V). t.0) p in
      let value : v ≡ w = ap (λ (t : K × V). t.1) p in
      rw ((e.beq_iff j k).1 (sym key)) (ap some (sym value))
  lookup_of_mem k v ((j, w) ∷ m) d (Memᴰ.tail t) = elim (Bool-cases (e.beq j k)) [
    | inl same ↦
        let found = lookup_of_mem k v m d.1 t in
        absurd (cc (found, d.0, ap (λ x. lookup x m) ((e.beq_iff j k).0 same)))
    | inr other ↦ rw other (lookup_of_mem k v m d.1 t)
  ]

  pub remove-IsDistinct : (k : K) (m : Map K V) → IsDistinct m → IsDistinct (remove k m)
  unfolding remove lookup
  remove-IsDistinct k [] h = tt
  remove-IsDistinct k ((j, w) ∷ m) h = elim (Bool-cases (e.beq j k)) [
    | inl same ↦ rw same (remove-IsDistinct k m h.1)
    | inr other ↦ rw other (ground (arith, lookup-remove k j m), remove-IsDistinct k m h.1)
  ]
