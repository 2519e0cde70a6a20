-- ===== src/Prelude/Sort.antt =====
-- Three-way comparisons, their laws, and sorting by one (`slices.SortFunc`).
pub mod Laws
use Prim.Native.Nat.{ℕ, zero, suc, compare, Ordering}
use mathlib.Core.Path.{◌≡◌, refl, sym}
use mathlib.Core.Logic.{◌⊎◌, inl, inr, ◌≢◌}
use mathlib.Core.Bool.{Bool, true, false}
use mathlib.Core.List.{List, [], ◌∷◌, ◌++◌, Memᴰ}
use native.Mathlib.Omega.{arith}
use proxa.Prelude.Tests.{if◌then◌else◌}
use proxa.Prelude.Int.{ℤ, compare_ℤ}

abbrev pub swap : Ordering → Ordering
swap Ordering.lt = Ordering.gt
swap Ordering.eq = Ordering.eq
swap Ordering.gt = Ordering.lt

abbrev pub is_gt : Ordering → Bool
is_gt Ordering.gt = true
is_gt _ = false

-- What a comparison function owes to `slices.SortFunc`: a strict weak order.
pub record IsOrder {ℓ} {A : Type ℓ} (cmp : A → A → Ordering) : Type ℓ where
  pub swap_eq : (a b : A) → cmp b a ≡ swap (cmp a b)
  pub lt_trans : (a b c : A) → cmp a b ≡ Ordering.lt → cmp b c ≡ Ordering.lt → cmp a c ≡ Ordering.lt
  pub eq_left : (a b c : A) → cmp a b ≡ Ordering.eq → cmp a c ≡ cmp b c

pub compare-IsOrder : IsOrder compare
compare-IsOrder = record {
  swap_eq = λ a b. ground arith;
  lt_trans = λ a b c p q. ground arith;
  eq_left = λ a b c p. ground arith;
}

pub compare_ℤ-IsOrder : IsOrder compare_ℤ
compare_ℤ-IsOrder = record {
  swap_eq = λ a b. ground arith;
  lt_trans = λ a b c p q. ground arith;
  eq_left = λ a b c p. ground arith;
}

-- `if c := first; c != 0 { return c }; return second`
abbrev pub or_else : Ordering → Ordering → Ordering
or_else Ordering.eq o = o
or_else Ordering.lt o = Ordering.lt
or_else Ordering.gt o = Ordering.gt

module _ {ℓ} {A : Type ℓ} (f g : A → A → Ordering) where
  abbrev pub lex : A → A → Ordering
  lex a b = or_else (f a b) (g a b)

  pub lex-IsOrder : IsOrder f → IsOrder g → IsOrder lex
  lex-IsOrder hf hg = record {
    swap_eq = λ a b. ground (arith, hf.swap_eq a b, hg.swap_eq a b);
    lt_trans = λ a b c p q. ground (
      arith,
      hf.lt_trans a b c,
      hg.lt_trans a b c,
      hf.eq_left a b c,
      hf.eq_left c b a,
      hf.swap_eq a b,
      hf.swap_eq b c,
      hf.swap_eq a c,
    );
    eq_left = λ a b c p. ground (arith, hf.eq_left a b c, hg.eq_left a b c);
  }

pub comap-IsOrder {ℓ κ} :
    {A : Type ℓ} {B : Type κ} (k : A → B) (cmp : B → B → Ordering)
    → IsOrder cmp
    → IsOrder {A = A} (λ a b. cmp (k a) (k b))
comap-IsOrder k cmp h = record {
  swap_eq = λ a b. h.swap_eq (k a) (k b);
  lt_trans = λ a b c. h.lt_trans (k a) (k b) (k c);
  eq_left = λ a b c. h.eq_left (k a) (k b) (k c);
}

module _ {ℓ} {A : Type ℓ} (cmp : A → A → Ordering) where
  pub insert : A → List A → List A
  insert a [] = a ∷ []
  insert a (x ∷ xs) = let rest = insert a xs in if is_gt (cmp a x) then x ∷ rest else a ∷ x ∷ xs

  -- The result of `slices.SortFunc`, elements that compare equal in their original order. Go
  -- leaves the order of those open, so no theorem speaks of it.
  unfoldable pub sort : List A → List A
  unfolding insert
  sort [] = []
  sort (x ∷ xs) = insert x (sort xs)

  -- Each element compares at most the next.
  pub data IsSorted : List A → Type ℓ where
    nil : IsSorted []
    one : (x : A) → IsSorted (x ∷ [])
    more :
        {x y : A} {l : List A} → is_gt (cmp x y) ≡ false → IsSorted (y ∷ l) → IsSorted (x ∷ y ∷ l)
