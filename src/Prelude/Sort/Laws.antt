-- ===== src/Prelude/Sort/Laws.antt =====
-- Sorting keeps the elements and puts them in order.
use mathlib.Core.List.Perm
use mathlib.Core.List.{List, [], ◌∷◌, Memᴰ, Perm}
use mathlib.Core.Path.{◌≡◌, refl}
use mathlib.Core.Logic.{◌⊎◌, inl, inr, ◌≢◌}
use mathlib.Core.Bool.{Bool, true, false}
use Prim.Native.Nat.{Ordering}
use native.Mathlib.Omega.{arith}
use proxa.Prelude.Tests.{Bool-cases}
use proxa.Prelude.Lists.{count}
use proxa.Prelude.Sort.{is_gt, IsOrder, insert, sort, IsSorted, nil, one, more}

module _ {ℓ} {A : Type ℓ} where
  now : {y a : A} {l : List A} → Memᴰ y (a ∷ l) → (y ≡ a) ⊎ Memᴰ y l
  now (Memᴰ.head p) = inl p
  now (Memᴰ.tail t) = inr t

  later :
      {y x : A} {l k : List A} (a : A)
      → (Memᴰ y k → (y ≡ a) ⊎ Memᴰ y l)
      → Memᴰ y (x ∷ k)
      → (y ≡ a) ⊎ Memᴰ y (x ∷ l)
  later a f (Memᴰ.head p) = inr (Memᴰ.head p)
  later a f (Memᴰ.tail t) = elim (f t) [ inl p ↦ inl p | inr q ↦ inr (Memᴰ.tail q) ]

  after :
      {y x a : A} {l k : List A}
      → (y ≡ a) ⊎ Memᴰ y (x ∷ l)
      → ((y ≡ a) ⊎ Memᴰ y l → Memᴰ y k)
      → Memᴰ y (x ∷ k)
  after (inl p) f = Memᴰ.tail (f (inl p))
  after (inr (Memᴰ.head p)) f = Memᴰ.head p
  after (inr (Memᴰ.tail t)) f = Memᴰ.tail (f (inr t))

module _ {ℓ} {A : Type ℓ} (cmp : A → A → Ordering) where
  insert-perm : (a : A) (xs : List A) → Perm (insert cmp a xs) (a ∷ xs)
  unfolding insert
  insert-perm a [] = Perm.refl (a ∷ [])
  insert-perm a (x ∷ xs) = elim (Bool-cases (is_gt (cmp a x))) [
    | inl e ↦ rw e (Perm.trans (Perm.cons x (insert-perm a xs)) (Perm.swap a x xs))
    | inr e ↦ rw e (Perm.refl (a ∷ x ∷ xs))
  ]

  pub sort-perm : (xs : List A) → Perm (sort cmp xs) xs
  unfolding sort
  sort-perm [] = Perm.refl []
  sort-perm (x ∷ xs) = Perm.trans (insert-perm x (sort cmp xs)) (Perm.cons x (sort-perm xs))

  mem_of_insert : (a : A) (xs : List A) {y : A} → Memᴰ y (insert cmp a xs) → (y ≡ a) ⊎ Memᴰ y xs
  unfolding insert
  mem_of_insert a [] (Memᴰ.head e) = inl e
  mem_of_insert a [] (Memᴰ.tail t) = elim t [ ]
  mem_of_insert a (x ∷ xs) m = elim (Bool-cases (is_gt (cmp a x))) [
    | inl e ↦ later a (mem_of_insert a xs) (rw e at m)
    | inr e ↦ now (rw e at m)
  ]

  mem-insert : (a : A) (xs : List A) {y : A} → (y ≡ a) ⊎ Memᴰ y xs → Memᴰ y (insert cmp a xs)
  unfolding insert
  mem-insert a [] (inl p) = Memᴰ.head p
  mem-insert a [] (inr q) = Memᴰ.tail q
  mem-insert a (x ∷ xs) {y} h = elim (Bool-cases (is_gt (cmp a x))) [
    | inl e ↦ rw e (after h (mem-insert a xs))
    | inr e ↦ rw e (elim h [ inl p ↦ Memᴰ.head p | inr t ↦ Memᴰ.tail t ])
  ]

  count-insert : (p : A → Bool) (a : A) (xs : List A) → count p (insert cmp a xs) ≡ count p (a ∷ xs)
  unfolding insert
  count-insert p a [] = refl
  count-insert p a (x ∷ xs) = ground (arith, count-insert p a xs)

  pub count-sort : (p : A → Bool) (xs : List A) → count p (sort cmp xs) ≡ count p xs
  unfolding sort
  count-sort p [] = refl
  count-sort p (x ∷ xs) = ground (arith, count-insert p x (sort cmp xs), count-sort p xs)

  pub mem_of_sort : (y : A) (xs : List A) → Memᴰ y (sort cmp xs) → Memᴰ y xs
  unfolding sort
  mem_of_sort y [] m = m
  mem_of_sort y (x ∷ xs) m = elim (mem_of_insert x (sort cmp xs) m) [
    | inl e ↦ Memᴰ.head e
    | inr t ↦ Memᴰ.tail (mem_of_sort y xs t)
  ]

  pub mem-sort : (y : A) (xs : List A) → Memᴰ y xs → Memᴰ y (sort cmp xs)
  unfolding sort
  mem-sort y [] t = elim t [ ]
  mem-sort y (x ∷ xs) (Memᴰ.head e) = mem-insert x (sort cmp xs) (inl e)
  mem-sort y (x ∷ xs) (Memᴰ.tail t) = mem-insert x (sort cmp xs) (inr (mem-sort y xs t))

  module _ (h : IsOrder cmp) where
    not_gt_of_gt : (a x : A) → is_gt (cmp a x) ≡ true → is_gt (cmp x a) ≡ false
    not_gt_of_gt a x e = ground (arith, h.swap_eq a x)

    insert_after :
        {x : A} {l : List A} (a : A)
        → is_gt (cmp a x) ≡ true
        → IsSorted cmp (x ∷ l)
        → IsSorted cmp (insert cmp a l)
        → IsSorted cmp (x ∷ insert cmp a l)
    unfolding insert
    insert_after {x} {l = []} a e s t = more (not_gt_of_gt a x e) t
    insert_after {x} {l = y ∷ l} a e (more xy s) t = elim (Bool-cases (is_gt (cmp a y))) [
      | inl f ↦ rw f (more xy (rw f at t))
      | inr f ↦ rw f (more (not_gt_of_gt a x e) (rw f at t))
    ]

    insert-IsSorted : {l : List A} (a : A) → IsSorted cmp l → IsSorted cmp (insert cmp a l)
    unfolding insert
    insert-IsSorted a nil = one a
    insert-IsSorted a (one x) = elim (Bool-cases (is_gt (cmp a x))) [
      | inl e ↦ rw e (more (not_gt_of_gt a x e) (one a))
      | inr e ↦ rw e (more e (one x))
    ]
    insert-IsSorted a (more {x} {y} {l} xy s) = elim (Bool-cases (is_gt (cmp a x))) [
      | inl e ↦ rw e (insert_after a e (more xy s) (insert-IsSorted a s))
      | inr e ↦ rw e (more e (more xy s))
    ]

    pub sort-IsSorted : (xs : List A) → IsSorted cmp (sort cmp xs)
    unfolding sort
    sort-IsSorted [] = nil
    sort-IsSorted (x ∷ xs) = insert-IsSorted x (sort-IsSorted xs)

module _ {ℓ} {A : Type ℓ} (cmp : A → A → Ordering) (h : IsOrder cmp) where
  above : (a b x : A) → is_gt (cmp a x) ≡ true → is_gt (cmp b x) ≡ false → is_gt (cmp a b) ≡ true
  above a b x p q = ground (
    arith,
    h.swap_eq a x,
    h.swap_eq a b,
    h.swap_eq b x,
    h.lt_trans b x a,
    h.eq_left b x a,
    h.lt_trans a b x,
  )

  -- Elements that do not compare equal may be inserted in either order.
  pub insert_comm :
      (a b : A) (l : List A)
      → cmp a b ≢ Ordering.eq
      → insert cmp a (insert cmp b l) ≡ insert cmp b (insert cmp a l)
  unfolding insert
  insert_comm a b [] ne = ground (arith, h.swap_eq a b)
  insert_comm a b (x ∷ l) ne =
      ground (arith, h.swap_eq a b, above a b x, above b a x, insert_comm a b l)

module _ {ℓ} {A : Type ℓ} (cmp : A → A → Ordering) (h : IsOrder cmp) where
  not_gt_trans :
      (a b c : A) → is_gt (cmp a b) ≡ false → is_gt (cmp b c) ≡ false → is_gt (cmp a c) ≡ false
  not_gt_trans a b c p q = ground (
    arith,
    h.lt_trans a b c,
    h.eq_left a b c,
    h.eq_left c b a,
    h.swap_eq b c,
    h.swap_eq a c,
    h.swap_eq a b,
  )

  -- The first element of a sorted list compares at most any other.
  pub first_le :
      {x : A} {l : List A} → IsSorted cmp (x ∷ l) → (y : A) → Memᴰ y l → is_gt (cmp x y) ≡ false
  first_le (one x) y m = elim m [ ]
  first_le (more xy s) y (Memᴰ.head e) = rw e xy
  first_le (more {x} {y = z} xy s) y (Memᴰ.tail m) = not_gt_trans x z y xy (first_le s y m)

  pub tail-IsSorted : {x : A} {l : List A} → IsSorted cmp (x ∷ l) → IsSorted cmp l
  tail-IsSorted (one x) = nil
  tail-IsSorted (more xy s) = s
