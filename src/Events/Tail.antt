-- ===== src/Events/Tail.antt =====
-- What a tail of the events holds.
use mathlib.Core.List.Memᴰ
use proxa.Prelude.{
  ℕ, zero, suc, ◌≡◌, ◌⊎◌, inl, inr, refl, ap, ◌∙◌, ◌&&◌, if◌then◌else◌, true, false, List, [], ◌∷◌,
  length, take, filter, Memᴰ, arith, Ordering, length-take-le, mem_of_filter, mem-filter,
}
use proxa.Prelude.Int.{ℤ, pos, compare_ℤ, ltb_ℤ, ◌≤ℤ◌}
use proxa.Prelude.Sort.{is_gt, sort, IsSorted, IsOrder, lex-IsOrder, comap-IsOrder}
use proxa.Prelude.Sort.Laws.{mem-sort, mem_of_sort, sort-IsSorted, first_le, tail-IsSorted}
use proxa.Events.{Row, Table, TailFilter, limit_of, matches, newest_first, tail_rows}

abbrev descending : ℤ → ℤ → Ordering
descending a b = compare_ℤ b a

descending-IsOrder : IsOrder descending
descending-IsOrder = record {
  swap_eq = λ a b. ground arith;
  lt_trans = λ a b c p q. ground arith;
  eq_left = λ a b c p. ground arith;
}

newest_first-IsOrder : IsOrder newest_first
unfolding newest_first
newest_first-IsOrder =
    lex-IsOrder (λ a b. descending a.ts b.ts) (λ a b. descending (pos a.id) (pos b.id))
      (comap-IsOrder (λ (r : Row). r.ts) descending descending-IsOrder)
      (comap-IsOrder (λ (r : Row). pos r.id) descending descending-IsOrder)

-- An element of a sorted list is among the first `n`, or these are `n` and none comes after it.
among_first :
    {A : Type 0} (cmp : A → A → Ordering)
    → IsOrder cmp
    → (n : ℕ) (l : List A) (x : A) → IsSorted cmp l
    → Memᴰ x l
    → Memᴰ x (take n l)
      ⊎ ((length (take n l) ≡ n) × ((y : A) → Memᴰ y (take n l) → is_gt (cmp y x) ≡ false))
among_first cmp h zero l x s m = inr (refl, λ y k. elim k [ ])
among_first cmp h (suc n) [] x s m = elim m [ ]
among_first cmp h (suc n) (a ∷ l) x s (Memᴰ.head e) = inl (Memᴰ.head e)
among_first cmp h (suc n) (a ∷ l) x s (Memᴰ.tail m) =
    elim (among_first cmp h n l x (tail-IsSorted cmp h s) m) [
      | inl found ↦ inl (Memᴰ.tail found)
      | inr (full, before) ↦ inr (
        omega (arith, full),
        λ y k. elim (Memᴰ.cases_cons k) [
          | inl e ↦ rw e (first_le cmp h s x m)
          | inr t ↦ before y t
        ],
      )
    ]

-- The limit that a query asks for: 50 where it names none from 1 to 1000.
abbrev pub asked_limit : TailFilter → ℤ
asked_limit f = if ltb_ℤ (pos 0) f.limit && ltb_ℤ f.limit (pos 1001) then f.limit else pos 50

asked_limit-limit_of : (f : TailFilter) → pos (limit_of f) ≡ asked_limit f
unfolding limit_of
asked_limit-limit_of f = ground arith

-- A tail has at most as many rows as the query asks for, from 1 to 1000, or 50 where it names no such limit;
-- each is a row of the table that matches; and where a row that matches is not in the tail, the tail has as
-- many rows as that, and none of them is older.
pub tail_rows-newest :
    (f : TailFilter) (t : Table) (r : Row)
    → (pos (length (tail_rows f t)) ≤ℤ asked_limit f)
      × (Memᴰ r (tail_rows f t) → Memᴰ r t.rows × (matches f r ≡ true))
      × (Memᴰ r t.rows
          → matches f r ≡ true
          → Memᴰ r (tail_rows f t)
            ⊎ ((pos (length (tail_rows f t)) ≡ asked_limit f)
                × ((y : Row) → Memᴰ y (tail_rows f t) → is_gt (newest_first y r) ≡ false)))
unfolding tail_rows
tail_rows-newest f t r =
    let found = filter (matches f) t.rows in
    let sorted = sort newest_first found in
    (
      rw (← asked_limit-limit_of f) (omega (arith, length-take-le (limit_of f) sorted)),
      (λ m.
          mem_of_filter (matches f) r t.rows
            (mem_of_sort newest_first r found (mem_of_take (limit_of f) sorted r m))),
      λ m e.
          elim (among_first newest_first newest_first-IsOrder (limit_of f) sorted r
            (sort-IsSorted newest_first newest_first-IsOrder found)
            (mem-sort newest_first r found (mem-filter (matches f) r t.rows m e))) [
              | inl there ↦ inl there
              | inr (full, before) ↦ inr (ap pos full ∙ asked_limit-limit_of f, before)
            ],
    )
  where
    mem_of_take : {A : Type 0} (n : ℕ) (l : List A) (x : A) → Memᴰ x (take n l) → Memᴰ x l
    mem_of_take zero l x m = elim m [ ]
    mem_of_take (suc n) [] x m = m
    mem_of_take (suc n) (a ∷ l) x (Memᴰ.head e) = Memᴰ.head e
    mem_of_take (suc n) (a ∷ l) x (Memᴰ.tail m) = Memᴰ.tail (mem_of_take n l x m)
