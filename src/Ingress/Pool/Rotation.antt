-- ===== src/Ingress/Pool/Rotation.antt =====
-- Which backend a pick chooses.
use mathlib.Core.Option
use mathlib.Core.List.{append_assoc}
use proxa.Prelude.{
  ℕ, zero, suc, ◌+◌, ◌%◌, ◌^◌, ◌<◌, ◌≡◌, ◌≢◌, inl, inr, refl, ap, ◌∙◌, List, [], ◌∷◌, ◌++◌, some,
  length, get_elem?, filter, arith, Bool-cases, length-append,
}
use proxa.Prelude.Text.{Text, codes, text_eq}
use proxa.Ingress.{Backend}
use proxa.Ingress.Pool.{BackendPool, healthy, healthy_from, chosen, pick_from, pick}

get_elem?-middle :
    {A : Type 0} (pre : List A) (x : A) (l : List A)
    → get_elem? (pre ++ x ∷ l) (length pre) ≡ some x
get_elem?-middle [] x l = refl
get_elem?-middle (y ∷ pre) x l = get_elem?-middle pre x l

length-snoc : {A : Type 0} (pre : List A) (x : A) → length (pre ++ x ∷ []) ≡ suc (length pre)
length-snoc pre x = omega (arith, length-append pre (x ∷ []))

snoc_append : {A : Type 0} (pre : List A) (x : A) (l : List A) → (pre ++ x ∷ []) ++ l ≡ pre ++ x ∷ l
snoc_append pre x l = append_assoc pre (x ∷ []) l

abbrev healthy_of : List Backend → List Backend
healthy_of bs = filter (λ b. b.healthy) bs

one_more :
    (pre : List Backend) (b : Backend) (bs : List Backend) (j : ℕ)
    → ((k : ℕ)
        → chosen (pre ++ b ∷ bs) (healthy_from (suc (length pre)) bs) k
          ≡ get_elem? (healthy_of bs) k)
    → chosen (pre ++ b ∷ bs) (healthy_from (length pre) (b ∷ bs)) j
      ≡ get_elem? (healthy_of (b ∷ bs)) j
unfolding chosen healthy_from Option.bind
one_more pre b bs zero rest = elim (Bool-cases b.healthy) [
  | inl e ↦ simp e (get_elem?-middle pre b bs)
  | inr e ↦ simp e (rest 0)
]
one_more pre b bs (suc j) rest = elim (Bool-cases b.healthy) [
  | inl e ↦ simp e (rest j)
  | inr e ↦ simp e (rest (suc j))
]

-- The j-th index stands for the j-th healthy backend.
pub chosen-healthy_from :
    (pre bs : List Backend) (j : ℕ)
    → chosen (pre ++ bs) (healthy_from (length pre) bs) j ≡ get_elem? (healthy_of bs) j
unfolding chosen healthy_from Option.bind
chosen-healthy_from pre [] j = refl
chosen-healthy_from pre (b ∷ bs) j = one_more pre b bs j (λ k.
    rw (length-snoc pre b, snoc_append pre b bs) at (chosen-healthy_from (pre ++ b ∷ []) bs k))

length-healthy_from :
    (i : ℕ) (bs : List Backend) → length (healthy_from i bs) ≡ length (healthy_of bs)
unfolding healthy_from
length-healthy_from i [] = refl
length-healthy_from i (b ∷ bs) = ground (arith, length-healthy_from (suc i) bs)

abbrev pub round_robin : Text
round_robin = codes "round-robin"

pick_from-round_robin :
    (rand : ℕ → ℕ) (p : BackendPool) (l : List ℕ)
    → length l ≢ 0
    → pick_from rand round_robin p l
      ≡ (chosen p.backends l (p.cursor % length l), record p { cursor = (p.cursor + 1) % 2 ^ 64 })
unfolding pick_from text_eq
pick_from-round_robin rand p [] h = absurd (h refl)
pick_from-round_robin rand p (i ∷ l) h = refl

-- One round-robin pick over a pool with a healthy backend: the healthy backend at the cursor, modulo
-- their number, and a cursor one further.
pick-round_robin :
    (rand : ℕ → ℕ) (p : BackendPool)
    → length (healthy p) ≢ 0
    → pick rand round_robin p ≡ (
      get_elem? (healthy p) (p.cursor % length (healthy p)),
      record p { cursor = (p.cursor + 1) % 2 ^ 64 },
    )
unfolding pick healthy
pick-round_robin rand p h =
    let n = length-healthy_from 0 p.backends in
    pick_from-round_robin rand p (healthy_from 0 p.backends) (rw n h)
    ∙ rw n (rw (chosen-healthy_from [] p.backends (p.cursor % length (healthy_of p.backends))) refl)

-- The pool after k picks.
unfoldable pub pool_after : (ℕ → ℕ) → ℕ → BackendPool → BackendPool
pool_after rand zero p = p
pool_after rand (suc k) p = pool_after rand k (pick rand round_robin p).1

-- Of the round-robin picks over a pool that has a healthy backend and does not change, the k-th from
-- now, counted from 0, returns the healthy backend at the cursor plus k, modulo the number of healthy
-- backends, as long as the cursor plus k is below 2 ^ 64.
pub pick-rotates :
    (rand : ℕ → ℕ) (k : ℕ) (p : BackendPool)
    → length (healthy p) ≢ 0
    → p.cursor + k < 2 ^ 64
    → (pick rand round_robin (pool_after rand k p)).0
      ≡ get_elem? (healthy p) ((p.cursor + k) % length (healthy p))
unfolding pool_after healthy
pick-rotates rand zero p h b =
    let here : p.cursor + 0 ≡ p.cursor = omega arith in
    rw here (ap (λ r. r.0) (pick-round_robin rand p h))
pick-rotates rand (suc k) p h b =
    let below : (p.cursor + 1) % 2 ^ 64 ≡ p.cursor + 1 = omega arith in
    let later : p.cursor + 1 + k ≡ p.cursor + suc k = omega arith in
    let moved : (pick rand round_robin p).1 ≡ record p { cursor = p.cursor + 1 } =
      ap (λ r. r.1) (pick-round_robin rand p h) ∙ ap (λ c. record p { cursor = c }) below in
    ap (λ (q : BackendPool). (pick rand round_robin (pool_after rand k q)).0) moved
    ∙ rw later at (pick-rotates rand k (record p { cursor = p.cursor + 1 }) h (omega arith))
