-- ===== src/Probe/History.antt =====
-- The ring buffer: bounded, the latest result at its end, and what a streak counts.
use proxa.Prelude.{
  ℕ, suc, ◌+◌, ◌-◌, ◌≤◌, ◌<◌, min, ◌≡◌, refl, List, [], ◌∷◌, ◌++◌, length, reverse-append,
  reverse-cons, Bool-cases, inl, inr, length-append, length-drop, reverse, arith, ltb,
  if◌then◌else◌,
}
use proxa.Probe.{Result, History, history_cap, append, streak, failures}

abbrev pub append_all : History → List Result → History
append_all h [] = h
append_all h (r ∷ rs) = append_all (append h r) rs

-- The buffer never holds more than `historyCap` results.
pub append-bound :
    (h : History) (r : Result) → length h ≤ history_cap → length (append h r) ≤ history_cap
unfolding append
append-bound h r b = ground (
  arith,
  length-append h (r ∷ []),
  length-drop (length (h ++ r ∷ []) - history_cap) (h ++ r ∷ []),
)

failures-append :
    (l : List Result) (x : Result) → failures l ≡ min (length l) (failures (l ++ x ∷ []))
unfolding failures
failures-append [] x = omega arith
failures-append (y ∷ l) x = ground (arith, failures-append l x)

failures-le-length : (l : List Result) → failures l ≤ length l
unfolding failures
failures-le-length [] = omega arith
failures-le-length (y ∷ l) = ground (arith, failures-le-length l)

length-reverse' : (l : List Result) → length (reverse l) ≡ length l
length-reverse' [] = refl
length-reverse' (x ∷ l) =
    rw (reverse-cons x l) (omega (arith, length-append (reverse l) (x ∷ []), length-reverse' l))

-- One failure more, or none, in a buffer that is not yet full.
failures-snoc :
    (h : History) (r : Result)
    → failures (reverse (h ++ r ∷ [])) ≡ (if r.healthy then 0 else failures (reverse h) + 1)
unfolding failures
failures-snoc h r = rw (reverse-append h (r ∷ [])) refl

-- The failures at the tail of a full buffer, when its oldest entry is dropped.
failures_drop :
    (x : Result) (h : History) → failures (reverse h) ≡ min (length h) (failures (reverse (x ∷ h)))
failures_drop x h =
    rw (reverse-cons x h) (omega (arith, failures-append (reverse h) x, length-reverse' h))

failures_bound : (h : History) → failures (reverse h) ≤ length h
failures_bound h = omega (arith, failures-le-length (reverse h), length-reverse' h)

append_roomy : (h : History) (r : Result) → length h < history_cap → append h r ≡ h ++ r ∷ []
unfolding append
append_roomy h r b = ground (arith, length-append h (r ∷ []))

append_full :
    (x : Result) (h : History) (r : Result)
    → length (x ∷ h) ≡ history_cap
    → append (x ∷ h) r ≡ h ++ r ∷ []
unfolding append
append_full x h r b =
    let full : suc (length (h ++ r ∷ [])) ≡ 33 = omega (arith, length-append h (r ∷ [])) in rw full

-- The streak after a result, in a buffer within its capacity: 0 after a healthy one, and one more than
-- before, up to the capacity, after a failure.
pub streak-append :
    (h : History) (r : Result)
    → length h ≤ history_cap
    → streak (append h r) ≡ (if r.healthy then 0 else min history_cap (streak h + 1))
unfolding streak
streak-append [] r b =
    rw (append_roomy [] r (omega arith))
      (rw (failures-snoc [] r) (ground (arith, failures_bound [])))
streak-append (x ∷ h) r b = elim (Bool-cases (ltb (length (x ∷ h)) history_cap)) [
  | inl roomy ↦
      rw (append_roomy (x ∷ h) r (ground arith))
        (rw (failures-snoc (x ∷ h) r) (ground (arith, failures_bound (x ∷ h))))
  | inr full ↦
      rw (append_full x h r (ground arith))
        (rw (failures-snoc h r) (ground (arith, failures_drop x h, failures_bound (x ∷ h))))
]

length-append_all :
    (h : History) (rs : List Result)
    → length h ≤ history_cap
    → length (append_all h rs) ≤ history_cap
length-append_all h [] b = b
length-append_all h (r ∷ rs) b = length-append_all (append h r) rs (append-bound h r b)

-- How many of the last results in a row were failures, with no bound.
unfoldable pub run_of_failures : ℕ → List Result → ℕ
run_of_failures n [] = n
run_of_failures n (r ∷ rs) = run_of_failures (if r.healthy then 0 else n + 1) rs

streak-append_all-from :
    (h : History) (n : ℕ) (rs : List Result)
    → length h ≤ history_cap
    → streak h ≡ min history_cap n
    → streak (append_all h rs) ≡ min history_cap (run_of_failures n rs)
unfolding run_of_failures
streak-append_all-from h n [] b e = e
streak-append_all-from h n (r ∷ rs) b e =
    streak-append_all-from (append h r) (if r.healthy then 0 else n + 1) rs (append-bound h r b)
      (ground (arith, streak-append h r b))

-- Over any sequence of results recorded in an empty history, the streak is the number of failures since
-- the last healthy result, capped at 32, and the buffer holds at most 32 results.
pub streak-append_all :
    (rs : List Result)
    → (streak (append_all [] rs) ≡ min history_cap (run_of_failures 0 rs))
      × (length (append_all [] rs) ≤ history_cap)
streak-append_all rs = (
  streak-append_all-from [] 0 rs (omega arith) (unfold streak failures in refl),
  length-append_all [] rs (omega arith),
)

pub streak-le-cap : (h : History) → length h ≤ history_cap → streak h ≤ history_cap
unfolding streak
streak-le-cap h b = omega (arith, failures_bound h)
