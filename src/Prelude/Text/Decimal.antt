-- ===== src/Prelude/Text/Decimal.antt =====
-- Decimal numbers: what `%d` prints, `strconv.Atoi` reads.
use Prim.Native.Nat.{ℕ, zero, suc, ◌+◌, ◌-◌, ◌*◌, ◌/◌, ◌%◌, ◌^◌, ◌<◌}
use mathlib.Core.Path.{◌≡◌, refl, ◌∙◌}
use mathlib.Core.Logic.{inl, inr}
use mathlib.Core.Option.{Option, none, some}
use mathlib.Core.List.{[], ◌∷◌, ◌++◌, reverse, reverse-cons}
use native.Mathlib.Omega.{arith}
use proxa.Prelude.Tests.{ltb, if◌then◌else◌, Bool-cases}
use proxa.Prelude.Int.{pos}
use proxa.Prelude.Text.{
  Text, is_digit, digits_of, show_ℕ, show_ℤ, read_digits, in_range, unsigned, atoi,
}

-- One more digit, read at the end.
abbrev step : Option ℕ → ℕ → Option ℕ
step none c = none
step (some v) c = if is_digit c then some (v * 10 + (c - b'0')) else none

read_digits-snoc :
    (acc : ℕ) (s : Text) (c : ℕ) → read_digits acc (s ++ c ∷ []) ≡ step (read_digits acc s) c
unfolding read_digits
read_digits-snoc acc [] c = ground arith
read_digits-snoc acc (d ∷ s) c = ground (arith, read_digits-snoc (acc * 10 + (d - b'0')) s c)

digits_of-step :
    (f n : ℕ)
    → reverse (digits_of (suc f) n)
      ≡ (if ltb n 10 then [] else reverse (digits_of f (n / 10))) ++ (n % 10 + b'0') ∷ []
unfolding digits_of
digits_of-step f n = elim (Bool-cases (ltb n 10)) [
  | inl small ↦ rw small (ground arith)
  | inr large ↦ rw large (reverse-cons (n % 10 + b'0') (digits_of f (n / 10)))
]

read_digits-digits_of : (f n : ℕ) → n < f → read_digits 0 (reverse (digits_of f n)) ≡ some n
unfolding read_digits is_digit
read_digits-digits_of zero n h = absurd (omega arith)
read_digits-digits_of (suc f) n h = elim (Bool-cases (ltb n 10)) [
  | inl small ↦ rw (digits_of-step f n, small) (ground arith)
  | inr large ↦
      let rest : read_digits 0 (reverse (digits_of f (n / 10))) ≡ some (n / 10) =
        read_digits-digits_of f (n / 10) (ground arith) in
      rw
        (
          digits_of-step f n,
          large,
          read_digits-snoc 0 (reverse (digits_of f (n / 10))) (n % 10 + b'0'),
          rest,
        )
        (ground arith)
]

-- A number that starts with a digit has no sign.
atoi-unsigned : (s : Text) (n : ℕ) → unsigned s ≡ some n → n < 2 ^ 63 → atoi s ≡ some (pos n)
unfolding atoi unsigned read_digits is_digit in_range
atoi-unsigned [] n h b = cc
atoi-unsigned (c ∷ s) n h b = ground arith

unsigned-snoc : (s : Text) (c : ℕ) → unsigned (s ++ c ∷ []) ≡ read_digits 0 (s ++ c ∷ [])
unfolding unsigned
unsigned-snoc [] c = refl
unsigned-snoc (d ∷ s) c = refl

unsigned-digits_of : (n : ℕ) → unsigned (reverse (digits_of (suc n) n)) ≡ some n
unsigned-digits_of n =
    let all = read_digits-digits_of (suc n) n (omega arith) in
    rw (digits_of-step n n) (unsigned-snoc _ _ ∙ (rw (digits_of-step n n) at all))

-- `strconv.Atoi` reads back what `%d` prints of a number of an int64 that is not negative.
pub atoi-show_ℤ : (n : ℕ) → n < 2 ^ 63 → atoi (show_ℤ (pos n)) ≡ some (pos n)
unfolding show_ℤ show_ℕ
atoi-show_ℤ n b = atoi-unsigned (show_ℕ n) n (unsigned-digits_of n) b
