-- ===== src/Prelude/Text.antt =====
-- Go strings are byte sequences: equality, the byte order, prefixes and suffixes, decimal numbers.
pub mod Decimal
use Prim.Native.Char.{code}
use Prim.Native.String.{String}
use Prim.Native.Nat.{ℕ, zero, suc, ◌+◌, ◌-◌, ◌*◌, ◌/◌, ◌%◌, ◌^◌, compare, Ordering}
use mathlib.Core.Path.{◌≡◌, refl, ap}
use mathlib.Core.Logic.{◌↔◌}
use mathlib.Core.Bool.{Bool, true, false, ◌&&◌, ◌||◌}
use mathlib.Core.Option.{Option, none, some}
use mathlib.Core.List.{List, [], ◌∷◌, reverse}
use native.Mathlib.Omega.{arith}
use proxa.Prelude.Tests.{ltb, leb, ◌==◌, if◌then◌else◌}
use proxa.Prelude.Lists.{length, take, drop}
use proxa.Prelude.Int.{ℤ, pos, negsuc}
use proxa.Prelude.Sort.{IsOrder, swap, or_else}

abbrev pub Text : Type 0
Text = List ℕ

-- The bytes of an ASCII literal.
abbrev pub codes : String → Text
codes String.[] = []
codes (String.◌∷◌ c s) = code c ∷ codes s

unfoldable pub text_eq : Text → Text → Bool
text_eq [] [] = true
text_eq (a ∷ s) (b ∷ t) = a == b && text_eq s t
text_eq _ _ = false

text_eq→eq : (s t : Text) → text_eq s t ≡ true → s ≡ t
unfolding text_eq
text_eq→eq [] [] h = refl
text_eq→eq [] (b ∷ t) h = cc
text_eq→eq (a ∷ s) [] h = cc
text_eq→eq (a ∷ s) (b ∷ t) h = ground (arith, text_eq→eq s t)

pub text_eq_refl : (s : Text) → text_eq s s ≡ true
unfolding text_eq
text_eq_refl [] = refl
text_eq_refl (a ∷ s) = ground (arith, text_eq_refl s)

pub text_eq_iff : (s t : Text) → (text_eq s t ≡ true) ↔ (s ≡ t)
text_eq_iff s t = (text_eq→eq s t, λ e. rw e (text_eq_refl t))

-- `cmp.Compare` on strings: the order of bytes.
unfoldable pub text_compare : Text → Text → Ordering
text_compare [] [] = Ordering.eq
text_compare [] (b ∷ t) = Ordering.lt
text_compare (a ∷ s) [] = Ordering.gt
text_compare (a ∷ s) (b ∷ t) = let rest = text_compare s t in or_else (compare a b) rest

text_compare-swap : (s t : Text) → text_compare t s ≡ swap (text_compare s t)
unfolding text_compare
text_compare-swap [] [] = refl
text_compare-swap [] (b ∷ t) = refl
text_compare-swap (a ∷ s) [] = refl
text_compare-swap (a ∷ s) (b ∷ t) = ground (arith, text_compare-swap s t)

pub text_compare_eq : (s t : Text) → text_compare s t ≡ Ordering.eq → s ≡ t
unfolding text_compare
text_compare_eq [] [] h = refl
text_compare_eq [] (b ∷ t) h = cc
text_compare_eq (a ∷ s) [] h = cc
text_compare_eq (a ∷ s) (b ∷ t) h = ground (arith, text_compare_eq s t)

text_compare_trans :
    (s t u : Text)
    → text_compare s t ≡ Ordering.lt
    → text_compare t u ≡ Ordering.lt
    → text_compare s u ≡ Ordering.lt
unfolding text_compare
text_compare_trans [] [] u p q = cc
text_compare_trans [] (b ∷ t) [] p q = cc
text_compare_trans [] (b ∷ t) (c ∷ u) p q = refl
text_compare_trans (a ∷ s) [] u p q = cc
text_compare_trans (a ∷ s) (b ∷ t) [] p q = cc
text_compare_trans (a ∷ s) (b ∷ t) (c ∷ u) p q = ground (arith, text_compare_trans s t u)

pub text_compare-IsOrder : IsOrder text_compare
text_compare-IsOrder = record {
  swap_eq = text_compare-swap;
  lt_trans = text_compare_trans;
  eq_left = λ a b c e. ap (λ t. text_compare t c) (text_compare_eq a b e);
}

-- `strings.HasPrefix`
unfoldable pub has_prefix : Text → Text → Bool
has_prefix s [] = true
has_prefix [] (b ∷ p) = false
has_prefix (a ∷ s) (b ∷ p) = a == b && has_prefix s p

-- `strings.HasSuffix`
unfoldable pub has_suffix : Text → Text → Bool
unfolding text_eq
has_suffix s p = leb (length p) (length s) && text_eq (drop (length s - length p) s) p

-- `strings.CutSuffix`: the text before the suffix, if it is there.
unfoldable pub cut_suffix : Text → Text → Option Text
unfolding has_suffix
cut_suffix s p = if has_suffix s p then some (take (length s - length p) s) else none

-- `strings.TrimPrefix`
unfoldable pub trim_prefix : Text → Text → Text
unfolding has_prefix
trim_prefix s p = if has_prefix s p then drop (length p) s else s

unfoldable pub is_digit : ℕ → Bool
is_digit c = leb b'0' c && leb c b'9'

-- `%d` of a number: its digits, least significant first, with one more digit than it can need.
pub digits_of : ℕ → ℕ → Text
digits_of zero n = []
digits_of (suc f) n =
    let more = digits_of f (n / 10) in if ltb n 10 then (n + b'0') ∷ [] else (n % 10 + b'0') ∷ more

unfoldable pub show_ℕ : ℕ → Text
unfolding digits_of
show_ℕ n = reverse (digits_of (suc n) n)

unfoldable pub show_ℤ : ℤ → Text
unfolding show_ℕ
show_ℤ (pos n) = show_ℕ n
show_ℤ (negsuc n) = b'-' ∷ show_ℕ (suc n)

-- The digits of a number, from the left; `none` at another byte.
unfoldable pub read_digits : ℕ → Text → Option ℕ
unfolding is_digit
read_digits acc [] = some acc
read_digits acc (c ∷ s) =
    let rest = read_digits (acc * 10 + (c - b'0')) s in if is_digit c then rest else none

pub in_range : Bool → Option ℕ → Option ℤ
in_range true (some n) =
    if leb n (2 ^ 63) then (if n == 0 then some (pos 0) else some (negsuc (n - 1))) else none
in_range false (some n) = if ltb n (2 ^ 63) then some (pos n) else none
in_range b none = none

pub unsigned : Text → Option ℕ
unfolding read_digits
unsigned [] = none
unsigned (c ∷ s) = read_digits 0 (c ∷ s)

-- `strconv.Atoi`: an optional sign, digits, and a value that fits in an int64.
unfoldable pub atoi : Text → Option ℤ
unfolding in_range unsigned
atoi [] = none
atoi (c ∷ s) =
    if c == b'-'
    then in_range true (unsigned s)
    else if c == b'+'
    then in_range false (unsigned s)
    else in_range false (unsigned (c ∷ s))

-- ASCII white space.
unfoldable pub is_space : ℕ → Bool
is_space c = c == 32 || (leb 9 c && leb c 13)

unfoldable pub trim_left : Text → Text
unfolding is_space
trim_left [] = []
trim_left (c ∷ s) = let rest = trim_left s in if is_space c then rest else c ∷ s

-- `strings.TrimSpace` of an ASCII text.
unfoldable pub trim_space : Text → Text
unfolding trim_left
trim_space s = reverse (trim_left (reverse (trim_left s)))
