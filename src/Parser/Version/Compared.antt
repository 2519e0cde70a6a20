-- ===== src/Parser/Version/Compared.antt =====
-- The order of versions.
use mathlib.Core.Option.{some_inj}
use proxa.Prelude.{
  ℕ, zero, suc, max, ◌≤◌, ◌<◌, ◌+◌, ◌*◌, ◌-◌, ◌^◌, ◌≡◌, refl, ap, inl, inr, false, List, [], ◌∷◌,
  some, length, arith, Ordering, Bool-cases, is_nil, compare,
}
use proxa.Prelude.Int.{pos, wrap64_fits, pos-*ℤ-pos, pos-+ℤ-pos}
use proxa.Prelude.Sort.{or_else}
use proxa.Prelude.Text.{Text, codes, read_digits, is_digit}
use proxa.Parser.Version.{
  strip_prerelease, split_dots, digits_value, atoi_safe, get_or_zero, compare_component,
  compare_from, semver_compare,
}

-- The components of a version, where each is a decimal number that fits in an int64.
pub data Components : List Text → List ℕ → Type 0 where
  no_more : Components [] []
  one_more :
      {p : Text} {n : ℕ} {ps : List Text} {ns : List ℕ}
      → is_nil p ≡ false
      → read_digits 0 p ≡ some n
      → n < 2 ^ 63
      → Components ps ns
      → Components (p ∷ ps) (n ∷ ns)

-- The lexicographic order of numbers, of which the shorter list goes on with zeros.
unfoldable pub compare_padded : List ℕ → List ℕ → Ordering
compare_padded [] [] = Ordering.eq
compare_padded [] (b ∷ ys) = let rest = compare_padded [] ys in or_else (compare 0 b) rest
compare_padded (a ∷ xs) [] = let rest = compare_padded xs [] in or_else (compare a 0) rest
compare_padded (a ∷ xs) (b ∷ ys) = let rest = compare_padded xs ys in or_else (compare a b) rest

read_digits-le : (s : Text) (acc v : ℕ) → read_digits acc s ≡ some v → acc ≤ v
unfolding read_digits
read_digits-le [] acc v h = omega (arith, some_inj.0 h)
read_digits-le (c ∷ s) acc v h = elim (Bool-cases (is_digit c)) [
  | inl digit ↦
      let later = read_digits-le s (acc * 10 + (c - b'0')) v (rw digit at h) in omega (arith, later)
  | inr other ↦ cc (rw other at h)
]

-- `atoiSafe` adds up the number that the digits write, if that fits.
digits_value-read :
    (s : Text) (acc v : ℕ)
    → read_digits acc s ≡ some v
    → v < 2 ^ 63
    → digits_value (pos acc) s ≡ some (pos v)
unfolding digits_value read_digits
digits_value-read [] acc v h fits = ap (λ n. some (pos n)) (some_inj.0 h)
digits_value-read (c ∷ s) acc v h fits = elim (Bool-cases (is_digit c)) [
  | inl digit ↦
      let h' : read_digits (acc * 10 + (c - b'0')) s ≡ some v = rw digit at h in
      let small : acc * 10 + (c - b'0') < 2 ^ 63 =
        omega (arith, fits, read_digits-le s (acc * 10 + (c - b'0')) v h') in
      rw
        (
          digit,
          pos-*ℤ-pos acc 10,
          pos-+ℤ-pos (acc * 10) (c - b'0'),
          wrap64_fits (acc * 10 + (c - b'0')) small,
        )
        (digits_value-read s (acc * 10 + (c - b'0')) v h' fits)
  | inr other ↦ cc (rw other at h)
]

atoi_safe-read :
    (p : Text) (n : ℕ)
    → is_nil p ≡ false
    → read_digits 0 p ≡ some n
    → n < 2 ^ 63
    → atoi_safe p ≡ some (pos n)
unfolding atoi_safe
atoi_safe-read p n there h fits = rw there (digits_value-read p 0 n h fits)

abbrev rest_of : List Text → List Text
rest_of [] = []
rest_of (x ∷ xs) = xs

get_or_zero-next : (xs : List Text) (i : ℕ) → get_or_zero xs (suc i) ≡ get_or_zero (rest_of xs) i
get_or_zero-next [] i = refl
get_or_zero-next (x ∷ xs) i = refl

compare_from-next :
    (k i : ℕ) (xs ys : List Text)
    → compare_from k (suc i) xs ys ≡ compare_from k i (rest_of xs) (rest_of ys)
unfolding compare_from
compare_from-next zero i xs ys = refl
compare_from-next (suc k) i xs ys =
    rw (get_or_zero-next xs i, get_or_zero-next ys i, compare_from-next k (suc i) xs ys) refl

atoi_zero : atoi_safe (codes "0") ≡ some (pos 0)
unfolding atoi_safe
atoi_zero = refl

component :
    (a b : ℕ) (rest : Ordering)
    → compare_component (some (pos a)) (some (pos b)) (some rest)
      ≡ some (or_else (compare a b) rest)
unfolding compare_component
component a b rest = ground arith

-- One round, of which the components are numbers.
compare_from-round :
    (k : ℕ) (xs ys : List Text) (a b : ℕ) (rest : Ordering)
    → atoi_safe (get_or_zero xs 0) ≡ some (pos a)
    → atoi_safe (get_or_zero ys 0) ≡ some (pos b)
    → compare_from k 0 (rest_of xs) (rest_of ys) ≡ some rest
    → compare_from (suc k) 0 xs ys ≡ some (or_else (compare a b) rest)
unfolding compare_from
compare_from-round k xs ys a b rest ha hb hr =
    rw (ha, hb, compare_from-next k 0 xs ys, hr) (component a b rest)

-- The loop, run for at least as many rounds as there are components.
compare_from-padded :
    (k : ℕ) {xs ys : List Text} {ms ns : List ℕ}
    → length xs ≤ k
    → length ys ≤ k
    → Components xs ms
    → Components ys ns
    → compare_from k 0 xs ys ≡ some (compare_padded ms ns)
unfolding compare_padded
compare_from-padded zero hx hy no_more no_more = unfold compare_from in refl
compare_from-padded zero hx hy no_more (one_more t b f cy) = absurd (omega arith)
compare_from-padded zero hx hy (one_more t a f cx) cy = absurd (omega arith)
compare_from-padded (suc k) hx hy no_more no_more =
    compare_from-round k [] [] 0 0 Ordering.eq atoi_zero atoi_zero
      (compare_from-padded k (omega arith) (omega arith) no_more no_more)
compare_from-padded (suc k) hx hy no_more (one_more {p} {n} {ps} t b f cy) =
    compare_from-round k [] (p ∷ ps) 0 n _ atoi_zero (atoi_safe-read p n t b f)
      (compare_from-padded k (omega arith) (omega arith) no_more cy)
compare_from-padded (suc k) hx hy (one_more {p} {n} {ps} t a f cx) no_more =
    compare_from-round k (p ∷ ps) [] n 0 _ (atoi_safe-read p n t a f) atoi_zero
      (compare_from-padded k (omega arith) (omega arith) cx no_more)
compare_from-padded (suc k) hx hy (one_more {p = p} {n = m} {ps = ps} t a f cx)
      (one_more {p = q} {n = n} {ps = qs} t' b f' cy) =
    compare_from-round k (p ∷ ps) (q ∷ qs) m n _ (atoi_safe-read p m t a f)
      (atoi_safe-read q n t' b f') (compare_from-padded k (omega arith) (omega arith) cx cy)

-- Where the components of both versions are decimal numbers below 2 ^ 63, the comparison is the
-- lexicographic order of these numbers, of which the shorter version goes on with zeros.
pub semver_compare-padded :
    (a b : Text) {ms ns : List ℕ}
    → Components (split_dots (strip_prerelease a)) ms
    → Components (split_dots (strip_prerelease b)) ns
    → semver_compare a b ≡ some (compare_padded ms ns)
unfolding semver_compare
semver_compare-padded a b ca cb =
    compare_from-padded
      (max (length (split_dots (strip_prerelease a))) (length (split_dots (strip_prerelease b))))
      (omega arith) (omega arith) ca cb
