-- ===== src/Tests/Flat.antt =====
-- Values as lists of numbers, and back.
use mathlib.Core.Option
use mathlib.Core.Option.{some_inj}
use proxa.Prelude.{
  ℕ, zero, suc, ◌≡◌, refl, ap, Bool, true, false, List, [], ◌∷◌, Option, none, some, length,
}
use proxa.Prelude.Int.{ℤ, pos, negsuc}
use proxa.Prelude.Text.{Text}

-- Numbers in front of a text, and what is read off them.
pub record Flat (A : Type 0) : Type 0 where
  pub write : A → Text → Text
  pub read : Text → Option (A × Text)
  pub law : (a : A) (s : Text) → read (write a s) ≡ some (a, s)

read_ℕ : Text → Option (ℕ × Text)
read_ℕ [] = none
read_ℕ (n ∷ s) = some (n, s)

flat_ℕ : Flat ℕ
unfolding read_ℕ
flat_ℕ = record { write = λ n s. n ∷ s; read = read_ℕ; law = λ n s. refl }

module _ {A B : Type 0} where
  first_then : Flat B → Option (A × Text) → Option ((A × B) × Text)
  first_then fb none = none
  first_then fb (some (a, s)) = Option.map (λ (p : B × Text). ((a, p.0), p.1)) (fb.read s)

  pub flat_pair : Flat A → Flat B → Flat (A × B)
  unfolding first_then
  flat_pair fa fb = record {
    write = λ p s. fa.write p.0 (fb.write p.1 s);
    read = λ s. first_then fb (fa.read s);
    law = λ p s. rw (fa.law p.0 (fb.write p.1 s)) (rw (fb.law p.1 s) refl);
  }

  -- Along a pair of functions with a section law.
  pub flat_via : (to : B → A) (from : A → B) → ((b : B) → from (to b) ≡ b) → Flat A → Flat B
  flat_via to from h fa = record {
    write = λ b s. fa.write (to b) s;
    read = λ s. Option.map (λ (p : A × Text). (from p.0, p.1)) (fa.read s);
    law = λ b s. rw (fa.law (to b) s) (ap (λ x. some (x, s)) (h b));
  }

module _ {A : Type 0} (fa : Flat A) where
  write_all : List A → Text → Text
  write_all [] s = s
  write_all (a ∷ l) s = fa.write a (write_all l s)

  cons_all : A → Option (List A × Text) → Option (List A × Text)
  cons_all a none = none
  cons_all a (some (l, s)) = some (a ∷ l, s)

  next : (Text → Option (List A × Text)) → Option (A × Text) → Option (List A × Text)
  next rest none = none
  next rest (some (a, s)) = cons_all a (rest s)

  read_all : ℕ → Text → Option (List A × Text)
  read_all zero s = some ([], s)
  read_all (suc n) s = next (read_all n) (fa.read s)

  read_all-write_all : (l : List A) (s : Text) → read_all (length l) (write_all l s) ≡ some (l, s)
  unfolding read_all write_all next cons_all
  read_all-write_all [] s = refl
  read_all-write_all (a ∷ l) s = rw (fa.law a (write_all l s)) (rw (read_all-write_all l s) refl)

  read_list : Option (ℕ × Text) → Option (List A × Text)
  read_list none = none
  read_list (some (n, s)) = read_all n s

  pub flat_list : Flat (List A)
  unfolding read_list flat_ℕ read_ℕ
  flat_list = record {
    write = λ l s. length l ∷ write_all l s;
    read = λ s. read_list (read_ℕ s);
    law = λ l s. read_all-write_all l s;
  }

pub flat_text : Flat Text
flat_text = flat_list flat_ℕ

bit : Bool → ℕ
bit true = 1
bit false = 0

of_bit : ℕ → Bool
of_bit zero = false
of_bit (suc n) = true

pub flat_bool : Flat Bool
flat_bool = flat_via bit of_bit back flat_ℕ
  where
    back : (b : Bool) → of_bit (bit b) ≡ b
    back true = unfold bit of_bit in refl
    back false = unfold bit of_bit in refl

signed : ℤ → Bool × ℕ
signed (pos n) = (true, n)
signed (negsuc n) = (false, n)

of_signed : Bool × ℕ → ℤ
of_signed (true, n) = pos n
of_signed (false, n) = negsuc n

pub flat_ℤ : Flat ℤ
flat_ℤ = flat_via signed of_signed back (flat_pair flat_bool flat_ℕ)
  where
    back : (z : ℤ) → of_signed (signed z) ≡ z
    back (pos n) = unfold signed of_signed in refl
    back (negsuc n) = unfold signed of_signed in refl

module _ {A : Type 0} where
  listed : Option A → List A
  listed none = []
  listed (some a) = a ∷ []

  of_listed : List A → Option A
  of_listed [] = none
  of_listed (a ∷ l) = some a

  pub flat_option : Flat A → Flat (Option A)
  flat_option fa = flat_via listed of_listed back (flat_list fa)
    where
      back : (o : Option A) → of_listed (listed o) ≡ o
      back none = unfold listed of_listed in refl
      back (some a) = unfold listed of_listed in refl
