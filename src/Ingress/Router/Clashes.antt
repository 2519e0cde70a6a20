-- ===== src/Ingress/Router/Clashes.antt =====
-- When two routes exclude each other.
use proxa.Prelude.{
  not_any, ◌≡◌, ◌⊎◌, inl, inr, sym, ◌∙◌, Bool, true, false, not, ◌&&◌, ◌||◌, List, [], ◌∷◌,
  if◌then◌else◌, is_nil, any, arith, Memᴰ,
}
use proxa.Prelude.Int.{ℤ, eqb_ℤ}
use proxa.Prelude.Text.{Text, text_eq, text_eq_iff}
use proxa.Prelude.Maps.{text-Eq}
use proxa.Types.{Route}
use proxa.Ingress.{ServiceId, L4Key, l4-Eq, l4_eq}
use proxa.Ingress.Router.{HpKey, hp-Eq, hp_eq, l4_key, hp_key}

abbrev pub Entry : Type 0
Entry = ServiceId × Route

-- Two layer-4 routes clash on the same protocol and port; two layer-7 routes on the same host in
-- different projects, or on the same host and path in one project.
abbrev pub same_l4 : L4Key → Entry → Bool
same_l4 k (svc, rt) = not (is_nil rt.l4) && l4_eq (l4_key rt) k

abbrev pub other_owner : Text → Text → Entry → Bool
other_owner host project (svc, rt) =
    is_nil rt.l4 && (text_eq rt.host host && not (text_eq svc.project project))

abbrev pub same_hp : HpKey → Entry → Bool
same_hp k (svc, rt) = is_nil rt.l4 && hp_eq (hp_key svc rt) k

abbrev pub clashes : Entry → Entry → Bool
clashes (svc, rt) y =
    if is_nil rt.l4
    then other_owner rt.host svc.project y || same_hp (hp_key svc rt) y
    else same_l4 (l4_key rt) y

text_eq_comm : (a b : Text) → text_eq a b ≡ text_eq b a
text_eq_comm a b = ground (arith, text_eq_iff a b, text_eq_iff b a)

eqb_ℤ_comm : (a b : ℤ) → eqb_ℤ a b ≡ eqb_ℤ b a
eqb_ℤ_comm a b = ground arith

-- The test of two entries does not depend on their order.
pub clashes_comm : (x y : Entry) → clashes x y ≡ clashes y x
unfolding l4_key hp_key l4_eq hp_eq
clashes_comm (s, r) (t, q) = rw (text_eq_comm q.host r.host) (
    rw (text_eq_comm t.project s.project) (
      rw (text_eq_comm q.path r.path)
        (rw (text_eq_comm q.l4 r.l4) (rw (eqb_ℤ_comm q.port r.port) (ground arith)))))

-- No two routes of the list clash.
abbrev pub no_clash : List Entry → Bool
no_clash [] = true
no_clash (x ∷ rest) = not (any (clashes x) rest) && no_clash rest

pub apart :
    (l : List Entry) (x y : Entry)
    → no_clash l ≡ true
    → Memᴰ x l
    → Memᴰ y l
    → (x ≡ y) ⊎ (clashes x y ≡ false)
apart [] x y h m k = elim m [ ]
apart (z ∷ l) x y h (Memᴰ.head p) (Memᴰ.head q) = inl (p ∙ sym q)
apart (z ∷ l) x y h (Memᴰ.head p) (Memᴰ.tail k) =
    inr (rw p (not_any (clashes z) y l (ground arith) k))
apart (z ∷ l) x y h (Memᴰ.tail m) (Memᴰ.head q) =
    inr (rw q (clashes_comm x z ∙ not_any (clashes z) x l (ground arith) m))
apart (z ∷ l) x y h (Memᴰ.tail m) (Memᴰ.tail k) = apart l x y (ground arith) m k
