-- ===== src/Hash/Canonical.antt =====
-- The canonical encoding does not depend on the order in which Go iterates over an object.
use proxa.Prelude.{◌≡◌, ◌≢◌, refl, ap, ◌∙◌, List, [], ◌∷◌, ◌++◌}
use proxa.Prelude.Text.{Text, codes, text_compare, text_compare-IsOrder, text_compare_eq}
use proxa.Prelude.Sort.{sort, IsOrder, comap-IsOrder}
use proxa.Prelude.Sort.Laws.{insert_comm}
use proxa.Types.{TaskDef}
use proxa.Hash.{
  Json, Items, Fields, scalar, array, object, nil, cons, end, field, Member, compare_keys,
  marshal_sorted, marshal_items, marshal_fields, join_items, join_members, Encoding, hash, stable,
}

-- Two values that differ in the order of the members of their objects, at any depth. Only members with
-- different keys change places, as the keys of a map are different.
mutual
  pub data SameJson {S : Type 0} : Json S → Json S → Type 0 where
    same_scalar : (s : S) → SameJson (scalar s) (scalar s)
    same_array : {xs ys : Items S} → SameItems xs ys → SameJson (array xs) (array ys)
    same_object : {fs gs : Fields S} → SameFields fs gs → SameJson (object fs) (object gs)

  pub data SameItems {S : Type 0} : Items S → Items S → Type 0 where
    same_nil : SameItems nil nil
    same_cons :
        {x y : Json S} {xs ys : Items S}
        → SameJson x y
        → SameItems xs ys
        → SameItems (cons x xs) (cons y ys)

  pub data SameFields {S : Type 0} : Fields S → Fields S → Type 0 where
    same_end : SameFields end end
    same_field :
        {k : Text} {v w : Json S} {fs gs : Fields S}
        → SameJson v w
        → SameFields fs gs
        → SameFields (field k v fs) (field k w gs)
    swap :
        {k j : Text} {v w : Json S} {fs : Fields S}
        → k ≢ j
        → SameFields (field k v (field j w fs)) (field j w (field k v fs))
    trans : {fs gs hs : Fields S} → SameFields fs gs → SameFields gs hs → SameFields fs hs

compare_keys-IsOrder : IsOrder compare_keys
compare_keys-IsOrder = comap-IsOrder (λ (m : Member). m.0) text_compare text_compare-IsOrder

sort_swap :
    (a b : Member) (l : List Member)
    → a.0 ≢ b.0
    → sort compare_keys (a ∷ b ∷ l) ≡ sort compare_keys (b ∷ a ∷ l)
unfolding sort
sort_swap a b l ne =
    insert_comm compare_keys compare_keys-IsOrder a b (sort compare_keys l)
      (λ e. ne (text_compare_eq a.0 b.0 e))

module _ {S : Type 0} (sc : S → Text) (key : Text → Text) where
  mutual
    unfolding marshal_sorted

    marshal_sorted-same :
        {x y : Json S} → SameJson x y → marshal_sorted sc key x ≡ marshal_sorted sc key y
    marshal_sorted-same (same_scalar s) = refl
    marshal_sorted-same (same_array h) =
        ap (λ (l : List Text). b'[' ∷ (join_items l ++ b']' ∷ [])) (marshal_items-same h)
    marshal_sorted-same (same_object h) =
        ap (λ (l : List Member). b'{' ∷ (join_members key l ++ b'}' ∷ [])) (marshal_fields-same h)

    marshal_items-same :
        {xs ys : Items S} → SameItems xs ys → marshal_items sc key xs ≡ marshal_items sc key ys
    marshal_items-same same_nil = refl
    marshal_items-same (same_cons h t) = cc (marshal_sorted-same h, marshal_items-same t)

    marshal_fields-same :
        {fs gs : Fields S}
        → SameFields fs gs
        → sort compare_keys (marshal_fields sc key fs)
          ≡ sort compare_keys (marshal_fields sc key gs)
    marshal_fields-same same_end = refl
    marshal_fields-same (same_field h t) = cc (marshal_sorted-same h, marshal_fields-same t)
    marshal_fields-same (swap {k} {j} {v} {w} {fs} ne) =
        sort_swap (k, marshal_sorted sc key v) (j, marshal_sorted sc key w)
          (marshal_fields sc key fs) ne
    marshal_fields-same (trans p q) = marshal_fields-same p ∙ marshal_fields-same q

-- Two task definitions have the same hash if, once their replicas, strategy and schedule are cleared,
-- their JSON values differ only in the order in which the members of objects are met, at any depth.
pub hash_canonical :
    (enc : Encoding) (a b : TaskDef)
    → SameJson (enc.generic (stable a)) (enc.generic (stable b))
    → hash enc a ≡ hash enc b
unfolding hash
hash_canonical enc a b h =
    ap (λ t. codes "sha256:" ++ enc.sum256 t)
      (marshal_sorted-same enc.marshal_scalar enc.marshal_key h)
