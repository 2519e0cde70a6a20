-- ===== src/Hash.antt =====
-- internal/hash/hash.go: the hash of a task definition over its canonical JSON.
pub mod Canonical
pub mod Stable
use proxa.Prelude.{
  ℕ, Bool, true, false, List, [], ◌∷◌, ◌++◌, Option, none, some, if◌then◌else◌, compare, Ordering,
}
use proxa.Prelude.Int.{ℤ, pos}
use proxa.Prelude.Text.{Text, codes, text_compare}
use proxa.Prelude.Sort.{sort}
use proxa.Types.{TaskDef}

-- What `json.Unmarshal` puts into an `any`: scalars (strings, numbers, Booleans, null), arrays and
-- objects. An object is a Go map: the order of its fields here is that of one iteration.
mutual
  pub data Json (S : Type 0) : Type 0 where
    scalar : S → Json S
    array : Items S → Json S
    object : Fields S → Json S

  pub data Items (S : Type 0) : Type 0 where
    nil : Items S
    cons : Json S → Items S → Items S

  pub data Fields (S : Type 0) : Type 0 where
    end : Fields S
    field : Text → Json S → Fields S → Fields S

-- What the code takes from encoding/json and crypto/sha256.
pub record Encoding : Type 1 where
  pub Scalar : Type 0
  pub generic : TaskDef → Json Scalar
  pub marshal_scalar : Scalar → Text
  pub marshal_key : Text → Text
  pub sum256 : Text → Text

-- A member of an object with its encoded value.
abbrev pub Member : Type 0
Member = Text × Text

abbrev pub compare_keys : Member → Member → Ordering
compare_keys (k, v) (j, w) = text_compare k j

-- The members of an object with commas between them.
join_members : (Text → Text) → List Member → Text
join_members key [] = []
join_members key ((k, v) ∷ []) = key k ++ (b':' ∷ v)
join_members key ((k, v) ∷ m ∷ rest) = key k ++ (b':' ∷ (v ++ (b',' ∷ join_members key (m ∷ rest))))

join_items : List Text → Text
join_items [] = []
join_items (t ∷ []) = t
join_items (t ∷ u ∷ rest) = t ++ (b',' ∷ join_items (u ∷ rest))

-- `marshalSorted`: each value of an object is encoded under its key, the keys in byte order.
unfoldable mutual
  unfolding join_members join_items sort

  pub marshal_sorted : {S : Type 0} → (S → Text) → (Text → Text) → Json S → Text
  marshal_sorted sc key (scalar s) = sc s
  marshal_sorted sc key (array xs) = b'[' ∷ (join_items (marshal_items sc key xs) ++ b']' ∷ [])
  marshal_sorted sc key (object fs) =
      b'{' ∷ (join_members key (sort compare_keys (marshal_fields sc key fs)) ++ b'}' ∷ [])

  pub marshal_items : {S : Type 0} → (S → Text) → (Text → Text) → Items S → List Text
  marshal_items sc key nil = []
  marshal_items sc key (cons x xs) = marshal_sorted sc key x ∷ marshal_items sc key xs

  pub marshal_fields : {S : Type 0} → (S → Text) → (Text → Text) → Fields S → List Member
  marshal_fields sc key end = []
  marshal_fields sc key (field k v fs) = (k, marshal_sorted sc key v) ∷ marshal_fields sc key fs

-- `stable` of `Hash`: the fields that do not say what to run are set to zero.
unfoldable pub stable : TaskDef → TaskDef
stable spec = record spec { replicas = pos 0; strategy = []; schedule = [] }

-- `canonicalJSON`
unfoldable pub canonical_json : Encoding → TaskDef → Text
canonical_json enc spec = marshal_sorted enc.marshal_scalar enc.marshal_key (enc.generic spec)

-- `Hash`
unfoldable pub hash : Encoding → TaskDef → Text
unfolding stable canonical_json
hash enc spec = codes "sha256:" ++ enc.sum256 (canonical_json enc (stable spec))
