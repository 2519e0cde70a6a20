-- ===== src/Parser/Version.antt =====
-- internal/parser/toml/parser.go: the version that a document requires, and the steps of `Parse`. Decoding is
-- an argument.
pub mod Compared
use proxa.Prelude.{
  ℕ, zero, suc, ◌+◌, ◌*◌, ◌-◌, max, Bool, true, false, not, ◌&&◌, ◌||◌, List, [], ◌∷◌, ◌++◌, Option,
  none, some, if◌then◌else◌, is_nil, length, get_elem?, map, Ordering, ◌==◌,
}
use mathlib.Core.Option
use proxa.Prelude.Int.{ℤ, pos, compare_ℤ, wrap64, ◌+ℤ◌, ◌*ℤ◌}
use proxa.Prelude.Text.{Text, codes, text_eq, trim_prefix, is_digit}
use proxa.Types.{TaskDef}
use proxa.Parser.{Code, validate}

-- `stripPrerelease`: the text before the first of `-` and `+`.
unfoldable pub strip_prerelease : Text → Text
strip_prerelease [] = []
strip_prerelease (c ∷ s) =
    let rest = strip_prerelease s in if c == b'-' || c == b'+' then [] else c ∷ rest

abbrev glue_first : List Text → ℕ → List Text
glue_first [] c = (c ∷ []) ∷ []
glue_first (w ∷ ws) c = (c ∷ w) ∷ ws

-- `strings.Split(s, ".")`
unfoldable pub split_dots : Text → List Text
split_dots [] = [] ∷ []
split_dots (c ∷ s) =
    let parts = split_dots s in if c == b'.' then [] ∷ parts else glue_first parts c

pub digits_value : ℤ → Text → Option ℤ
unfolding is_digit wrap64 ◌+ℤ◌ ◌*ℤ◌
digits_value n [] = some n
digits_value n (c ∷ s) =
    let rest = digits_value (wrap64 (n *ℤ pos 10 +ℤ pos (c - b'0'))) s in
    if is_digit c then rest else none

-- `atoiSafe`: the sum wraps around as an int64.
unfoldable pub atoi_safe : Text → Option ℤ
unfolding digits_value
atoi_safe s = if is_nil s then none else digits_value (pos 0) s

-- `getOrZero`
abbrev pub get_or_zero : List Text → ℕ → Text
get_or_zero xs i = Option.get_or (get_elem? xs i) (codes "0")

-- One round of the loop: the sign where the components differ, else what the rest says.
pub compare_component : Option ℤ → Option ℤ → Option Ordering → Option Ordering
compare_component none b rest = none
compare_component (some a) none rest = none
compare_component (some a) (some b) rest = elim (compare_ℤ a b) [
  | Ordering.lt ↦ some Ordering.lt
  | Ordering.eq ↦ rest
  | Ordering.gt ↦ some Ordering.gt
]

-- The loop from index `i` on, with `k` rounds left.
pub compare_from : ℕ → ℕ → List Text → List Text → Option Ordering
unfolding compare_component atoi_safe
compare_from zero i xs ys = some Ordering.eq
compare_from (suc k) i xs ys =
    compare_component (atoi_safe (get_or_zero xs i)) (atoi_safe (get_or_zero ys i))
      (compare_from k (suc i) xs ys)

-- `semverCompare`; `none` where a component is no number.
unfoldable pub semver_compare : Text → Text → Option Ordering
unfolding compare_from split_dots strip_prerelease
semver_compare a b =
    let xs = split_dots (strip_prerelease a) in
    let ys = split_dots (strip_prerelease b) in compare_from (max (length xs) (length ys)) 0 xs ys

abbrev pub is_lt : Option Ordering → Bool
is_lt (some Ordering.lt) = true
is_lt _ = false

-- `checkMetaVersion`: is the document refused?
unfoldable pub refuses_version : (required binary : Text) → Bool
unfolding semver_compare
refuses_version required binary =
    let wanted = trim_prefix required (codes "v") in
    let have = trim_prefix binary (codes "v") in
    if is_nil wanted
    then false
    else if is_nil have || text_eq have (codes "dev")
    then false
    else is_lt (semver_compare have wanted)

-- `Parse`, after decoding: the undecoded keys become warnings.
pub data ParseResult : Type 0 where
  decode_failed : ParseResult
  needs_newer : TaskDef → ParseResult
  invalid : TaskDef → List Text → Code → ParseResult
  parsed : TaskDef → List Text → ParseResult

pub validated : TaskDef → List Text → Option Code → ParseResult
validated td warnings none = parsed td warnings
validated td warnings (some code) = invalid td warnings code

abbrev with_project : TaskDef → TaskDef
with_project td = if is_nil td.project then record td { project = codes "default" } else td

-- `Parse`; `decoded` is the definition and its unknown fields, `binary` the version that runs.
unfoldable pub parse : (binary : Text) → (decoded : Option (TaskDef × List Text)) → ParseResult
unfolding validated refuses_version
parse binary none = decode_failed
parse binary (some (td, unknown)) =
    let full = with_project td in
    if refuses_version full.meta_version binary
    then needs_newer full
    else validated full (map (λ key. codes "parser/toml: unknown field: " ++ key) unknown)
        (validate full)
