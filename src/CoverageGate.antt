-- ===== src/CoverageGate.antt =====
-- cmd/coverage-gate/main.go: the coverage of each package from a profile, and the report. A file is its
-- lines; `strings.Fields` and `strings.TrimSpace` split at ASCII white space. Floating-point numbers are a
-- parameter.
pub mod Summary
use proxa.Prelude.{
  ℕ, zero, suc, ◌+◌, ◌==◌, Bool, true, false, not, ◌&&◌, ◌||◌, List, [], ◌∷◌, ◌++◌, Option, none,
  some, if◌then◌else◌, is_nil, length, count, map, ltb, leb, Ordering,
}
use mathlib.Core.Option
use proxa.Prelude.Int.{ℤ, pos, ltb_ℤ, ◌+ℤ◌, wrap64}
use proxa.Prelude.Text.{Text, codes, text_eq, text_compare, has_prefix, atoi, is_space}
use proxa.Prelude.Maps.{Map, lookup, put, text-Eq}
use proxa.Prelude.Sort.{sort, lex}

-- `pkgCoverage`
pub record PkgCoverage : Type 0 where
  pub covered : ℤ
  pub total : ℤ

pub data ParseError : Type 0 where
  no_mode : ParseError
  no_colon no_package not_three_fields bad_statement_count bad_coverage_count : Text → ParseError
  no_data : ParseError

pub data Parsed : Type 0 where
  failed : ParseError → Parsed
  parsed : Map Text PkgCoverage → Parsed

abbrev later_split : ℕ → ℕ → Text → Option (Text × Text) → Option (Text × Text)
later_split c x s none = if x == c then some ([], s) else none
later_split c x s (some (a, b)) = some (x ∷ a, b)

-- The texts before and after the last byte `c`: `strings.LastIndex`.
pub split_last : ℕ → Text → Option (Text × Text)
split_last c [] = none
split_last c (x ∷ s) = let rest = split_last c s in later_split c x s rest

-- `strings.Fields`; `word` is the part of a field that has been read.
fields_from : Text → Text → List Text
unfolding is_space
fields_from word [] = if is_nil word then [] else word ∷ []
fields_from word (c ∷ s) =
    let next = fields_from [] s in
    let longer = fields_from (word ++ c ∷ []) s in
    if is_space c then (if is_nil word then next else word ∷ next) else longer

unfoldable pub fields : Text → List Text
unfolding fields_from
fields s = fields_from [] s

-- `c := out[pkg]; c.total += n; if count > 0 { c.covered += n }; out[pkg] = c`
pub add_block : Text → (n hits : ℤ) → Map Text PkgCoverage → Map Text PkgCoverage
unfolding ◌+ℤ◌ wrap64
add_block pkg n hits out =
    let c = Option.get_or (lookup pkg out) (record { covered = pos 0; total = pos 0 }) in
    put pkg
      (record {
        covered = if ltb_ℤ (pos 0) hits then wrap64 (c.covered +ℤ n) else c.covered;
        total = wrap64 (c.total +ℤ n);
      })
      out

counted : Text → Text → Option ℤ → Option ℤ → Map Text PkgCoverage → Parsed
unfolding add_block
counted line pkg none hits out = failed (bad_statement_count line)
counted line pkg (some n) none out = failed (bad_coverage_count line)
counted line pkg (some n) (some hits) out = parsed (add_block pkg n hits out)

three_fields : Text → Text → List Text → Map Text PkgCoverage → Parsed
unfolding counted
three_fields line pkg (range ∷ n ∷ hits ∷ []) out = counted line pkg (atoi n) (atoi hits) out
three_fields line pkg _ out = failed (not_three_fields line)

in_package : Text → Text → Option (Text × Text) → Map Text PkgCoverage → Parsed
unfolding three_fields
in_package line rest none out = failed (no_package line)
in_package line rest (some (pkg, file)) out = three_fields line pkg (fields rest) out

at_colon : Text → Option (Text × Text) → Map Text PkgCoverage → Parsed
unfolding in_package split_last
at_colon line none out = failed (no_colon line)
at_colon line (some (file, rest)) out = in_package line rest (split_last b'/' file) out

-- One line after the first.
pub parse_line : Text → Map Text PkgCoverage → Parsed
unfolding at_colon split_last
parse_line line out = if is_nil line then parsed out else at_colon line (split_last b':' line) out

abbrev pub and_then : Parsed → (Map Text PkgCoverage → Parsed) → Parsed
and_then (failed e) next = failed e
and_then (parsed out) next = next out

pub parse_lines : List Text → Map Text PkgCoverage → Parsed
unfolding parse_line
parse_lines [] out = parsed out
parse_lines (line ∷ rest) out = and_then (parse_line line out) (λ next. parse_lines rest next)

some_data : Map Text PkgCoverage → Parsed
some_data [] = failed no_data
some_data (p ∷ out) = parsed (p ∷ out)

-- `parseCoverage`, of the lines of the file.
unfoldable pub parse_coverage : List Text → Parsed
unfolding parse_lines some_data
parse_coverage [] = failed no_data
parse_coverage (first ∷ rest) =
    if has_prefix first (codes "mode:")
    then and_then (parse_lines rest []) some_data
    else failed no_mode

-- float64: the operations that the report uses.
pub record Float : Type 1 where
  pub F : Type 0
  pub zero_float : F
  -- 100.0 * float64(covered) / float64(total)
  pub percent : (covered total : ℤ) → F
  pub compare_float : F → F → Ordering

-- `reportEntry`
pub record ReportEntry (F : Type 0) : Type 0 where
  pub path : Text
  pub coverage_percent : F
  pub below_threshold : Bool
  pub allowlisted : Bool

-- `report`
pub record Report (F : Type 0) : Type 0 where
  pub threshold_percent : F
  pub overall_percent : F
  pub package_count : ℕ
  pub below_threshold_count : ℕ
  pub allowlisted_count : ℕ
  pub packages : List (ReportEntry F)

abbrev is_lt : Ordering → Bool
is_lt Ordering.lt = true
is_lt _ = false

module _ (f : Float) (threshold : f.F) (allowlist : Map Text Bool) where
  abbrev pub percent_of : ℤ → ℤ → f.F
  percent_of covered total = if ltb_ℤ (pos 0) total then f.percent covered total else f.zero_float

  unfoldable pub entry_of : Text × PkgCoverage → ReportEntry f.F
  entry_of (path, c) =
      let percent = percent_of c.covered c.total in
      let listed = Option.get_or (lookup path allowlist) false in
      record {
        path = path;
        coverage_percent = percent;
        below_threshold = is_lt (f.compare_float percent threshold) && not listed;
        allowlisted = listed;
      }

  -- "Sort ascending by coverage; alphabetical secondary."
  unfoldable pub by_coverage : ReportEntry f.F → ReportEntry f.F → Ordering
  by_coverage =
      lex (λ a b. f.compare_float a.coverage_percent b.coverage_percent)
        (λ a b. text_compare a.path b.path)

  sum_of : (PkgCoverage → ℤ) → Map Text PkgCoverage → ℤ → ℤ
  unfolding ◌+ℤ◌ wrap64
  sum_of g [] acc = acc
  sum_of g ((path, c) ∷ rest) acc = sum_of g rest (wrap64 (acc +ℤ g c))

  -- `buildReport`
  unfoldable pub build_report : Map Text PkgCoverage → Report f.F
  unfolding entry_of by_coverage sum_of
  build_report pkgs =
      let entries = map entry_of pkgs in
      record {
        threshold_percent = threshold;
        overall_percent =
            percent_of (sum_of (λ c. c.covered) pkgs (pos 0)) (sum_of (λ c. c.total) pkgs (pos 0));
        package_count = length entries;
        below_threshold_count = count (λ e. e.below_threshold) entries;
        allowlisted_count = length allowlist;
        packages = sort by_coverage entries;
      }
