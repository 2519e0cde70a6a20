-- ===== src/CoverageGate/Summary.antt =====
-- The report counts and lists what the profile holds.
use mathlib.Core.List.Memᴰ
use proxa.Prelude.{◌≡◌, ◌↔◌, refl, sym, Bool, List, [], ◌∷◌, count, map, Memᴰ}
use proxa.Prelude.Text.{Text, text_compare, text_compare-IsOrder}
use proxa.Prelude.Maps.{Map}
use proxa.Prelude.Sort.{IsSorted, IsOrder, lex-IsOrder, comap-IsOrder}
use proxa.Prelude.Sort.Laws.{mem-sort, mem_of_sort, sort-IsSorted, count-sort}
use proxa.CoverageGate.{Float, PkgCoverage, ReportEntry, entry_of, by_coverage, build_report}

mem_of_map :
    {A B : Type 0} (g : A → B) (l : List A) (b : B)
    → Memᴰ b (map g l)
    → (a : A) × Memᴰ a l × (b ≡ g a)
mem_of_map g [] b m = elim m [ ]
mem_of_map g (x ∷ l) b (Memᴰ.head e) = (x, Memᴰ.head refl, e)
mem_of_map g (x ∷ l) b (Memᴰ.tail m) = let (a, k, e) = mem_of_map g l b m in (a, Memᴰ.tail k, e)

-- The report lists one entry for each package of the profile and no other, by coverage and then by path,
-- where the comparison of numbers is an order; and it counts as below the threshold the entries that it
-- marks.
pub build_report-lists :
    (f : Float) (threshold : f.F) (allowlist : Map Text Bool) (pkgs : Map Text PkgCoverage)
    → IsOrder f.compare_float
    → IsSorted
        (by_coverage f threshold allowlist)
        (build_report f threshold allowlist pkgs).packages
      × ((e : ReportEntry f.F)
          → Memᴰ e (build_report f threshold allowlist pkgs).packages
            ↔ ((p : Text × PkgCoverage) × Memᴰ p pkgs × (e ≡ entry_of f threshold allowlist p)))
      × ((build_report f threshold allowlist pkgs).below_threshold_count
          ≡ count (λ e. e.below_threshold) (build_report f threshold allowlist pkgs).packages)
unfolding build_report
build_report-lists f threshold allowlist pkgs h =
    let cmp = by_coverage f threshold allowlist in
    let entries = map (entry_of f threshold allowlist) pkgs in
    (
      sort-IsSorted cmp (by_coverage-IsOrder f threshold allowlist h) entries,
      (λ e. (
        (λ m. mem_of_map (entry_of f threshold allowlist) pkgs e (mem_of_sort cmp e entries m)),
        λ t. mem-sort cmp e entries (rw t.2 (Memᴰ.map (entry_of f threshold allowlist) t.1)),
      )),
      sym (count-sort cmp (λ e. e.below_threshold) entries),
    )
  where
    by_coverage-IsOrder :
        (f : Float) (threshold : f.F) (allowlist : Map Text Bool)
        → IsOrder f.compare_float
        → IsOrder (by_coverage f threshold allowlist)
    by_coverage-IsOrder f threshold allowlist h =
        unfold by_coverage in
        lex-IsOrder (λ a b. f.compare_float a.coverage_percent b.coverage_percent)
          (λ a b. text_compare a.path b.path)
          (comap-IsOrder (λ (e : ReportEntry f.F). e.coverage_percent) f.compare_float h)
          (comap-IsOrder (λ (e : ReportEntry f.F). e.path) text_compare text_compare-IsOrder)
