-- ===== src/DataDir/Atomic.antt =====
-- Which calls of `Snapshot` write to its destination, and what they leave behind.
use proxa.Prelude.{
  ◌≡◌, Bool, true, false, not, ◌&&◌, List, [], ◌∷◌, Option, none, some, if◌then◌else◌, any, filter,
}
use proxa.Prelude.Text.{Text, text_eq}
use proxa.DataDir.{
  FileCall, mkdir_all, copy_fs, remove_all, rename, SnapshotAnswers, StatResult, missing,
  SnapshotError, temporary,
}

abbrev pub is_none {ℓ} : {A : Type ℓ} → Option A → Bool
is_none none = true
is_none (some e) = false

-- Whether a call makes something at a path.
abbrev pub makes : (path : Text) → FileCall → Bool
makes path (mkdir_all p) = text_eq p path
makes path (copy_fs p) = text_eq p path
makes path (remove_all p) = false
makes path (rename old new) = text_eq new path

module _ (a : SnapshotAnswers) where
  -- The paths that hold a copy, or a part of one, after the calls.
  unfoldable pub holding : List Text → List FileCall → List Text
  holding held [] = held
  holding held (mkdir_all p ∷ rest) = holding held rest
  holding held (copy_fs p ∷ rest) = holding (p ∷ held) rest
  holding held (remove_all p ∷ rest) =
      holding (if a.succeeds (remove_all p) then filter (λ q. not (text_eq q p)) held else held)
        rest
  holding held (rename old new ∷ rest) =
      holding
        (if a.succeeds (rename old new) then new ∷ filter (λ q. not (text_eq q old)) held else held)
        rest

  -- Every step of a copy succeeds.
  abbrev pub all_succeed : (dst : Text) → StatResult → Option Text → Bool
  all_succeed dst missing (some suffix) =
      a.succeeds (mkdir_all (a.dir dst))
      && a.succeeds (copy_fs (temporary a dst suffix))
      && a.succeeds (rename (temporary a dst suffix) dst)
  all_succeed dst _ _ = false

  abbrev pub Atomic :
      (dst : Text) → (succeeded : Bool) → List FileCall × Option SnapshotError → Type 0
  Atomic dst succeeded run =
      (is_none run.1 ≡ succeeded)
      × (any (makes dst) (filter a.succeeds run.0) ≡ succeeded)
      × (holding [] run.0 ≡ (if succeeded then dst ∷ [] else []))
