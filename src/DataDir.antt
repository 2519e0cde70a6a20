-- ===== src/DataDir.antt =====
-- internal/datadir: the handle of the data directory (root.go) and its copy (snapshot.go). What the calls of the
-- packages os, fs, filepath and crypto/rand answer is given.
pub mod Atomic
use proxa.Prelude.{Bool, true, false, List, [], ◌∷◌, ◌++◌, Option, none, some, if◌then◌else◌}
use proxa.Prelude.Text.{Text, codes}

-- What `os.Stat` answers: a file, `os.ErrNotExist` or another error.
pub data StatResult : Type 0 where
  exists missing stat_failed : StatResult

-- The calls of package os that write: `MkdirAll`, `CopyFS` from the root, `Rename` and `RemoveAll`.
pub data FileCall : Type 0 where
  mkdir_all copy_fs remove_all : (path : Text) → FileCall
  rename : (old new : Text) → FileCall

-- `suffix` is the random text, `none` where the random source fails, and `dir` is `filepath.Dir`.
pub record SnapshotAnswers : Type 0 where
  pub stat : Text → StatResult
  pub dir : Text → Text
  pub suffix : Option Text
  pub succeeds : FileCall → Bool

pub data SnapshotError : Type 0 where
  closed dst_exists stat_error mkdir_error suffix_error copy_error rename_error : SnapshotError

module _ (a : SnapshotAnswers) where
  -- `dst + ".tmp." + suffix`
  abbrev pub temporary : (dst suffix : Text) → Text
  temporary dst suffix = dst ++ codes ".tmp." ++ suffix

  -- The calls that write, in their order, and the error.
  unfoldable pub renamed : (tmp dst : Text) → List FileCall × Option SnapshotError
  renamed tmp dst =
      if a.succeeds (rename tmp dst)
      then (rename tmp dst ∷ [], none)
      else (rename tmp dst ∷ remove_all tmp ∷ [], some rename_error)

  unfoldable pub copied : (tmp dst : Text) → List FileCall × Option SnapshotError
  unfolding renamed
  copied tmp dst =
      let rest = renamed tmp dst in
      if a.succeeds (copy_fs tmp)
      then (copy_fs tmp ∷ rest.0, rest.1)
      else (copy_fs tmp ∷ remove_all tmp ∷ [], some copy_error)

  unfoldable pub with_suffix : (dst : Text) → Option Text → List FileCall × Option SnapshotError
  unfolding copied
  with_suffix dst none = ([], some suffix_error)
  with_suffix dst (some suffix) = copied (temporary dst suffix) dst

  unfoldable pub made_parent :
      (dst : Text) → (suffix : Option Text) → List FileCall × Option SnapshotError
  unfolding with_suffix
  made_parent dst suffix =
      let parent = a.dir dst in
      let rest = with_suffix dst suffix in
      if a.succeeds (mkdir_all parent)
      then (mkdir_all parent ∷ rest.0, rest.1)
      else (mkdir_all parent ∷ [], some mkdir_error)

  unfoldable pub by_stat : (dst : Text) → StatResult → List FileCall × Option SnapshotError
  unfolding made_parent
  by_stat dst exists = ([], some dst_exists)
  by_stat dst stat_failed = ([], some stat_error)
  by_stat dst missing = made_parent dst a.suffix

  -- `Snapshot`
  unfoldable pub snapshot : (is_open : Bool) → (dst : Text) → List FileCall × Option SnapshotError
  unfolding by_stat
  snapshot is_open dst = if is_open then by_stat dst (a.stat dst) else ([], some closed)

-- The methods of `Root`: each of them refuses a closed root, and else is the same of `os.Root`.
unfoldable pub guarded {ℓ} : {A : Type ℓ} → (is_open : Bool) → (refused : A) → (done : A) → A
guarded is_open refused done = if is_open then done else refused

-- `Root.Close`: the first call closes, and every later one is refused.
unfoldable pub close_root : (is_open : Bool) → Bool × Bool
close_root is_open = if is_open then (true, false) else (false, false)
