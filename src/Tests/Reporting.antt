-- ===== src/Tests/Reporting.antt =====
-- Examples of events, backends, persisted status, the watch, the status page and the coverage report.
use mathlib.Core.Option
use proxa.Prelude.{
  ℕ, ◌≡◌, ◌⊎◌, refl, true, false, [], ◌∷◌, none, some, if◌then◌else◌, length, Memᴰ, Option, List,
}
use proxa.Prelude.Int.{◌≤ℤ◌, ℤ, pos, compare_ℤ}
use proxa.Prelude.Text.{Text, codes, text_eq, has_prefix, atoi}
use proxa.Prelude.Maps.{lookup, Map, put, text-Eq}
use proxa.Prelude.Sort.{is_gt}
use proxa.Types.{ContainerInfo}
use proxa.Events.{Row, Table, TailFilter, matches, newest_first, tail_rows}
use proxa.Events.Tail.{tail_rows-newest, asked_limit}
use proxa.Ingress.{Backend, service-Eq}
use proxa.Ingress.Pool.{pick}
use proxa.Probe.{Manager}
use proxa.CoverageGate.{Float, PkgCoverage, fields, parse_coverage, parsed}
use proxa.Tests.Fixtures.{web, plain, plain_format, replica}
use proxa.Tests.TaskCodec.{task_codec, task_codec-reads}
use proxa.Store.{Tables, ok, key_eq, key-Eq, row_of, put_service, get_service}
use proxa.Store.Access.{key_of}
use proxa.Store.Watch.{scan_watch}
use proxa.Store.Watch.Exact.{about, changes, written_at, scan_watch-exact}
use proxa.Prelude.Maps.Keys.{IsDistinct}
use proxa.Reconciler.Status.{aggregate}
use proxa.Reconciler.Cycle.{Setting, State, snapshots_of, persist_status}
use proxa.Reconciler.Cycle.Persisted.{persist_status-overwrites}

abbrev row : ℕ → ℤ → Row
row id ts = record {
  id = id;
  ts = ts;
  type = codes "system.boot";
  actor = codes "system";
  target = codes "node:1";
  payload = codes "{}";
}

abbrev log : Table
log = record { last_id = 2; rows = row 2 (pos 70) ∷ row 1 (pos 50) ∷ [] }

abbrev last_one : TailFilter
last_one = record { target = codes "node:1"; since = none; limit = pos 1 }

tail_rows-newest_example :
    (pos (length (tail_rows last_one log)) ≤ℤ asked_limit last_one)
    × (Memᴰ (row 1 (pos 50)) (tail_rows last_one log)
        → Memᴰ (row 1 (pos 50)) log.rows × (matches last_one (row 1 (pos 50)) ≡ true))
    × (Memᴰ (row 1 (pos 50)) log.rows
        → matches last_one (row 1 (pos 50)) ≡ true
        → Memᴰ (row 1 (pos 50)) (tail_rows last_one log)
          ⊎ ((pos (length (tail_rows last_one log)) ≡ asked_limit last_one)
              × ((y : Row)
                  → Memᴰ y (tail_rows last_one log)
                  → is_gt (newest_first y (row 1 (pos 50))) ≡ false)))
tail_rows-newest_example = tail_rows-newest last_one log (row 1 (pos 50))

abbrev no_probes : Manager
no_probes = record { entries = [] }

abbrev found : Text → Option Text
found id = some (codes "10.0.0.1")

abbrev c1 : Backend
c1 = record {
  container_id = codes "c1";
  ip_address = codes "10.0.0.1";
  port = pos 80;
  healthy = true;
}

picked : (pick (λ n. 0) (codes "random") (record { backends = c1 ∷ []; cursor = 0 })).0 ≡ some c1
unfolding pick text_eq Option.bind
picked = refl

abbrev pub setting : Setting
setting = record {
  codec = task_codec;
  encoding = plain;
  format = plain_format;
  quote = λ t. t;
  now = pos 90;
  stamp = codes "12:00";
  inspect = found;
}

abbrev tables : Tables
tables = record { projects = (codes "shop", codes "11:00") ∷ []; services = []; jobs = [] }

abbrev pub state : State
state = record { manager = no_probes; pools = []; tables = tables; events = log }

abbrev pub later_tables : Tables
later_tables = record tables {
  services =
      put (key_of (codes "shop") (codes "web"))
        (row_of task_codec plain (codes "12:00")
          (record web { status = aggregate (pos 2) (snapshots_of no_probes []) }))
        [];
}

was_put :
    put_service task_codec plain
      (codes "12:00")
      (codes "shop")
      (record web { status = aggregate (pos 2) (snapshots_of no_probes []) })
      tables
    ≡ ok later_tables
unfolding put_service lookup text_eq
was_put = refl

has_changed : text_eq (aggregate (pos 2) (snapshots_of no_probes [])) [] ≡ false
unfolding aggregate text_eq snapshots_of
has_changed = refl

persist_status-overwrites_example :
    get_service task_codec
      (codes "shop")
      (codes "web")
      (persist_status setting (codes "shop") web [] state).tables
    ≡ (if key_eq (key_of (codes "shop") (codes "web")) (key_of (codes "shop") (codes "web"))
        then ok (record web { status = aggregate (pos 2) (snapshots_of no_probes []) })
        else get_service task_codec (codes "shop") (codes "web") tables)
persist_status-overwrites_example =
    persist_status-overwrites setting (codes "shop") web [] state later_tables (codes "shop")
      (codes "web") (task_codec-reads web.spec) has_changed was_put

-- Percentages as whole numbers.
abbrev whole : Float
whole = record {
  F = ℤ;
  zero_float = pos 0;
  percent = λ covered total. covered;
  compare_float = compare_ℤ;
}

abbrev profile : Map Text PkgCoverage
profile =
    (codes "a/b", record { covered = pos 3; total = pos 9 })
    ∷ (codes "a/c", record { covered = pos 1; total = pos 1 })
    ∷ []

profile_read :
    parse_coverage (
      codes "mode: set"
      ∷ codes "a/b/x.go:1.2,3.4 3 1"
      ∷ []
      ∷ codes "a/b/y.go:1.2,3.4 6 0"
      ∷ codes "a/c/z.go:1.2,3.4 1 7"
      ∷ [])
    ≡ parsed profile
unfolding parse_coverage has_prefix fields atoi put text_eq lookup
profile_read = refl

abbrev serving : List ContainerInfo
serving =
    replica (codes "c1") (codes "running") (pos 0) []
    ∷ replica (codes "c2") (codes "running") (pos 1) []
    ∷ replica (codes "c3") (codes "exited") (pos 2) []
    ∷ []

abbrev seen : Map Text Text
seen = (codes "web", codes "11:00") ∷ (codes "old", codes "10:00") ∷ []

scan_watch-exact_example :
    (about (codes "shop") (codes "old") (scan_watch (codes "shop") task_codec later_tables seen).0
      ≡ changes
          (codes "shop")
          (codes "old")
          (some (codes "10:00"))
          (written_at (codes "shop") (codes "old") later_tables)
          (get_service task_codec (codes "shop") (codes "old") later_tables))
    × (lookup (codes "old") (scan_watch (codes "shop") task_codec later_tables seen).1
        ≡ written_at (codes "shop") (codes "old") later_tables)
    × IsDistinct (scan_watch (codes "shop") task_codec later_tables seen).1
unfolding lookup text_eq put
scan_watch-exact_example =
    scan_watch-exact (codes "shop") task_codec later_tables seen (codes "old") (refl, tt)
      (refl, (refl, tt))
