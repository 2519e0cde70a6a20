-- ===== src/Tests/Files.antt =====
-- Examples of versions, event streams, waiting, the copy of the data directory, plugins and `proxa logs`.
use proxa.Prelude.{
  ℕ, zero, suc, ◌*◌, ◌≡◌, refl, Bool, true, false, List, [], ◌∷◌, ◌++◌, Option, none, some, arith,
}
use proxa.Prelude.Int.{ℤ, pos, negsuc}
use proxa.Prelude.Text.{read_digits, Text, codes, text_eq}
use proxa.Prelude.Maps.{text-Eq}
use proxa.Parser.Version.{semver_compare, split_dots, strip_prerelease}
use proxa.Parser.Version.Compared.{
  Components, no_more, one_more, compare_padded, semver_compare-padded,
}
use proxa.Probe.{Manager, Snapshot, Entry}
use proxa.Reconciler.Strategy.Waiting.{
  Rounds, wait_for_first_healthy, rounds_for, Means, wait_for_first_healthy-returns,
}
use proxa.Events.{Event}
use proxa.Plugin.{
  Step, register_step, publish_step, send_step, deliver_step, close_step, shut_step, run_steps,
  new_registry,
}
use proxa.Plugin.Accounted.{AllHandled, run_steps-AllHandled}
use proxa.Server.Logs.{parse_tail, parse_replica, parse_since}
use proxa.Cli.Logs.{LogsFlags, Clock, checked_flags, parse_since_flag, logs_query}
use proxa.Cli.Logs.Asked.{get_query, logs_query-read}
use proxa.DataDir.{SnapshotAnswers, FileCall, rename, missing, snapshot}
use proxa.DataDir.Atomic.{Atomic}
use proxa.Server.Sse.{write_sse_event}
use proxa.Server.Sse.Reader.{read_event}
use proxa.Server.Sse.RoundTrip.{read_event-write_sse_event}

-- Versions.
new_parts : Components (split_dots (strip_prerelease (codes "0.10-rc1"))) (0 ∷ 10 ∷ [])
unfolding split_dots strip_prerelease read_digits
new_parts = one_more refl refl (omega arith) (one_more refl refl (omega arith) no_more)

old_parts : Components (split_dots (strip_prerelease (codes "0.9.3"))) (0 ∷ 9 ∷ 3 ∷ [])
unfolding split_dots strip_prerelease read_digits
old_parts =
    one_more refl refl (omega arith)
      (one_more refl refl (omega arith) (one_more refl refl (omega arith) no_more))

semver_compare-padded_example :
    semver_compare (codes "0.10-rc1") (codes "0.9.3")
    ≡ some (compare_padded (0 ∷ 10 ∷ []) (0 ∷ 9 ∷ 3 ∷ []))
semver_compare-padded_example =
    semver_compare-padded (codes "0.10-rc1") (codes "0.9.3") new_parts old_parts

-- A payload of two lines.
abbrev two_lines : Text
two_lines = codes "a" ++ b'\n' ∷ codes "b"

read_event-write_sse_event_example :
    read_event (write_sse_event (codes "meta") two_lines) ≡ (codes "meta" ∷ [], two_lines)
read_event-write_sse_event_example =
    read_event-write_sse_event (codes "meta") two_lines refl refl refl

-- A container that is healthy from the second round on.
abbrev rounds : Rounds
rounds = record { clock = λ k. k * 200000000; done = λ k. false }

abbrev starting : Snapshot
starting = record {
  container_id = codes "c1";
  health_ok = false;
  last_probe_at = 0;
  last_err = [];
  streak = 0;
}

abbrev entry_of : Snapshot → Entry
entry_of s = record { snapshot = s; history = []; probing = true; spec_hash = [] }

abbrev managers : ℕ → Manager
managers zero = record { entries = (codes "c1", entry_of starting) ∷ [] }
managers (suc k) = record {
  entries = (codes "c1", entry_of (record starting { health_ok = true })) ∷ [];
}

wait_for_first_healthy-returns_example :
    (b : Bool) × (wait_for_first_healthy rounds managers
        (codes "c1")
        0
        10000000000
        (rounds_for 10000000000)
      ≡ some b)
    × Means rounds managers (codes "c1") 10000000000 b
wait_for_first_healthy-returns_example =
    wait_for_first_healthy-returns rounds managers (codes "c1") 0 10000000000 (λ k. omega arith)

abbrev moves_nothing : FileCall → Bool
moves_nothing (rename old new) = false
moves_nothing _ = true

-- A file system on which the copy cannot be moved to its place.
abbrev other_mount : SnapshotAnswers
other_mount = record {
  stat = λ p. missing;
  dir = λ p. codes "/b";
  suffix = some (codes "2f");
  succeeds = moves_nothing;
}

-- Two publications that overlap: the second is sent first. The first is sent when the registry is closed.
abbrev event : Text → Event
event type = record { id = 0; at = none; type = type; actor = []; target = []; payload = [] }

abbrev hook_name : Text
hook_name = codes "webhook"

abbrev steps : List Step
steps =
    publish_step (event (codes "early"))
    ∷ register_step hook_name
    ∷ publish_step (event (codes "first"))
    ∷ publish_step (event (codes "second"))
    ∷ send_step 0 hook_name
    ∷ deliver_step hook_name
    ∷ close_step
    ∷ shut_step hook_name
    ∷ send_step 1 hook_name
    ∷ []

run_steps-AllHandled_example :
    AllHandled
      (λ e. true)
      steps
      (run_steps steps new_registry).publications
      (run_steps steps new_registry).subs
run_steps-AllHandled_example = run_steps-AllHandled (λ e. true) steps

-- `proxa logs -f -n 20 --since 5m --replica 3`, with texts for times that are their numbers.
abbrev flags : LogsFlags
flags = record {
  follow = true;
  tail = pos 20;
  since_raw = codes "5m";
  replica = pos 3;
  project = codes "shop";
}

abbrev from_text : Text → Option ℤ
from_text [] = none
from_text (zero ∷ n ∷ []) = some (pos n)
from_text (suc k ∷ n ∷ []) = some (negsuc n)
from_text (c ∷ s) = none

abbrev to_text : ℤ → Text
to_text (pos n) = 0 ∷ n ∷ []
to_text (negsuc n) = 1 ∷ n ∷ []

from_text-to_text : (t : ℤ) → from_text (to_text t) ≡ some t
from_text-to_text (pos n) = refl
from_text-to_text (negsuc n) = refl

abbrev clock : Clock
clock = record {
  parse_duration = λ raw. some (pos 300);
  ago = λ d. pos 7000;
  format_time = to_text;
}

flags_checked : checked_flags clock flags ≡ some (some (pos 7000))
unfolding checked_flags parse_since_flag
flags_checked = refl

logs_query-read_example :
    let q = logs_query clock flags (some (pos 7000)) in
    (parse_tail (get_query (codes "tail") q) ≡ some (pos 20))
    × (parse_replica (get_query (codes "replica") q) ≡ some (pos 3))
    × (parse_since from_text (get_query (codes "since") q) ≡ some (some (pos 7000)))
    × (text_eq (get_query (codes "follow") q) (codes "true") ≡ true)
logs_query-read_example =
    logs_query-read clock from_text flags (some (pos 7000)) flags_checked (omega arith)
      (omega arith) refl from_text-to_text
