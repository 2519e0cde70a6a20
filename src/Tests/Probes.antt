-- ===== src/Tests/Probes.antt =====
-- Examples of the probe history and of the manager.
use proxa.Prelude.{◌≡◌, ◌≤◌, min, refl, List, [], ◌∷◌, true, false, some, length}
use proxa.Prelude.Text.{codes, text_eq}
use proxa.Prelude.Maps.{lookup, put, text-Eq}
use proxa.Probe.{Manager, Entry, Result, history_cap, streak, track, snapshot, hash_spec}
use proxa.Probe.History.{streak-append_all, append_all, run_of_failures}
use proxa.Probe.Sound.{ManagerIsSound}
use proxa.Probe.Track.{Reach, start, next, tracked, Reach-IsSound}
use proxa.Tests.Fixtures.{plain_format, web_task, failure, success}

abbrev results : List Result
results = success 1 ∷ failure 2 ∷ failure 3 ∷ []

streak-append_all_example :
    (streak (append_all [] results) ≡ min history_cap (run_of_failures 0 results))
    × (length (append_all [] results) ≤ history_cap)
streak-append_all_example = streak-append_all results

abbrev fresh : Entry
fresh = record {
  snapshot = record {
    container_id = codes "c1";
    health_ok = false;
    last_probe_at = 0;
    last_err = [];
    streak = 0;
  };
  history = [];
  probing = true;
  spec_hash = hash_spec plain_format web_task;
}

abbrev one_tracked : Manager
one_tracked = record { entries = (codes "c1", fresh) ∷ [] }

tracks : track plain_format (codes "c1") web_task (record { entries = [] }) ≡ some one_tracked
unfolding track lookup put
tracks = refl

reached : Reach plain_format one_tracked
reached = next start (tracked (codes "c1") web_task tracks)

Reach-IsSound_example : ManagerIsSound one_tracked
Reach-IsSound_example = Reach-IsSound plain_format reached

found : lookup (codes "c1") one_tracked.entries ≡ some fresh
unfolding lookup text_eq
found = refl

in_snapshot : snapshot one_tracked (codes "c1") ≡ some fresh.snapshot
unfolding snapshot lookup text_eq
in_snapshot = refl
