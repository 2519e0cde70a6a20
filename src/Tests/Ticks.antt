-- ===== src/Tests/Ticks.antt =====
-- Examples of the parts of a tick that use the probe manager.
use proxa.Prelude.{◌≡◌, refl, [], ◌∷◌, true, false, some, any, Memᴰ, arith}
use proxa.Prelude.Int.{pos}
use proxa.Prelude.Text.{codes, text_eq}
use proxa.Prelude.Maps.{lookup, put, text-Eq}
use proxa.Types.{Service, ContainerInfo}
use proxa.Probe.{Manager, Entry, track, hash_spec}
use proxa.Probe.Track.{Reach, start, next, tracked}
use proxa.Reconciler.Tick.Unhealthy.{AllRetriesAbove}
use proxa.Tests.Fixtures.{plain_format, web, web_task, replica}

abbrev nobody : Manager
nobody = record { entries = [] }

abbrev fresh : Entry
fresh = record {
  snapshot = record {
    container_id = codes "c9";
    health_ok = false;
    last_probe_at = 0;
    last_err = [];
    streak = 0;
  };
  history = [];
  probing = true;
  spec_hash = hash_spec plain_format web_task;
}

-- `c9` is tracked.
abbrev watching : Manager
watching = record { entries = (codes "c9", fresh) ∷ [] }

watching_tracks : track plain_format (codes "c9") web_task nobody ≡ some watching
unfolding track lookup put
watching_tracks = refl

watching_reached : Reach plain_format watching
watching_reached = next start (tracked (codes "c9") web_task watching_tracks)

-- A service that would tolerate forty failures.
abbrev patient : Service
patient = record web {
  spec = record web_task { health = record web_task.health { retries = pos 40 } };
}

abbrev running : ContainerInfo
running = replica (codes "c1") (codes "running") (pos 0) []

patient_above : AllRetriesAbove (patient ∷ [])
patient_above svc (Memᴰ.head e) = rw e (omega arith)
patient_above svc (Memᴰ.tail t) = elim t [ ]

-- The runtime lists `c1` only; `c9` is gone.
only_c1 : any (λ (c : ContainerInfo). text_eq c.id (codes "c9")) (running ∷ []) ≡ false
unfolding text_eq
only_c1 = refl
