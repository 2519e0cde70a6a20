-- ===== src/Probe.antt =====
-- internal/probe: the ring buffer of results (result.go) and the manager of tracked containers
-- (manager.go). A goroutine of `probeLoop` is a flag of its entry; what it measures is an argument of
-- `record_result`. The text of an error stands for the error; times are numbers.
pub mod History
pub mod Track
pub mod Sound
pub mod Loop
use proxa.Prelude.{
  ℕ, ◌+◌, ◌-◌, Bool, true, false, not, ◌&&◌, List, [], ◌∷◌, ◌++◌, reverse, Option, none, some,
  length, take, drop, ltb, if◌then◌else◌, is_nil, map,
}
use proxa.Prelude.Int.{ℤ, pos, leb_ℤ, eqb_ℤ}
use mathlib.Core.Option
use proxa.Prelude.Text.{Text, codes, text_eq, show_ℤ}
use proxa.Prelude.Maps.{Map, lookup, put, remove, text-Eq}
use proxa.Types.{HealthCheck, PortSpec, TaskDef, Route}

pub record Result : Type 0 where
  pub at : ℕ
  pub healthy : Bool
  pub err : Option Text

-- `historyCap`
abbrev pub history_cap : ℕ
history_cap = 32

-- The entries of a `History`, oldest first.
abbrev pub History : Type 0
History = List Result

-- `History.Append`
unfoldable pub append : History → Result → History
append h r =
    let entries = h ++ r ∷ [] in
    if ltb history_cap (length entries)
    then drop (length entries - history_cap) entries
    else entries

-- `History.Latest`
unfoldable pub latest : History → Option Result
latest [] = none
latest (r ∷ []) = some r
latest (r ∷ s ∷ h) = latest (s ∷ h)

failures : List Result → ℕ
failures [] = 0
failures (r ∷ rest) = let n = failures rest in if r.healthy then 0 else n + 1

-- `History.Streak`: the loop runs from the last entry back to the first healthy one.
unfoldable pub streak : History → ℕ
unfolding failures
streak h = failures (reverse h)

err_text : Option Text → Text
err_text none = []
err_text (some e) = e

last_err_of : Option Result → Text
unfolding err_text
last_err_of none = []
last_err_of (some r) = if r.healthy then [] else err_text r.err

-- `History.LastErr`
unfoldable pub last_err : History → Text
unfolding latest last_err_of
last_err h = last_err_of (latest h)

pub record Snapshot : Type 0 where
  pub container_id : Text
  pub health_ok : Bool
  pub last_probe_at : ℕ
  pub last_err : Text
  pub streak : ℕ

-- `entry`; `probing` says that a goroutine was started for it (`cancel` and `done` are not nil).
pub record Entry : Type 0 where
  pub snapshot : Snapshot
  pub history : History
  pub probing : Bool
  pub spec_hash : Text

pub record Manager : Type 0 where
  pub entries : Map Text Entry

-- What `hashSpec` takes from the standard library: the hexadecimal SHA-256 of a text, and how `%s`
-- prints a `time.Duration`.
pub record Format : Type 0 where
  pub sum256 : Text → Text
  pub show_duration : ℤ → Text

join_spaces : List Text → Text
join_spaces [] = []
join_spaces (t ∷ []) = t
join_spaces (t ∷ u ∷ rest) = t ++ (b' ' ∷ join_spaces (u ∷ rest))

first_port : List PortSpec → Text
first_port [] = []
first_port (p ∷ rest) = codes "|e0=" ++ show_ℤ p.container

-- The text that `hashSpec` writes into the hash; `%v` of the command is `[a b]`.
unfoldable pub hash_input : Format → TaskDef → Text
unfolding join_spaces first_port
hash_input f spec =
    let h = spec.health in
    codes "p="
    ++ (h.path
        ++ (codes "|port="
            ++ (show_ℤ h.port
                ++ (codes "|cmd="
                    ++ ((b'[' ∷ join_spaces h.command ++ b']' ∷ [])
                        ++ (codes "|iv="
                            ++ (f.show_duration h.interval
                                ++ (codes "|to="
                                    ++ (f.show_duration h.timeout
                                        ++ (codes "|rt="
                                            ++ (show_ℤ h.retries
                                                ++ (codes "|exposeN="
                                                    ++ (show_ℤ (pos (length spec.expose))
                                                        ++ first_port spec.expose)))))))))))))

-- `hashSpec`
unfoldable pub hash_spec : Format → TaskDef → Text
unfolding hash_input
hash_spec f spec = f.sum256 (hash_input f spec)

-- `isEmptyHealth`
unfoldable pub is_empty_health : HealthCheck → Bool
is_empty_health h = is_nil h.path && is_nil h.command

-- The entry that `Track` stores: trusted as healthy where there is nothing to probe, else unhealthy
-- until the first result.
fresh_entry : Format → Text → TaskDef → Entry
unfolding is_empty_health
fresh_entry f id spec = record {
  snapshot = record {
    container_id = id;
    health_ok = is_empty_health spec.health;
    last_probe_at = 0;
    last_err = [];
    streak = 0;
  };
  history = [];
  probing = not (is_empty_health spec.health);
  spec_hash = hash_spec f spec;
}

replace : Format → Text → TaskDef → Manager → Option Entry → Manager
unfolding fresh_entry
replace f id spec m none = record m { entries = put id (fresh_entry f id spec) m.entries }
replace f id spec m (some cur) =
    if text_eq cur.spec_hash (hash_spec f spec)
    then m
    else record m { entries = put id (fresh_entry f id spec) (remove id m.entries) }

-- `Manager.Track`; `none` is the error for an empty ID.
unfoldable pub track : Format → Text → TaskDef → Manager → Option Manager
unfolding replace
track f id spec m = if is_nil id then none else some (replace f id spec m (lookup id m.entries))

-- `Manager.Untrack`
unfoldable pub untrack : Text → Manager → Manager
untrack id m = record m { entries = remove id m.entries }

-- `Manager.TrackedIDs`
unfoldable pub tracked_ids : Manager → List Text
tracked_ids m = map (λ (k, e). k) m.entries

-- `Manager.Snapshot`; every entry has one from the moment `Track` stores it.
unfoldable pub snapshot : Manager → Text → Option Snapshot
snapshot m id = Option.map (λ e. e.snapshot) (lookup id m.entries)

-- `probe.transition`, as `emitTransition` hands it to the sink.
pub record Transition : Type 0 where
  pub container : Text
  pub from_healthy : Bool
  pub to_healthy : Bool
  pub streak : ℕ

same : Bool → Bool → Bool
same true b = b
same false b = not b

-- `recordResult` on the entry of a goroutine, and the event that it emits.
pub record_entry : Text → Entry → Result → Entry × Option Transition
unfolding same
record_entry id e r =
    let h = append e.history r in
    let next : Snapshot = record {
      container_id = id;
      health_ok = r.healthy;
      last_probe_at = r.at;
      last_err = last_err h;
      streak = streak h;
    } in
    let e' = record e { history = h; snapshot = next } in
    if same e.snapshot.health_ok r.healthy then (e', none) else (
      e',
      some (record {
        container = take 12 id;
        from_healthy = e.snapshot.health_ok;
        to_healthy = r.healthy;
        streak = streak h;
      }),
    )

-- A result arrives only from a goroutine, so only at an entry that has one.
record_probed : Bool → Text → Result → Manager → Entry → Manager × Option Transition
record_probed false id r m e = (m, none)
record_probed true id r m e =
    let (e', t) = record_entry id e r in (record m { entries = put id e' m.entries }, t)

record_found : Text → Result → Manager → Option Entry → Manager × Option Transition
unfolding record_probed
record_found id r m none = (m, none)
record_found id r m (some e) = record_probed e.probing id r m e

-- `recordResult` in the manager: a result arrives only from the goroutine of a tracked entry.
unfoldable pub record_result : Text → Result → Manager → Manager × Option Transition
unfolding record_found
record_result id r m = record_found id r m (lookup id m.entries)
