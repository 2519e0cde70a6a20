-- ===== src/Probe/Track.antt =====
-- The manager as a state machine: what is true of every tracked entry, after any sequence of calls
-- of `Track` and `Untrack` and of results from the goroutines.
use mathlib.Core.Option
use mathlib.Core.Option.{some_inj, map-eq-some_iff}
use proxa.Prelude.{
  ◌+◌, ◌≤◌, min, ◌≡◌, ◌≢◌, inl, inr, ◌↔◌, ap, ◌∙◌, refl, true, false, [], Option, none, some, arith,
  if◌then◌else◌, is_nil, Bool-cases,
}
use proxa.Prelude.Text.{Text, text_eq, text_eq_iff, text_eq_refl}
use proxa.Prelude.Maps.{lookup, put, remove, lookup-put, lookup-remove, text-Eq}
use proxa.Types.{TaskDef}
use proxa.Probe.{
  Result, history_cap, Snapshot, Entry, Manager, Format, track, untrack, snapshot, record_result,
  fresh_entry, replace, record_entry, record_probed, record_found,
}
use proxa.Probe.History.{streak-append, streak-le-cap}
use proxa.Probe.Sound.{ManagerIsSound, record_result-IsSound, track-IsSound, untrack-IsSound}

-- One call of the manager, or one result of a goroutine.
pub data Step (f : Format) (m m' : Manager) : Type 0 where
  tracked : (id : Text) (spec : TaskDef) → track f id spec m ≡ some m' → Step f m m'
  untracked : (id : Text) → untrack id m ≡ m' → Step f m m'
  probed : (id : Text) (r : Result) → (record_result id r m).0 ≡ m' → Step f m m'

pub data Reach (f : Format) : Manager → Type 0 where
  start : Reach f (record { entries = [] })
  next : {m m' : Manager} → Reach f m → Step f m m' → Reach f m'

empty-IsSound : ManagerIsSound (record { entries = [] })
unfolding lookup
empty-IsSound j x p = cc

-- In every state that the manager can reach, every tracked container has at most 32 results in its
-- history, a snapshot under its own ID whose streak is that of the history, 0 while it is healthy, and
-- is healthy if it has no goroutine.
pub Reach-IsSound : (f : Format) {m : Manager} → Reach f m → ManagerIsSound m
Reach-IsSound f start = empty-IsSound
Reach-IsSound f (next r (tracked id spec e)) = track-IsSound f id spec _ _ e (Reach-IsSound f r)
Reach-IsSound f (next r (untracked id e)) = rw (← e) (untrack-IsSound id _ (Reach-IsSound f r))
Reach-IsSound f (next r (probed id x e)) =
    rw (← e) (record_result-IsSound id x _ (Reach-IsSound f r))

-- In no reachable state does a snapshot show a streak above 32.
pub streak_capped :
    (f : Format) {m : Manager} (id : Text) {s : Snapshot}
    → Reach f m
    → snapshot m id ≡ some s
    → s.streak ≤ history_cap
unfolding snapshot
streak_capped f {m} id {s} r e =
    let (entry, at, same) =
      (map-eq-some_iff (λ (e : Entry). e.snapshot) (lookup id m.entries)).0 e in
    let sound = Reach-IsSound f r id entry at in
    rw (← same) (rw sound.counted (streak-le-cap entry.history sound.bounded))

record_result-at :
    (id : Text) (e : Entry) (r : Result) (m : Manager)
    → lookup id m.entries ≡ some e
    → e.probing ≡ true
    → record_result id r m
      ≡ (record m { entries = put id (record_entry id e r).0 m.entries }, (record_entry id e r).1)
unfolding record_result record_found record_probed
record_result-at id e r m at on =
    ap (record_found id r m) at ∙ ap (λ b. record_probed b id r m e) on

snapshot-put_self :
    (id : Text) (e : Entry) (m : Manager)
    → snapshot (record m { entries = put id e m.entries }) id ≡ some e.snapshot
unfolding snapshot
snapshot-put_self id e m = rw (lookup-put id id e m.entries) (rw (text_eq_refl id))

snapshot-put_ne :
    (id j : Text) (e : Entry) (m : Manager)
    → j ≢ id
    → snapshot (record m { entries = put id e m.entries }) j ≡ snapshot m j
unfolding snapshot
snapshot-put_ne id j e m ne = ground (arith, lookup-put id j e m.entries, text_eq_iff id j)

-- In a reachable manager, a result of a probed container becomes the health of its snapshot, with a
-- streak of 0 if it is healthy and of one more failure, at most 32, if not; the snapshot of any
-- other container stays; and no transition is emitted exactly when the health stays as it was.
pub record_result-effect :
    (f : Format) {m : Manager} (id j : Text) (e : Entry) (r : Result)
    → Reach f m
    → lookup id m.entries ≡ some e
    → e.probing ≡ true
    → j ≢ id
    → let (m', t) = record_result id r m in
      (Option.map (λ (s : Snapshot). s.health_ok) (snapshot m' id) ≡ some r.healthy)
      × (Option.map (λ (s : Snapshot). s.streak) (snapshot m' id)
          ≡ some (if r.healthy then 0 else min history_cap (e.snapshot.streak + 1)))
      × (snapshot m' j ≡ snapshot m j)
      × ((t ≡ none) ↔ (e.snapshot.health_ok ≡ r.healthy))
record_result-effect f {m} id j e r reach at on ne =
    let sound = Reach-IsSound f reach id e at in
    rw (record_result-at id e r m at on) (
      rw (snapshot-put_self id (record_entry id e r).0 m) (unfold record_entry in ground arith),
      rw (snapshot-put_self id (record_entry id e r).0 m) (
          unfold record_entry in
          ground (arith, streak-append e.history r sound.bounded, sound.counted)),
      snapshot-put_ne id j (record_entry id e r).0 m ne,
      unfold record_entry in ((λ h. ground arith), (λ h. ground arith)),
    )

replace-other :
    (f : Format) (id j : Text) (spec : TaskDef) (m : Manager) (o : Option Entry)
    → text_eq id j ≡ false
    → lookup j (replace f id spec m o).entries ≡ lookup j m.entries
unfolding replace
replace-other f id j spec m none ne =
    ground (arith, ne, lookup-put id j (fresh_entry f id spec) m.entries)
replace-other f id j spec m (some cur) ne = ground (
  arith,
  ne,
  lookup-put id j (fresh_entry f id spec) (remove id m.entries),
  lookup-remove id j m.entries,
)

-- Tracking a container leaves the entries of the others.
pub track-other :
    (f : Format) (id j : Text) (spec : TaskDef) (m : Manager)
    → text_eq id j ≡ false
    → lookup j (Option.get_or (track f id spec m) m).entries ≡ lookup j m.entries
unfolding track
track-other f id j spec m ne = elim (Bool-cases (is_nil id)) [
  | inl e ↦ rw e refl
  | inr e ↦ rw e (replace-other f id j spec m (lookup id m.entries) ne)
]

pub untrack-other :
    (id j : Text) (m : Manager)
    → text_eq id j ≡ false
    → lookup j (untrack id m).entries ≡ lookup j m.entries
unfolding untrack
untrack-other id j m ne = rw (lookup-remove id j m.entries) (rw ne refl)
