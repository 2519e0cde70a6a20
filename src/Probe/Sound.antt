-- ===== src/Probe/Sound.antt =====
-- What holds of every entry of a probe manager, and that the operations keep it.
use mathlib.Core.Option.{some_inj}
use proxa.Prelude.{
  ◌≤◌, ◌≡◌, inl, inr, sym, ◌∙◌, refl, Bool, true, false, Option, none, some, length, arith, is_nil,
  Bool-cases,
}
use proxa.Prelude.Text.{Text, text_eq, text_eq_iff}
use proxa.Prelude.Maps.{lookup, put, lookup-put, lookup-remove, text-Eq}
use proxa.Types.{TaskDef}
use proxa.Probe.{
  Result, history_cap, streak, Entry, Manager, Format, hash_spec, track, untrack, record_result,
  fresh_entry, replace, record_entry, record_probed, record_found,
}
use proxa.Probe.History.{streak-append, append-bound}

pub record EntryIsSound (id : Text) (e : Entry) : Type 0 where
  pub bounded : length e.history ≤ history_cap
  pub counted : e.snapshot.streak ≡ streak e.history
  pub healthy_streak : e.snapshot.health_ok ≡ true → e.snapshot.streak ≡ 0
  pub trusted : e.probing ≡ false → e.snapshot.health_ok ≡ true
  pub named : e.snapshot.container_id ≡ id

abbrev pub ManagerIsSound : Manager → Type 0
ManagerIsSound m = (id : Text) (e : Entry) → lookup id m.entries ≡ some e → EntryIsSound id e

fresh_entry-IsSound :
    (f : Format) (id : Text) (spec : TaskDef) → EntryIsSound id (fresh_entry f id spec)
unfolding fresh_entry streak
fresh_entry-IsSound f id spec = ground arith

record_entry-IsSound :
    (id : Text) (e : Entry) (r : Result)
    → e.probing ≡ true
    → EntryIsSound id e
    → EntryIsSound id (record_entry id e r).0
unfolding record_entry
record_entry-IsSound id e r p h =
    ground (arith, streak-append e.history r h.bounded, append-bound e.history r h.bounded)

put-IsSound :
    (id : Text) (e : Entry) (m : Manager)
    → EntryIsSound id e
    → ManagerIsSound m
    → ManagerIsSound (record m { entries = put id e m.entries })
put-IsSound id e m he hm j x p = elim (Bool-cases (text_eq id j)) [
  | inl same ↦
      let here : e ≡ x = some_inj.0 (sym (rw same at (lookup-put id j e m.entries)) ∙ p) in
      rw (← here) (rw (← (text_eq_iff id j).0 same) he)
  | inr other ↦ hm j x (sym (rw other at (lookup-put id j e m.entries)) ∙ p)
]

pub untrack-IsSound : (id : Text) (m : Manager) → ManagerIsSound m → ManagerIsSound (untrack id m)
unfolding untrack
untrack-IsSound id m hm j x p = elim (Bool-cases (text_eq id j)) [
  | inl gone ↦ cc (rw gone at (lookup-remove id j m.entries))
  | inr kept ↦ hm j x (sym (rw kept at (lookup-remove id j m.entries)) ∙ p)
]

pub track-IsSound :
    (f : Format) (id : Text) (spec : TaskDef) (m m' : Manager)
    → track f id spec m ≡ some m'
    → ManagerIsSound m
    → ManagerIsSound m'
unfolding track replace untrack
track-IsSound f id spec m m' t hm = elim (Bool-cases (is_nil id)) [
  | inl none_id ↦ cc (rw none_id at t)
  | inr named ↦ rw (← some_inj.0 (rw named at t)) (stored (lookup id m.entries))
]
  where
    stored : (o : Option Entry) → ManagerIsSound (replace f id spec m o)
    stored none = put-IsSound id (fresh_entry f id spec) m (fresh_entry-IsSound f id spec) hm
    stored (some cur) = elim (Bool-cases (text_eq cur.spec_hash (hash_spec f spec))) [
      | inl same ↦ rw same hm
      | inr drift ↦ rw drift (
          put-IsSound id (fresh_entry f id spec) (untrack id m) (fresh_entry-IsSound f id spec)
            (untrack-IsSound id m hm))
    ]

record_probed-IsSound :
    (b : Bool) (id : Text) (r : Result) (m : Manager) (e : Entry)
    → e.probing ≡ b
    → EntryIsSound id e
    → ManagerIsSound m
    → ManagerIsSound (record_probed b id r m e).0
unfolding record_probed
record_probed-IsSound true id r m e on he hm =
    put-IsSound id (record_entry id e r).0 m (record_entry-IsSound id e r on he) hm
record_probed-IsSound false id r m e off he hm = hm

record_found-IsSound :
    (id : Text) (r : Result) (m : Manager) (o : Option Entry)
    → lookup id m.entries ≡ o
    → ManagerIsSound m
    → ManagerIsSound (record_found id r m o).0
unfolding record_found
record_found-IsSound id r m none at hm = hm
record_found-IsSound id r m (some e) at hm =
    record_probed-IsSound e.probing id r m e refl (hm id e at) hm

pub record_result-IsSound :
    (id : Text) (r : Result) (m : Manager)
    → ManagerIsSound m
    → ManagerIsSound (record_result id r m).0
unfolding record_result
record_result-IsSound id r m hm = record_found-IsSound id r m (lookup id m.entries) refl hm
