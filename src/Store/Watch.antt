-- ===== src/Store/Watch.antt =====
-- internal/store/sqlite/watch.go: one poll of the services of a project, which turns what has changed since
-- the last poll into events. The channel is the list of what is sent; a cancelled poll is not modelled.
pub mod Exact
use proxa.Prelude.{
  ◌≡◌, refl, sym, ap, ◌∙◌, arith, inl, inr, List, [], ◌∷◌, ◌++◌, Option, none, some, if◌then◌else◌,
  filter, Bool-cases, filter-append,
}
use mathlib.Core.List.{append-nil}
use proxa.Prelude.Text.{Text, text_eq, text_eq_iff}
use proxa.Prelude.Maps.{Map, lookup, put, text-Eq}
use proxa.Prelude.Maps.Keys.{IsDistinct, put-IsDistinct}
use proxa.Types.{Service}
use proxa.Store.{Result, ok, err, Codec, Key, Row, Tables, get_service, in_project}

pub data EventType : Type 0 where
  created updated deleted : EventType

pub record ServiceEvent : Type 0 where
  pub type : EventType
  pub project : Text
  pub name : Text
  pub service : Option Service

-- `current`: when each service of the project was last written.
current_rows : List (Key × Row) → Map Text Text → Map Text Text
current_rows [] m = m
current_rows ((k, row) ∷ rest) m = current_rows rest (put k.name row.updated_at m)

module _ (project : Text) where
  -- A service that cannot be read sends nothing.
  sent : Text → EventType → Result Service → List ServiceEvent
  sent n type (ok svc) =
      record { type = type; project = project; name = n; service = some svc } ∷ []
  sent n type (err e) = []

  -- "Detect created or updated", for one name.
  told : Text → (now : Text) → (known : Option Text) → Result Service → List ServiceEvent
  unfolding sent
  told n now none got = sent n created got
  told n now (some prev) got = if text_eq prev now then [] else sent n updated got

  told_gone : Text → (current : Option Text) → List ServiceEvent
  told_gone n none = record { type = deleted; project = project; name = n; service = none } ∷ []
  told_gone n (some now) = []

  detect : (Text → Result Service) → (known rest : Map Text Text) → List ServiceEvent
  unfolding told
  detect get known [] = []
  detect get known ((n, now) ∷ rest) = told n now (lookup n known) (get n) ++ detect get known rest

  -- "Detect deleted."
  detect_gone : (current rest : Map Text Text) → List ServiceEvent
  unfolding told_gone
  detect_gone current [] = []
  detect_gone current ((n, prev) ∷ rest) =
      told_gone n (lookup n current) ++ detect_gone current rest

  -- `scanWatch`: the events, and the names known from now on.
  unfoldable pub scan_watch :
      Codec → Tables → (known : Map Text Text) → List ServiceEvent × Map Text Text
  unfolding current_rows detect detect_gone
  scan_watch codec t known =
      let current = current_rows (filter (in_project project) t.services) [] in
      (
        detect (λ n. get_service codec project n t) known current ++ detect_gone current known,
        current,
      )
