-- ===== src/Events.antt =====
-- internal/events: the table of events (store.go), the bus of subscribers (bus.go) and the texts of
-- event.go. Times are in milliseconds; `none` is the zero time.
pub mod Tail
pub mod Bus
use proxa.Prelude.{
  ℕ, suc, ◌+◌, Bool, true, ◌&&◌, List, [], ◌∷◌, ◌++◌, Option, none, some, if◌then◌else◌, is_nil,
  filter, map, take, Ordering,
}
use mathlib.Core.Option
use proxa.Prelude.Int.{ℤ, pos, negsuc, leb_ℤ, compare_ℤ, pos_part}
use proxa.Prelude.Text.{Text, codes, text_eq}
use proxa.Prelude.Sort.{sort, lex}

-- `Event`
pub record Event : Type 0 where
  pub id : ℕ
  pub at : Option ℤ
  pub type : Text
  pub actor : Text
  pub target : Text
  pub payload : Text

-- A row of `events`, whose ids are auto-incremented: `last_id` is the last that was given.
pub record Row : Type 0 where
  pub id : ℕ
  pub ts : ℤ
  pub type : Text
  pub actor : Text
  pub target : Text
  pub payload : Text

pub record Table : Type 0 where
  pub last_id : ℕ
  pub rows : List Row

pub data AppendError : Type 0 where
  empty_type empty_actor empty_target : AppendError

pub data Appended : Type 0 where
  refused : AppendError → Appended
  added : ℕ → Table → Appended

abbrev pub row_of : (now : ℤ) → ℕ → Event → Row
row_of now id e = record {
  id = id;
  ts = Option.get_or e.at now;
  type = e.type;
  actor = e.actor;
  target = e.target;
  payload = if is_nil e.payload then codes "{}" else e.payload;
}

-- `Store.Append`
unfoldable pub append : (now : ℤ) → Event → Table → Appended
append now e t =
    if is_nil e.type
    then refused empty_type
    else if is_nil e.actor
    then refused empty_actor
    else if is_nil e.target
    then refused empty_target
    else let id = suc t.last_id in
      added id (record { last_id = id; rows = row_of now id e ∷ t.rows })

-- `_, _ = Append(...)`: the table after an event that may have been refused.
unfoldable pub added_or : Table → Appended → Table
added_or t (refused e) = t
added_or t (added id u) = u

-- `TailFilter`; an empty target is every target.
pub record TailFilter : Type 0 where
  pub target : Text
  pub since : Option ℤ
  pub limit : ℤ

-- The limit of a query: 50 where the filter's is not from 1 to 1000.
unfoldable pub limit_of : TailFilter → ℕ
limit_of f =
    if leb_ℤ f.limit (pos 0) then 50 else if leb_ℤ f.limit (pos 1000) then pos_part f.limit else 50

abbrev not_before : Option ℤ → ℤ → Bool
not_before none ts = true
not_before (some since) ts = leb_ℤ since ts

-- The four `WHERE` clauses.
unfoldable pub matches : TailFilter → Row → Bool
matches f r =
    (if is_nil f.target then true else text_eq r.target f.target) && not_before f.since r.ts

-- `ORDER BY ts DESC, id DESC`
unfoldable pub newest_first : Row → Row → Ordering
newest_first = lex (λ a b. compare_ℤ b.ts a.ts) (λ a b. compare_ℤ (pos b.id) (pos a.id))

abbrev event_of : Row → Event
event_of r = record {
  id = r.id;
  at = some r.ts;
  type = r.type;
  actor = r.actor;
  target = r.target;
  payload = r.payload;
}

-- The rows of `Store.Tail`.
unfoldable pub tail_rows : TailFilter → Table → List Row
unfolding limit_of matches newest_first
tail_rows f t = take (limit_of f) (sort newest_first (filter (matches f) t.rows))

-- `Store.Tail`
unfoldable pub tail : TailFilter → Table → List Event
unfolding tail_rows
tail f t = map event_of (tail_rows f t)

-- `TargetService`
abbrev pub target_service : Text → Text → Text
target_service project name = codes "service:" ++ project ++ codes "/" ++ name

abbrev pub type_reconciler_create : Text
type_reconciler_create = codes "reconciler.create"

abbrev pub type_reconciler_remove : Text
type_reconciler_remove = codes "reconciler.remove"

abbrev pub type_reconciler_scale : Text
type_reconciler_scale = codes "reconciler.scale"

abbrev pub type_service_status_changed : Text
type_service_status_changed = codes "service.status_changed"

abbrev pub actor_reconciler : Text
actor_reconciler = codes "reconciler"

abbrev pub type_user_container_start : Text
type_user_container_start = codes "user.container.start"

abbrev pub type_user_container_stop : Text
type_user_container_stop = codes "user.container.stop"

abbrev pub type_user_container_restart : Text
type_user_container_restart = codes "user.container.restart"

abbrev pub type_user_container_remove : Text
type_user_container_remove = codes "user.container.remove"

-- `TargetContainer`
abbrev pub target_container : Text → Text
target_container id = codes "container:" ++ id
