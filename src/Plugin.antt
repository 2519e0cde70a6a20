-- ===== src/Plugin.antt =====
-- internal/plugin/hook.go: the registry that hands events to hooks. What is done under the lock, one send on a
-- channel, and one call of a hook are each a step; whether a hook fails or panics is only logged.
pub mod Accounted
mod Counts
mod Sound
use proxa.Prelude.{
  ℕ, zero, suc, Bool, true, false, not, ◌&&◌, List, [], ◌∷◌, ◌++◌, Option, none, some,
  if◌then◌else◌, length, ltb, is_nil, any, map, filter,
}
use proxa.Prelude.Text.{Text, text_eq}
use proxa.Events.{Event}

-- `hookSub`: the events that wait in its channel, oldest first; those that its hook was called with; those that
-- were dropped for it, newest first; and whether its channel is closed.
pub record HookSub : Type 0 where
  pub name : Text
  pub queue : List Event
  pub received : List Event
  pub dropped : List Event
  pub is_shut : Bool

-- A call of `Publish`: the hooks that it copied, those that it has yet to send to, and whether it panicked.
pub record Publication : Type 0 where
  pub event : Event
  pub copied : List Text
  pub rest : List Text
  pub panicked : Bool

-- `registry`: `hooks` has the names in the map, whose entries point into `subs`, the hooks that were ever
-- registered; `closing` are those whose channel `Close` has yet to close; `publications` are the calls of
-- `Publish`, the newest first.
pub record Registry : Type 0 where
  pub subs : List HookSub
  pub hooks : List Text
  pub closed : Bool
  pub closing : List Text
  pub publications : List Publication

abbrev pub new_registry : Registry
new_registry = record { subs = []; hooks = []; closed = false; closing = []; publications = [] }

pub data RegisterResult : Type 0 where
  registered registry_closed already_registered : RegisterResult

abbrev pub fresh_sub : Text → HookSub
fresh_sub name = record { name = name; queue = []; received = []; dropped = []; is_shut = false }

-- `Register`
unfoldable pub register : Text → Registry → RegisterResult × Registry
register name r =
    if r.closed
    then (registry_closed, r)
    else if any (text_eq name) r.hooks
    then (already_registered, r)
    else (registered, record r { subs = fresh_sub name ∷ r.subs; hooks = name ∷ r.hooks })

abbrev pub queue_size : ℕ
queue_size = 64

-- A full channel drops the event.
unfoldable pub offer : Event → HookSub → HookSub
offer e s =
    if ltb (length s.queue) queue_size
    then record s { queue = s.queue ++ e ∷ [] }
    else record s { dropped = e ∷ s.dropped }

-- `Publish` up to the release of its lock.
unfoldable pub publish : Event → Registry → Registry
publish e r = record r {
  publications =
      record { event = e; copied = r.hooks; rest = r.hooks; panicked = false } ∷ r.publications;
}

-- The event of a publication, where it has yet to send it to a hook.
unfoldable pub due : (k : ℕ) → (name : Text) → List Publication → Option Event
due k name [] = none
due zero name (b ∷ bs) = if not b.panicked && any (text_eq name) b.rest then some b.event else none
due (suc k) name (b ∷ bs) = due k name bs

unfoldable pub sent_at : (k : ℕ) → (name : Text) → List Publication → List Publication
sent_at k name [] = []
sent_at zero name (b ∷ bs) = record b { rest = filter (λ m. not (text_eq name m)) b.rest } ∷ bs
sent_at (suc k) name (b ∷ bs) = b ∷ sent_at k name bs

unfoldable pub panic_at : ℕ → List Publication → List Publication
panic_at k [] = []
panic_at zero (b ∷ bs) = record b { panicked = true } ∷ bs
panic_at (suc k) (b ∷ bs) = b ∷ panic_at k bs

unfoldable pub send_due : (k : ℕ) → (name : Text) → Registry → Option Event → Registry
unfolding offer sent_at panic_at
send_due k name r none = r
send_due k name r (some e) =
    if any (λ (s : HookSub). text_eq s.name name && s.is_shut) r.subs
    then record r { publications = panic_at k r.publications }
    else record r {
      subs = map (λ (s : HookSub). if text_eq s.name name then offer e s else s) r.subs;
      publications = sent_at k name r.publications;
    }

-- One round of the loop of `Publish`, of the k-th newest call. The loop takes the hooks in any order, as the
-- map does. A send on a closed channel panics.
unfoldable pub send : (k : ℕ) → (name : Text) → Registry → Registry
unfolding send_due due
send k name r = send_due k name r (due k name r.publications)

unfoldable pub take_oldest : HookSub → List Event → HookSub
take_oldest s [] = s
take_oldest s (e ∷ rest) = record s { queue = rest; received = s.received ++ e ∷ [] }

-- One round of the goroutine `deliver` of the hook with a name.
unfoldable pub deliver : Text → Registry → Registry
unfolding take_oldest
deliver name r = record r {
  subs = map (λ (s : HookSub). if text_eq s.name name then take_oldest s s.queue else s) r.subs;
}

-- `Close` up to the release of its lock.
unfoldable pub close : Registry → Registry
close r = if r.closed then r else record r { hooks = []; closed = true; closing = r.hooks }

-- One round of the loop of `Close`, which begins when the hook of the round before has ended: no event waits in
-- a closed channel.
unfoldable pub shut : (name : Text) → Registry → Registry
shut name r =
    if any (text_eq name) r.closing
      && not (any (λ (s : HookSub). s.is_shut && not (is_nil s.queue)) r.subs)
    then record r {
      subs =
          map (λ (s : HookSub). if text_eq s.name name then record s { is_shut = true } else s)
            r.subs;
      closing = filter (λ m. not (text_eq name m)) r.closing;
    }
    else r

pub data Step : Type 0 where
  register_step : (name : Text) → Step
  publish_step : Event → Step
  send_step : (k : ℕ) → (name : Text) → Step
  deliver_step : (name : Text) → Step
  close_step : Step
  shut_step : (name : Text) → Step

unfoldable pub run_step : Step → Registry → Registry
unfolding register publish send deliver close shut
run_step (register_step name) r = (register name r).1
run_step (publish_step e) r = publish e r
run_step (send_step k name) r = send k name r
run_step (deliver_step name) r = deliver name r
run_step close_step r = close r
run_step (shut_step name) r = shut name r

-- Any interleaving of the callers and of the goroutines.
unfoldable pub run_steps : List Step → Registry → Registry
unfolding run_step
run_steps [] r = r
run_steps (s ∷ rest) r = run_steps rest (run_step s r)
