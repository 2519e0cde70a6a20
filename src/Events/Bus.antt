-- ===== src/Events/Bus.antt =====
-- internal/events/bus.go: subscribers with buffers of 64 events. A step is atomic.
use proxa.Prelude.{
  ℕ, ◌+◌, ◌≤◌, ◌≡◌, refl, List, [], ◌∷◌, ◌++◌, if◌then◌else◌, length, ltb, arith, length-append,
}
use proxa.Events.{Event}

abbrev buffer_size : ℕ
buffer_size = 64

-- The subscribers' channels, each with the events that wait in it, oldest first.
abbrev Bus : Type 0
Bus = List (List Event)

-- `Subscribe`
unfoldable subscribe : Bus → Bus
subscribe bus = [] ∷ bus

-- A full channel drops the event.
unfoldable offer : Event → List Event → List Event
offer e queue = if ltb (length queue) buffer_size then queue ++ e ∷ [] else queue

abbrev accepts : List Event → ℕ
accepts queue = if ltb (length queue) buffer_size then 1 else 0

-- `Publish`: the channels, and the number of subscribers that received the event.
unfoldable publish : Event → Bus → Bus × ℕ
unfolding offer
publish e [] = ([], 0)
publish e (queue ∷ rest) =
    let (others, n) = publish e rest in (offer e queue ∷ others, accepts queue + n)

-- Every channel holds at most 64 events.
abbrev IsBounded : Bus → Type 0
IsBounded [] = Unit
IsBounded (queue ∷ rest) = (length queue ≤ buffer_size) × IsBounded rest

abbrev total : Bus → ℕ
total [] = 0
total (queue ∷ rest) = length queue + total rest

-- Publishing never blocks and never overfills: bounded channels stay bounded, and as many events more
-- wait as there are subscribers that received the event, which is all of them at most.
publish-IsBounded :
    (e : Event) (bus : Bus)
    → IsBounded bus
    → IsBounded (publish e bus).0
      × (total (publish e bus).0 ≡ total bus + (publish e bus).1)
      × ((publish e bus).1 ≤ length bus)
unfolding publish offer
publish-IsBounded e [] h = (tt, refl, omega arith)
publish-IsBounded e (queue ∷ rest) (q, h) =
    let (bounded, count, most) = publish-IsBounded e rest h in
    let step = length-append queue (e ∷ []) in
    ((ground (arith, step), bounded), ground (arith, step, count), ground (arith, most))
