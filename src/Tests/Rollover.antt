-- ===== src/Tests/Rollover.antt =====
-- Examples of the two strategies.
use proxa.Prelude.{◌≡◌, ◌↔◌, ◌⊎◌, refl, Bool, true, false, some}
use proxa.Prelude.Int.{pos}
use proxa.Prelude.Text.{codes, text_eq}
use proxa.Reconciler.Strategy.{
  remove_container, Request, Answers, done, failed, start_first_apply, stop_first_apply,
}
use proxa.Reconciler.Strategy.Safety.{
  removes, no_launch, exclusive, start_first_apply-removal, start_first_apply-no_leak,
  stop_first_apply-exclusive,
}
use proxa.Tests.Fixtures.{plain, web_task}

abbrev req : Request
req = record {
  project = codes "shop";
  service = codes "web";
  replica_idx = pos 0;
  old_id = codes "old1";
  new_spec = web_task;
}

-- Every call succeeds, and the new container is or is not healthy in time.
abbrev answers : Bool → Answers
answers healthy = record {
  new_id = some (codes "new1");
  succeeds = λ c. true;
  is_healthy = healthy;
}

other_container : text_eq (codes "old1") (codes "new1") ≡ false
unfolding text_eq
other_container = refl

start_first_apply-removal_example :
    (removes (codes "old1") (start_first_apply plain (answers true) req).0 ≡ true)
    ↔ ((true ≡ true) × (true ≡ true) × (true ≡ true) × (true ≡ true))
start_first_apply-removal_example =
    start_first_apply-removal plain (answers true) req (codes "new1") refl other_container refl

start_first_apply-no_leak_example :
    let run = start_first_apply plain (answers false) req in
    (run.1 ≡ done)
    ⊎ ((removes (codes "new1") run.0 ≡ true)
        ⊎ ((false ≡ true) × (run.1 ≡ failed (remove_container (codes "old1")))))
start_first_apply-no_leak_example =
    start_first_apply-no_leak plain (answers false) req (codes "new1") refl refl

stop_first_apply-exclusive_example :
    let run = stop_first_apply plain (answers true) req in
    (exclusive (codes "old1") run.0 ≡ true)
    × ((no_launch run.0 ≡ true) ⊎ ((true ≡ true) × (true ≡ true)))
stop_first_apply-exclusive_example = stop_first_apply-exclusive plain (answers true) req refl
