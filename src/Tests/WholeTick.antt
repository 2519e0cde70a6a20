-- ===== src/Tests/WholeTick.antt =====
-- An example of the pass over a project: a runtime without containers that counts the calls, and one service
-- that desires two.
use proxa.Prelude.{[], ◌∷◌, none, some, true}
use proxa.Prelude.Text.{Text, codes}
use proxa.Reconciler.Strategy.Calls.{all_well}
use proxa.Reconciler.Cycle.Once.{Runtime, World}
use proxa.Tests.Reporting.{state, later_tables}

abbrev idle : Runtime Text
idle = record {
  list_containers = λ project w. some [];
  answers = λ w a. all_well (codes "c1");
  perform = λ a c w. b'x' ∷ w;
  probed = λ w c. [];
}

abbrev before : World Text
before = record {
  runtime = [];
  controller = record { router = none; allowed_host = []; running = true; forwarders = [] };
  state = record state { tables = later_tables };
}
