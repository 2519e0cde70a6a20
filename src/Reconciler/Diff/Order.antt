-- ===== src/Reconciler/Diff/Order.antt =====
-- The order of the actions.
use proxa.Prelude.{List}
use proxa.Prelude.Int.{compare_ℤ}
use proxa.Prelude.Text.{text_compare, text_compare-IsOrder}
use proxa.Prelude.Sort.{IsSorted, IsOrder, lex-IsOrder, comap-IsOrder, compare_ℤ-IsOrder}
use proxa.Prelude.Sort.Laws.{sort-IsSorted}
use proxa.Types.{Service, ContainerInfo}
use proxa.Hash.{Encoding}
use proxa.Reconciler.Diff.{Action, slot-Eq, Unhealthy, unsorted, compute, compare_actions}

pub compare_actions-IsOrder : IsOrder compare_actions
unfolding compare_actions
compare_actions-IsOrder =
    lex-IsOrder _ _ (comap-IsOrder (λ (a : Action). a.project) text_compare text_compare-IsOrder) (
      lex-IsOrder _ _ (comap-IsOrder (λ (a : Action). a.service) text_compare text_compare-IsOrder)
        (comap-IsOrder (λ (a : Action). a.replica) compare_ℤ compare_ℤ-IsOrder))

-- The actions come in ascending order of project, service and replica.
pub compute-IsSorted :
    (enc : Encoding) (desired : List Service) (actual : List ContainerInfo) (u : Unhealthy)
    → IsSorted compare_actions (compute enc desired actual u)
unfolding compute
compute-IsSorted enc desired actual u =
    sort-IsSorted compare_actions compare_actions-IsOrder (unsorted enc desired actual u)
