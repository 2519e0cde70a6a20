-- ===== src/Hash/Stable.antt =====
-- Which changes of a task definition its hash sees.
use proxa.Prelude.{◌≡◌, refl}
use proxa.Prelude.Int.{ℤ}
use proxa.Prelude.Text.{Text}
use proxa.Types.{TaskDef}
use proxa.Hash.{Encoding, hash}

-- Replicas, deployment strategy and schedule do not enter the hash, whatever they are set to.
hash_control_fields :
    (enc : Encoding) (spec : TaskDef) (n : ℤ) (strategy schedule : Text)
    → hash enc (record spec { replicas = n; strategy = strategy; schedule = schedule })
      ≡ hash enc spec
unfolding hash
hash_control_fields enc spec n strategy schedule = refl
