-- ===== src/Types/Status.antt =====
-- `ServiceStatus` of pkg/types/service.go.
use proxa.Prelude.Text.{Text, codes}

abbrev pub pending : Text
pending = codes "pending"

abbrev pub reconciling : Text
reconciling = codes "reconciling"

abbrev pub healthy : Text
healthy = codes "healthy"

abbrev pub degraded : Text
degraded = codes "degraded"

abbrev pub failed : Text
failed = codes "failed"

abbrev pub stopped : Text
stopped = codes "stopped"
