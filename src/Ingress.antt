-- ===== src/Ingress.antt =====
-- internal/ingress: routes, the routing table, the forwarders of ports and the pools of backends.
pub mod Router
pub mod Forwarders
pub mod Pool
pub mod Proxy
pub mod Sticky
use proxa.Prelude.{◌≡◌, ◌↔◌, ◌&&◌, Bool, true, arith}
use proxa.Prelude.Int.{ℤ, eqb_ℤ}
use proxa.Prelude.Text.{Text, text_eq, text_eq_iff}
use proxa.Prelude.Maps.{Eq}

-- `ServiceID`
pub record ServiceId : Type 0 where
  pub project : Text
  pub service : Text

unfoldable pub service_eq : ServiceId → ServiceId → Bool
service_eq a b = text_eq a.project b.project && text_eq a.service b.service

pub service_eq_iff : (a b : ServiceId) → (service_eq a b ≡ true) ↔ (a ≡ b)
unfolding service_eq
service_eq_iff a b =
    ground (arith, text_eq_iff a.project b.project, text_eq_iff a.service b.service)

instance abbrev pub service-Eq : Eq ServiceId
service-Eq = record { beq = service_eq; beq_iff = service_eq_iff }

-- `Backend`
pub record Backend : Type 0 where
  pub container_id : Text
  pub ip_address : Text
  pub port : ℤ
  pub healthy : Bool

-- `l4Key`
pub record L4Key : Type 0 where
  pub proto : Text
  pub port : ℤ

unfoldable pub l4_eq : L4Key → L4Key → Bool
l4_eq a b = text_eq a.proto b.proto && eqb_ℤ a.port b.port

pub l4_eq_iff : (a b : L4Key) → (l4_eq a b ≡ true) ↔ (a ≡ b)
unfolding l4_eq
l4_eq_iff a b = ground (arith, text_eq_iff a.proto b.proto)

instance abbrev pub l4-Eq : Eq L4Key
l4-Eq = record { beq = l4_eq; beq_iff = l4_eq_iff }

-- `l4Route`
pub record L4Route : Type 0 where
  pub project : Text
  pub service : ServiceId
  pub lb : Text
