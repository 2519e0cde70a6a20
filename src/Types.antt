-- ===== src/Types.antt =====
-- pkg/types and the records of internal/runtime, internal/probe and internal/ingress that several
-- components share. A Go pointer or a slice that code compares with nil is an `Option`; `int` and
-- `time.Duration` (in nanoseconds) are integers; a named string type is its text.
pub mod Status
use proxa.Prelude.{Bool, List, Option, [], ◌∷◌, none, true, false}
use proxa.Prelude.Int.{ℤ, pos}
use proxa.Prelude.Text.{Text, codes}
use proxa.Prelude.Maps.{Map}

-- internal/security/profile.go
pub record SecurityProfile : Type 0 where
  pub user : Text
  pub allow_root : Bool
  pub cap_add : Option (List Text)
  pub cap_drop : Option (List Text)
  pub no_new_privileges : Option Bool
  pub read_only_root_fs : Bool
  pub seccomp_profile : Text
  pub app_armor_profile : Text

pub record VolumeMount : Type 0 where
  pub source : Text
  pub target : Text
  pub read_only : Bool

pub record PortSpec : Type 0 where
  pub container : ℤ
  pub host : ℤ
  pub protocol : Text

pub record HealthCheck : Type 0 where
  pub path : Text
  pub port : ℤ
  pub command : List Text
  pub interval : ℤ
  pub timeout : ℤ
  pub retries : ℤ
  pub via : Text
  pub follow_redirects : Option Bool

pub record Route : Type 0 where
  pub host : Text
  pub path : Text
  pub l4 : Text
  pub port : ℤ
  pub lb_strategy : Text

pub record ResourceLimits : Type 0 where
  pub cpu : Text
  pub memory : Text
  pub pids_limit : ℤ

-- `meta_version` is `Meta.ProxaVersion`.
pub record TaskDef : Type 0 where
  pub meta_version : Text
  pub project : Text
  pub name : Text
  pub image : Text
  pub replicas : ℤ
  pub stateful : Bool
  pub security : SecurityProfile
  pub env : Map Text Text
  pub volumes : List VolumeMount
  pub expose : List PortSpec
  pub strategy : Text
  pub health : HealthCheck
  pub resources : ResourceLimits
  pub schedule : Text
  pub routes : List Route

-- The fields of `Service` that the modelled code reads or writes.
pub record Service : Type 0 where
  pub project : Text
  pub name : Text
  pub spec : TaskDef
  pub status : Text

pub record Project : Type 0 where
  pub name : Text

-- `runtime.ContainerInfo`
pub record ContainerInfo : Type 0 where
  pub id : Text
  pub name : Text
  pub image : Text
  pub state : Text
  pub ip_address : Text
  pub labels : Map Text Text

-- `runtime.ContainerSpec`, without `Cmd`, which no caller sets.
pub record ContainerSpec : Type 0 where
  pub name : Text
  pub image : Text
  pub env : Map Text Text
  pub volumes : List VolumeMount
  pub ports : List PortSpec
  pub security : SecurityProfile
  pub resources : ResourceLimits
  pub labels : Map Text Text

-- `DeployStrategy`
abbrev pub start_first : Text
start_first = codes "start-first"

abbrev pub stop_first : Text
stop_first = codes "stop-first"

-- Zero values, from which concrete specs are written.
abbrev pub zero_security : SecurityProfile
zero_security = record {
  user = [];
  allow_root = false;
  cap_add = none;
  cap_drop = none;
  no_new_privileges = none;
  read_only_root_fs = false;
  seccomp_profile = [];
  app_armor_profile = [];
}

abbrev pub zero_health : HealthCheck
zero_health = record {
  path = [];
  port = pos 0;
  command = [];
  interval = pos 0;
  timeout = pos 0;
  retries = pos 0;
  via = [];
  follow_redirects = none;
}

abbrev pub zero_task : TaskDef
zero_task = record {
  meta_version = [];
  project = [];
  name = [];
  image = [];
  replicas = pos 0;
  stateful = false;
  security = zero_security;
  env = [];
  volumes = [];
  expose = [];
  strategy = [];
  health = zero_health;
  resources = record { cpu = []; memory = []; pids_limit = pos 0 };
  schedule = [];
  routes = [];
}
