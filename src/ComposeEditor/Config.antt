-- ===== src/ComposeEditor/Config.antt =====
-- types/compose.go: the changes that a request asks for. A map is a list of its pairs in the order in
-- which a range loop meets them; a nil map, slice or pointer is `none` where the editor looks for it.
use berth_agent.Prelude.{ℕ, Bool, Option, List, Text}
use berth_agent.Prelude.Int.{ℤ}

abbrev pub TextMap : Type 0
TextMap = List (Text × Text)

pub record PortMapping : Type 0 where
  pub target : Text
  pub published : Text
  pub host_ip : Text
  pub protocol : Text

pub record VolumeMount : Type 0 where
  pub type : Text
  pub source : Text
  pub target : Text
  pub read_only : Bool

pub record NewServiceConfig : Type 0 where
  pub image : Text
  pub ports : List PortMapping
  pub environment : TextMap
  pub volumes : List VolumeMount
  pub restart : Text

pub record DependsOnConfig : Type 0 where
  pub condition : Text
  pub restart : Bool
  pub required : Bool

pub record HealthcheckConfig : Type 0 where
  pub test : List Text
  pub interval : Text
  pub timeout : Text
  pub retries : Option ℕ
  pub start_period : Text
  pub start_interval : Text
  pub disable : Bool

pub record ResourceLimits : Type 0 where
  pub cpus : Text
  pub memory : Text

pub record ResourcesConfig : Type 0 where
  pub limits : Option ResourceLimits
  pub reservations : Option ResourceLimits

pub record RestartPolicyConfig : Type 0 where
  pub condition : Text
  pub delay : Text
  pub max_attempts : Option ℤ
  pub window : Text

pub record PlacementPreference : Type 0 where
  pub spread : Text

pub record PlacementConfig : Type 0 where
  pub constraints : List Text
  pub preferences : List PlacementPreference

-- `max_failure_ratio` is the %g format of the float64, if that is not zero.
pub record UpdateRollbackConfig : Type 0 where
  pub parallelism : Option ℤ
  pub delay : Text
  pub failure_action : Text
  pub monitor : Text
  pub max_failure_ratio : Option Text
  pub order : Text

pub record DeployConfig : Type 0 where
  pub mode : Option Text
  pub replicas : Option ℤ
  pub resources : Option ResourcesConfig
  pub restart_policy : Option RestartPolicyConfig
  pub placement : Option PlacementConfig
  pub update_config : Option UpdateRollbackConfig
  pub rollback_config : Option UpdateRollbackConfig

pub record BuildConfig : Type 0 where
  pub context : Text
  pub dockerfile : Text
  pub args : TextMap
  pub target : Text
  pub cache_from : List Text
  pub cache_to : List Text
  pub platforms : List Text

pub record ServiceNetworkConfig : Type 0 where
  pub aliases : List Text
  pub ipv4_address : Text
  pub ipv6_address : Text
  pub priority : ℤ

pub record IpamPool : Type 0 where
  pub subnet : Text
  pub gateway : Text
  pub ip_range : Text

pub record IpamConfig : Type 0 where
  pub driver : Text
  pub config : List IpamPool

pub record NetworkConfig : Type 0 where
  pub driver : Text
  pub driver_opts : TextMap
  pub external : Bool
  pub name : Text
  pub labels : TextMap
  pub ipam : Option IpamConfig

pub record VolumeConfig : Type 0 where
  pub driver : Text
  pub driver_opts : TextMap
  pub external : Bool
  pub name : Text
  pub labels : TextMap

pub record SecretConfig : Type 0 where
  pub file : Text
  pub environment : Text
  pub external : Bool
  pub name : Text

pub record ConfigConfig : Type 0 where
  pub file : Text
  pub environment : Text
  pub external : Bool
  pub name : Text

-- The values of a map from names to pointers: `none` is nil.
abbrev pub ChangeMap : Type 0 → Type 0
ChangeMap A = List (Text × Option A)

pub record ServiceChanges : Type 0 where
  pub image : Option Text
  pub ports : Option (List PortMapping)
  pub environment : Option (ChangeMap Text)
  pub volumes : Option (List VolumeMount)
  pub command : Option (List Text)
  pub entrypoint : Option (List Text)
  pub depends_on : Option (List (Text × DependsOnConfig))
  pub healthcheck : Option HealthcheckConfig
  pub restart : Option Text
  pub labels : Option (ChangeMap Text)
  pub deploy : Option DeployConfig
  pub build : Option BuildConfig
  pub networks : Option (ChangeMap ServiceNetworkConfig)

pub record ComposeChanges : Type 0 where
  pub service_changes : Option (List (Text × ServiceChanges))
  pub network_changes : Option (ChangeMap NetworkConfig)
  pub volume_changes : Option (ChangeMap VolumeConfig)
  pub secret_changes : Option (ChangeMap SecretConfig)
  pub config_changes : Option (ChangeMap ConfigConfig)
  pub add_services : Option (List (Text × NewServiceConfig))
  pub delete_services : Option (List Text)
  pub rename_services : Option TextMap
