-- ===== src/ComposeEditor/Builders.antt =====
-- internal/composeeditor/node_builders.go and yaml_helpers.go: the nodes for the parts of a service.
-- A builder appends one pair after the other to a mapping node; here the pairs are joined.
pub mod Sections
pub mod Paired
use berth_agent.Prelude.{
  ℕ, zero, ◌+◌, Bool, true, false, not, ◌&&◌, Option, none, some, List, [], ◌∷◌, ◌++◌, Text, codes,
  text_eq, if◌then◌else◌,
}
use berth_agent.Prelude.Int.{ℤ, pos}
use berth_agent.Encoding.Decimal.{format_uint, format_int}
use berth_agent.ComposeEditor.Nodes.{
  scalar, Node, node, Nodes, end, entry, append, mapping_node, sequence_node, scalar_node,
  null_node,
}
use berth_agent.ComposeEditor.Config.{
  TextMap, ChangeMap, PortMapping, VolumeMount, DependsOnConfig, HealthcheckConfig, ResourceLimits,
  ResourcesConfig, RestartPolicyConfig, PlacementPreference, PlacementConfig, UpdateRollbackConfig,
  DeployConfig, BuildConfig, ServiceNetworkConfig,
}

-- appendNodePair
abbrev pub node_pair : Text → Node → Nodes
node_pair key value = entry (scalar_node key) (entry value end)

-- appendScalarPair
abbrev pub scalar_pair : Text → Text → Nodes
scalar_pair key value = node_pair key (scalar_node value)

-- appendBoolPair
abbrev pub bool_pair : Text → Bool → Nodes
bool_pair key value =
    node_pair key (node scalar (if value then codes "true" else codes "false") (codes "!!bool") end)

-- appendIntPair
abbrev pub int_pair : Text → ℤ → Nodes
int_pair key value = node_pair key (node scalar (format_int value) (codes "!!int") end)

-- appendUint64Pair
abbrev pub uint64_pair : Text → ℕ → Nodes
uint64_pair key value = node_pair key (node scalar (format_uint value) (codes "!!int") end)

-- `if test { … }`
abbrev pub when : Bool → Nodes → Nodes
when test pairs = if test then pairs else end

-- `if p != nil { … *p … }`
abbrev pub given {ℓ} : {A : Type ℓ} → Option A → (A → Nodes) → Nodes
given none pairs = end
given (some a) pairs = pairs a

-- `if value != "" { appendScalarPair(node, key, value) }`
abbrev pub text_pair : Text → Text → Nodes
text_pair key value = when (not (text_eq value [])) (scalar_pair key value)

-- One append after the other.
pub join : List Nodes → Nodes
unfolding append
join [] = end
join (pairs ∷ rest) = append pairs (join rest)

-- The loop that appends a scalar node for each value.
pub scalar_nodes : List Text → Nodes
scalar_nodes [] = end
scalar_nodes (v ∷ values) = entry (scalar_node v) (scalar_nodes values)

-- `if len(values) > 0 { … appendNodePair(node, key, sequence) }`
pub sequence_pair : Text → List Text → Nodes
unfolding scalar_nodes
sequence_pair key [] = end
sequence_pair key (v ∷ values) = node_pair key (sequence_node (scalar_nodes (v ∷ values)))

-- The loop that appends a scalar pair for each pair of a map.
pub map_pairs : TextMap → Nodes
map_pairs [] = end
map_pairs ((k, v) ∷ m) = entry (scalar_node k) (entry (scalar_node v) (map_pairs m))

-- `if len(m) > 0 { … appendNodePair(node, key, mapping) }`
pub map_pair : Text → TextMap → Nodes
unfolding map_pairs
map_pair key [] = end
map_pair key (p ∷ m) = node_pair key (mapping_node (map_pairs (p ∷ m)))

-- The text of a port in `buildPortsNode`.
pub port_text : PortMapping → Text
port_text p =
    (if not (text_eq p.host_ip []) then p.host_ip ++ codes ":" else [])
    ++ ((if not (text_eq p.published []) then p.published ++ codes ":" else [])
        ++ (p.target
            ++ (if not (text_eq p.protocol []) && not (text_eq p.protocol (codes "tcp"))
                then codes "/" ++ p.protocol
                else [])))

ports_content : List PortMapping → Nodes
unfolding port_text
ports_content [] = end
ports_content (p ∷ ports) = entry (scalar_node (port_text p)) (ports_content ports)

pub build_ports_node : List PortMapping → Node
unfolding ports_content
build_ports_node ports = sequence_node (ports_content ports)

volumes_content : List VolumeMount → Nodes
volumes_content [] = end
volumes_content (v ∷ volumes) =
    entry
      (scalar_node
        (v.source ++ (codes ":" ++ (v.target ++ (if v.read_only then codes ":ro" else [])))))
      (volumes_content volumes)

pub build_volumes_node : List VolumeMount → Node
unfolding volumes_content
build_volumes_node volumes = sequence_node (volumes_content volumes)

pub build_command_node : List Text → Node
unfolding scalar_nodes
build_command_node [] = null_node
build_command_node (v ∷ []) = scalar_node v
build_command_node (v ∷ w ∷ values) = sequence_node (scalar_nodes (v ∷ w ∷ values))

-- A dependency in `buildDependsOnNode`.
depends_on_value : DependsOnConfig → Node
unfolding join
depends_on_value cfg = mapping_node (
    join (
      scalar_pair (codes "condition")
        (if text_eq cfg.condition [] then codes "service_started" else cfg.condition)
      ∷ when cfg.restart (bool_pair (codes "restart") true)
      ∷ when cfg.required (bool_pair (codes "required") true)
      ∷ []))

depends_on_content : List (Text × DependsOnConfig) → Nodes
unfolding depends_on_value
depends_on_content [] = end
depends_on_content ((name, cfg) ∷ deps) =
    entry (scalar_node name) (entry (depends_on_value cfg) (depends_on_content deps))

pub build_depends_on_node : List (Text × DependsOnConfig) → Node
unfolding depends_on_content
build_depends_on_node deps = mapping_node (depends_on_content deps)

pub build_healthcheck_node : HealthcheckConfig → Node
unfolding join sequence_pair
build_healthcheck_node hc =
    if hc.disable
    then mapping_node (bool_pair (codes "disable") true)
    else mapping_node (
        join (
          sequence_pair (codes "test") hc.test
          ∷ text_pair (codes "interval") hc.interval
          ∷ text_pair (codes "timeout") hc.timeout
          ∷ given hc.retries (uint64_pair (codes "retries"))
          ∷ text_pair (codes "start_period") hc.start_period
          ∷ text_pair (codes "start_interval") hc.start_interval
          ∷ []))

pub build_resource_limits_node : ResourceLimits → Node
unfolding join
build_resource_limits_node limits =
    mapping_node
      (join (text_pair (codes "cpus") limits.cpus ∷ text_pair (codes "memory") limits.memory ∷ []))

pub build_resources_node : ResourcesConfig → Node
unfolding join build_resource_limits_node
build_resources_node resources = mapping_node (
    join (
      given resources.limits (λ l. node_pair (codes "limits") (build_resource_limits_node l))
      ∷ given resources.reservations
          (λ l. node_pair (codes "reservations") (build_resource_limits_node l))
      ∷ []))

pub build_restart_policy_node : RestartPolicyConfig → Node
unfolding join
build_restart_policy_node policy = mapping_node (
    join (
      text_pair (codes "condition") policy.condition
      ∷ text_pair (codes "delay") policy.delay
      ∷ given policy.max_attempts (int_pair (codes "max_attempts"))
      ∷ text_pair (codes "window") policy.window
      ∷ []))

preferences_content : List PlacementPreference → Nodes
preferences_content [] = end
preferences_content (p ∷ preferences) =
    entry (mapping_node (scalar_pair (codes "spread") p.spread)) (preferences_content preferences)

preferences_pair : List PlacementPreference → Nodes
unfolding preferences_content
preferences_pair [] = end
preferences_pair (p ∷ preferences) =
    node_pair (codes "preferences") (sequence_node (preferences_content (p ∷ preferences)))

pub build_placement_node : PlacementConfig → Node
unfolding join sequence_pair preferences_pair
build_placement_node placement = mapping_node (
    join (
      sequence_pair (codes "constraints") placement.constraints
      ∷ preferences_pair placement.preferences
      ∷ []))

pub build_update_rollback_config_node : UpdateRollbackConfig → Node
unfolding join
build_update_rollback_config_node config = mapping_node (
    join (
      given config.parallelism (int_pair (codes "parallelism"))
      ∷ text_pair (codes "delay") config.delay
      ∷ text_pair (codes "failure_action") config.failure_action
      ∷ text_pair (codes "monitor") config.monitor
      ∷ given config.max_failure_ratio (scalar_pair (codes "max_failure_ratio"))
      ∷ text_pair (codes "order") config.order
      ∷ []))

pub build_deploy_node : DeployConfig → Node
unfolding join build_resources_node build_restart_policy_node build_placement_node
    build_update_rollback_config_node
build_deploy_node deploy = mapping_node (
    join (
      given deploy.mode (scalar_pair (codes "mode"))
      ∷ given deploy.replicas (int_pair (codes "replicas"))
      ∷ given deploy.resources (λ r. node_pair (codes "resources") (build_resources_node r))
      ∷ given deploy.restart_policy
          (λ p. node_pair (codes "restart_policy") (build_restart_policy_node p))
      ∷ given deploy.placement (λ p. node_pair (codes "placement") (build_placement_node p))
      ∷ given deploy.update_config
          (λ c. node_pair (codes "update_config") (build_update_rollback_config_node c))
      ∷ given deploy.rollback_config
          (λ c. node_pair (codes "rollback_config") (build_update_rollback_config_node c))
      ∷ []))

pub build_build_node : BuildConfig → Node
unfolding join map_pair sequence_pair
build_build_node build = mapping_node (
    join (
      text_pair (codes "context") build.context
      ∷ text_pair (codes "dockerfile") build.dockerfile
      ∷ text_pair (codes "target") build.target
      ∷ map_pair (codes "args") build.args
      ∷ sequence_pair (codes "cache_from") build.cache_from
      ∷ sequence_pair (codes "cache_to") build.cache_to
      ∷ sequence_pair (codes "platforms") build.platforms
      ∷ []))

-- A mapping node, or null if it is empty.
abbrev pub mapping_or_null : Nodes → Node
mapping_or_null end = null_node
mapping_or_null (entry n rest) = mapping_node (entry n rest)

abbrev is_zero : ℤ → Bool
is_zero (pos zero) = true
is_zero _ = false

-- A network in `buildServiceNetworksNode`.
service_network_value : Option ServiceNetworkConfig → Node
unfolding join sequence_pair
service_network_value none = null_node
service_network_value (some cfg) = mapping_or_null (
    join (
      sequence_pair (codes "aliases") cfg.aliases
      ∷ text_pair (codes "ipv4_address") cfg.ipv4_address
      ∷ text_pair (codes "ipv6_address") cfg.ipv6_address
      ∷ when (not (is_zero cfg.priority)) (int_pair (codes "priority") cfg.priority)
      ∷ []))

service_networks_content : ChangeMap ServiceNetworkConfig → Nodes
unfolding service_network_value
service_networks_content [] = end
service_networks_content ((name, cfg) ∷ networks) =
    entry (scalar_node name) (entry (service_network_value cfg) (service_networks_content networks))

pub build_service_networks_node : ChangeMap ServiceNetworkConfig → Node
unfolding service_networks_content
build_service_networks_node networks = mapping_node (service_networks_content networks)
