-- ===== src/ComposeEditor/Builders/Paired.antt =====
-- internal/composeeditor/node_builders.go: what is built is a tree in which every mapping is one.
use berth_agent.ComposeEditor.Builders.{
  build_resources_node, build_update_rollback_config_node, build_placement_node,
  build_restart_policy_node, build_deploy_node, preferences_pair, preferences_content,
  service_network_value, service_networks_content, build_resource_limits_node,
  build_service_networks_node, build_build_node, scalar_pair, given, when, sequence_pair,
  build_healthcheck_node, build_command_node, build_depends_on_node, node_pair, scalar_nodes,
  mapping_or_null, volumes_content, map_pairs, build_volumes_node, build_ports_node, text_pair,
  ports_content, depends_on_content, map_pair, depends_on_value, join,
}
use berth_agent.Prelude.{
  inl, inr, Bool, true, false, not, Option, none, some, List, [], ◌∷◌, Text, text_eq, Bool-cases,
}
use berth_agent.ComposeEditor.Nodes.{
  scalar, Node, node, Nodes, end, entry, mapping_node, sequence_node,
}
use berth_agent.ComposeEditor.Nodes.Lookup.{Even}
use berth_agent.ComposeEditor.Nodes.Paired.{IsPaired, Each, Pairs, Pairs-append}
use berth_agent.ComposeEditor.Config.{
  TextMap, ChangeMap, PortMapping, VolumeMount, DependsOnConfig, HealthcheckConfig, ResourceLimits,
  ResourcesConfig, RestartPolicyConfig, PlacementPreference, PlacementConfig, UpdateRollbackConfig,
  DeployConfig, BuildConfig, ServiceNetworkConfig,
}

-- The parts that a builder joins.
pub Pairs-end : Pairs end
unfolding Even Each
Pairs-end = (tt, tt)

pub node_pair-Pairs : (key : Text) (value : Node) → IsPaired value → Pairs (node_pair key value)
unfolding Even Each IsPaired
node_pair-Pairs key value h = (tt, (tt, (h, tt)))

pub leaf_pair-Pairs : (key text tag : Text) → Pairs (node_pair key (node scalar text tag end))
unfolding Even Each IsPaired
leaf_pair-Pairs key text tag = (tt, (tt, (tt, tt)))

pub when-Pairs : (test : Bool) (pairs : Nodes) → Pairs pairs → Pairs (when test pairs)
unfolding Even Each
when-Pairs true pairs h = h
when-Pairs false pairs h = (tt, tt)

pub given-Pairs {ℓ} :
    {A : Type ℓ} (o : Option A) (pairs : A → Nodes)
    → ((a : A) → Pairs (pairs a))
    → Pairs (given o pairs)
unfolding Even Each
given-Pairs none pairs h = (tt, tt)
given-Pairs (some a) pairs h = h a

pub text_pair-Pairs : (key value : Text) → Pairs (text_pair key value)
text_pair-Pairs key value =
    when-Pairs (not (text_eq value [])) (scalar_pair key value) (leaf_pair-Pairs key value [])

pub join_nil-Pairs : Pairs (join [])
unfolding join Even Each
join_nil-Pairs = (tt, tt)

pub join_cons-Pairs :
    (pairs : Nodes) (rest : List Nodes)
    → Pairs pairs
    → Pairs (join rest)
    → Pairs (join (pairs ∷ rest))
unfolding join
join_cons-Pairs pairs rest h t = Pairs-append pairs (join rest) h t

pub mapping_node-IsPaired : (content : Nodes) → Pairs content → IsPaired (mapping_node content)
unfolding IsPaired
mapping_node-IsPaired content h = h

pub sequence_node-IsPaired : (content : Nodes) → Each content → IsPaired (sequence_node content)
unfolding IsPaired
sequence_node-IsPaired content h = h

pub scalar_nodes-Each : (values : List Text) → Each (scalar_nodes values)
unfolding scalar_nodes Each IsPaired
scalar_nodes-Each [] = tt
scalar_nodes-Each (v ∷ values) = (tt, scalar_nodes-Each values)

pub sequence_pair-Pairs : (key : Text) (values : List Text) → Pairs (sequence_pair key values)
unfolding sequence_pair Even Each IsPaired
sequence_pair-Pairs key [] = (tt, tt)
sequence_pair-Pairs key (v ∷ values) = (tt, (tt, (scalar_nodes-Each (v ∷ values), tt)))

map_pairs-Pairs : (m : TextMap) → Pairs (map_pairs m)
unfolding map_pairs Even Each IsPaired
map_pairs-Pairs [] = (tt, tt)
map_pairs-Pairs ((k, v) ∷ m) = let (e, h) = map_pairs-Pairs m in (e, (tt, (tt, h)))

pub map_pair-Pairs : (key : Text) (m : TextMap) → Pairs (map_pair key m)
unfolding map_pair Even Each IsPaired
map_pair-Pairs key [] = (tt, tt)
map_pair-Pairs key (p ∷ m) = (tt, (tt, (map_pairs-Pairs (p ∷ m), tt)))

pub mapping_or_null-IsPaired :
    (content : Nodes) → Pairs content → IsPaired (mapping_or_null content)
unfolding IsPaired Even Each
mapping_or_null-IsPaired end h = tt
mapping_or_null-IsPaired (entry n rest) h = h

pub ruleset pairs_laws = (
  Pairs-end, node_pair-Pairs, leaf_pair-Pairs, when-Pairs, given-Pairs, text_pair-Pairs,
  join_nil-Pairs, join_cons-Pairs, mapping_node-IsPaired, sequence_node-IsPaired,
  sequence_pair-Pairs, map_pair-Pairs, mapping_or_null-IsPaired,
)

-- The builders of the parts of a service.
ports_content-Each : (ports : List PortMapping) → Each (ports_content ports)
unfolding ports_content Each IsPaired
ports_content-Each [] = tt
ports_content-Each (p ∷ ports) = (tt, ports_content-Each ports)

pub build_ports_node-IsPaired : (ports : List PortMapping) → IsPaired (build_ports_node ports)
unfolding build_ports_node
build_ports_node-IsPaired ports = sequence_node-IsPaired _ (ports_content-Each ports)

volumes_content-Each : (volumes : List VolumeMount) → Each (volumes_content volumes)
unfolding volumes_content Each IsPaired
volumes_content-Each [] = tt
volumes_content-Each (v ∷ volumes) = (tt, volumes_content-Each volumes)

pub build_volumes_node-IsPaired :
    (volumes : List VolumeMount) → IsPaired (build_volumes_node volumes)
unfolding build_volumes_node
build_volumes_node-IsPaired volumes = sequence_node-IsPaired _ (volumes_content-Each volumes)

pub build_command_node-IsPaired : (values : List Text) → IsPaired (build_command_node values)
unfolding build_command_node IsPaired Each
build_command_node-IsPaired [] = tt
build_command_node-IsPaired (v ∷ []) = tt
build_command_node-IsPaired (v ∷ w ∷ values) = scalar_nodes-Each (v ∷ w ∷ values)

depends_on_value-IsPaired : (cfg : DependsOnConfig) → IsPaired (depends_on_value cfg)
unfolding depends_on_value
depends_on_value-IsPaired cfg = search (pairs_laws) depth 20

depends_on_content-Pairs : (deps : List (Text × DependsOnConfig)) → Pairs (depends_on_content deps)
unfolding depends_on_content Even Each IsPaired
depends_on_content-Pairs [] = (tt, tt)
depends_on_content-Pairs ((name, cfg) ∷ deps) =
    let (e, h) = depends_on_content-Pairs deps in (e, (tt, (depends_on_value-IsPaired cfg, h)))

pub build_depends_on_node-IsPaired :
    (deps : List (Text × DependsOnConfig)) → IsPaired (build_depends_on_node deps)
unfolding build_depends_on_node
build_depends_on_node-IsPaired deps = mapping_node-IsPaired _ (depends_on_content-Pairs deps)

pub build_healthcheck_node-IsPaired :
    (hc : HealthcheckConfig) → IsPaired (build_healthcheck_node hc)
unfolding build_healthcheck_node
build_healthcheck_node-IsPaired hc = elim (Bool-cases hc.disable) [
  | inl off ↦ rw off (search (pairs_laws) depth 20)
  | inr on ↦ rw on (search (pairs_laws) depth 20)
]

build_resource_limits_node-IsPaired :
    (limits : ResourceLimits) → IsPaired (build_resource_limits_node limits)
unfolding build_resource_limits_node
build_resource_limits_node-IsPaired limits = search (pairs_laws) depth 20

build_resources_node-IsPaired :
    (resources : ResourcesConfig) → IsPaired (build_resources_node resources)
unfolding build_resources_node
build_resources_node-IsPaired resources =
    search (pairs_laws, build_resource_limits_node-IsPaired) depth 20

build_restart_policy_node-IsPaired :
    (policy : RestartPolicyConfig) → IsPaired (build_restart_policy_node policy)
unfolding build_restart_policy_node
build_restart_policy_node-IsPaired policy = search (pairs_laws) depth 20

preferences_content-Each :
    (preferences : List PlacementPreference) → Each (preferences_content preferences)
unfolding preferences_content Even Each IsPaired
preferences_content-Each [] = tt
preferences_content-Each (p ∷ preferences) =
    ((tt, (tt, (tt, tt))), preferences_content-Each preferences)

preferences_pair-Pairs :
    (preferences : List PlacementPreference) → Pairs (preferences_pair preferences)
unfolding preferences_pair Even Each IsPaired
preferences_pair-Pairs [] = (tt, tt)
preferences_pair-Pairs (p ∷ preferences) =
    (tt, (tt, (preferences_content-Each (p ∷ preferences), tt)))

build_placement_node-IsPaired :
    (placement : PlacementConfig) → IsPaired (build_placement_node placement)
unfolding build_placement_node
build_placement_node-IsPaired placement = search (pairs_laws, preferences_pair-Pairs) depth 20

build_update_rollback_config_node-IsPaired :
    (config : UpdateRollbackConfig) → IsPaired (build_update_rollback_config_node config)
unfolding build_update_rollback_config_node
build_update_rollback_config_node-IsPaired config = search (pairs_laws) depth 20

pub build_deploy_node-IsPaired : (deploy : DeployConfig) → IsPaired (build_deploy_node deploy)
unfolding build_deploy_node
build_deploy_node-IsPaired deploy =
    search
      (
        pairs_laws, build_resources_node-IsPaired, build_restart_policy_node-IsPaired,
        build_placement_node-IsPaired, build_update_rollback_config_node-IsPaired,
      )
      depth 20

pub build_build_node-IsPaired : (build : BuildConfig) → IsPaired (build_build_node build)
unfolding build_build_node
build_build_node-IsPaired build = search (pairs_laws) depth 20

service_network_value-IsPaired :
    (cfg : Option ServiceNetworkConfig) → IsPaired (service_network_value cfg)
unfolding service_network_value
service_network_value-IsPaired none = unfold IsPaired Each in tt
service_network_value-IsPaired (some cfg) = search (pairs_laws) depth 20

service_networks_content-Pairs :
    (networks : ChangeMap ServiceNetworkConfig) → Pairs (service_networks_content networks)
unfolding service_networks_content Even Each IsPaired
service_networks_content-Pairs [] = (tt, tt)
service_networks_content-Pairs ((name, cfg) ∷ networks) =
    let (e, h) = service_networks_content-Pairs networks in
    (e, (tt, (service_network_value-IsPaired cfg, h)))

pub build_service_networks_node-IsPaired :
    (networks : ChangeMap ServiceNetworkConfig) → IsPaired (build_service_networks_node networks)
unfolding build_service_networks_node
build_service_networks_node-IsPaired networks =
    mapping_node-IsPaired _ (service_networks_content-Pairs networks)
