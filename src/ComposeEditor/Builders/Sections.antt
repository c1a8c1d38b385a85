-- ===== src/ComposeEditor/Builders/Sections.antt =====
-- internal/composeeditor/section_handlers.go and service_lifecycle.go: the nodes for networks, volumes,
-- secrets, configs and new services.
pub mod Paired
use berth_agent.Prelude.{true, List, [], ◌∷◌, codes}
use berth_agent.ComposeEditor.Nodes.{Node, Nodes, end, entry, mapping_node, sequence_node}
use berth_agent.ComposeEditor.Config.{
  NewServiceConfig, IpamPool, IpamConfig, NetworkConfig, VolumeConfig, SecretConfig, ConfigConfig,
  PortMapping, VolumeMount,
}
use berth_agent.ComposeEditor.Builders.{
  node_pair, bool_pair, when, given, text_pair, join, map_pair, mapping_or_null, build_ports_node,
  build_volumes_node,
}

pools_content : List IpamPool → Nodes
unfolding join
pools_content [] = end
pools_content (pool ∷ pools) =
    entry
      (mapping_node (
        join (
          text_pair (codes "subnet") pool.subnet
          ∷ text_pair (codes "gateway") pool.gateway
          ∷ text_pair (codes "ip_range") pool.ip_range
          ∷ [])))
      (pools_content pools)

pools_pair : List IpamPool → Nodes
unfolding pools_content
pools_pair [] = end
pools_pair (pool ∷ pools) =
    node_pair (codes "config") (sequence_node (pools_content (pool ∷ pools)))

pub build_ipam_config_node : IpamConfig → Node
unfolding join pools_pair
build_ipam_config_node cfg =
    mapping_node (join (text_pair (codes "driver") cfg.driver ∷ pools_pair cfg.config ∷ []))

pub build_network_config_node : NetworkConfig → Node
unfolding join map_pair build_ipam_config_node
build_network_config_node cfg = mapping_or_null (
    join (
      text_pair (codes "driver") cfg.driver
      ∷ map_pair (codes "driver_opts") cfg.driver_opts
      ∷ when cfg.external (bool_pair (codes "external") true)
      ∷ text_pair (codes "name") cfg.name
      ∷ map_pair (codes "labels") cfg.labels
      ∷ given cfg.ipam (λ i. node_pair (codes "ipam") (build_ipam_config_node i))
      ∷ []))

pub build_volume_config_node : VolumeConfig → Node
unfolding join map_pair
build_volume_config_node cfg = mapping_or_null (
    join (
      text_pair (codes "driver") cfg.driver
      ∷ map_pair (codes "driver_opts") cfg.driver_opts
      ∷ when cfg.external (bool_pair (codes "external") true)
      ∷ text_pair (codes "name") cfg.name
      ∷ map_pair (codes "labels") cfg.labels
      ∷ []))

pub build_secret_config_node : SecretConfig → Node
unfolding join
build_secret_config_node cfg = mapping_node (
    join (
      text_pair (codes "file") cfg.file
      ∷ text_pair (codes "environment") cfg.environment
      ∷ when cfg.external (bool_pair (codes "external") true)
      ∷ text_pair (codes "name") cfg.name
      ∷ []))

pub build_config_config_node : ConfigConfig → Node
unfolding join
build_config_config_node cfg = mapping_node (
    join (
      text_pair (codes "file") cfg.file
      ∷ text_pair (codes "environment") cfg.environment
      ∷ when cfg.external (bool_pair (codes "external") true)
      ∷ text_pair (codes "name") cfg.name
      ∷ []))

-- `if len(ports) > 0`
ports_pair : List PortMapping → Nodes
ports_pair [] = end
ports_pair (p ∷ ports) = node_pair (codes "ports") (build_ports_node (p ∷ ports))

-- `if len(volumes) > 0`
volumes_pair : List VolumeMount → Nodes
volumes_pair [] = end
volumes_pair (v ∷ volumes) = node_pair (codes "volumes") (build_volumes_node (v ∷ volumes))

pub build_new_service_node : NewServiceConfig → Node
unfolding join map_pair ports_pair volumes_pair
build_new_service_node cfg = mapping_node (
    join (
      text_pair (codes "image") cfg.image
      ∷ ports_pair cfg.ports
      ∷ map_pair (codes "environment") cfg.environment
      ∷ volumes_pair cfg.volumes
      ∷ text_pair (codes "restart") cfg.restart
      ∷ []))
