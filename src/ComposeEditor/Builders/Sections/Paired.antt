-- ===== src/ComposeEditor/Builders/Sections/Paired.antt =====
-- internal/composeeditor/section_handlers.go and service_lifecycle.go: what is built is a tree in which
-- every mapping has a value behind each key.
use berth_agent.Prelude.{List, [], ◌∷◌, codes}
use berth_agent.ComposeEditor.Nodes.Lookup.{Even}
use berth_agent.ComposeEditor.Nodes.Paired.{IsPaired, Each, Pairs}
use berth_agent.ComposeEditor.Config.{
  NewServiceConfig, IpamPool, IpamConfig, NetworkConfig, VolumeConfig, SecretConfig, ConfigConfig,
  PortMapping, VolumeMount,
}
use berth_agent.ComposeEditor.Builders.Paired.{
  pairs_laws, build_ports_node-IsPaired, build_volumes_node-IsPaired, node_pair-Pairs,
}
use berth_agent.ComposeEditor.Builders.Sections.{
  pools_content, pools_pair, ports_pair, volumes_pair, build_ipam_config_node,
  build_network_config_node, build_volume_config_node, build_secret_config_node,
  build_config_config_node, build_new_service_node,
}

pools_content-Each : (pools : List IpamPool) → Each (pools_content pools)
unfolding pools_content Each
pools_content-Each [] = tt
pools_content-Each (pool ∷ pools) = (search (pairs_laws) depth 20, pools_content-Each pools)

pools_pair-Pairs : (pools : List IpamPool) → Pairs (pools_pair pools)
unfolding pools_pair Even Each IsPaired
pools_pair-Pairs [] = (tt, tt)
pools_pair-Pairs (pool ∷ pools) = (tt, (tt, (pools_content-Each (pool ∷ pools), tt)))

ports_pair-Pairs : (ports : List PortMapping) → Pairs (ports_pair ports)
unfolding ports_pair Even Each
ports_pair-Pairs [] = (tt, tt)
ports_pair-Pairs (p ∷ ports) =
    node_pair-Pairs (codes "ports") _ (build_ports_node-IsPaired (p ∷ ports))

volumes_pair-Pairs : (volumes : List VolumeMount) → Pairs (volumes_pair volumes)
unfolding volumes_pair Even Each
volumes_pair-Pairs [] = (tt, tt)
volumes_pair-Pairs (v ∷ volumes) =
    node_pair-Pairs (codes "volumes") _ (build_volumes_node-IsPaired (v ∷ volumes))

build_ipam_config_node-IsPaired : (cfg : IpamConfig) → IsPaired (build_ipam_config_node cfg)
unfolding build_ipam_config_node
build_ipam_config_node-IsPaired cfg = search (pairs_laws, pools_pair-Pairs) depth 20

pub build_network_config_node-IsPaired :
    (cfg : NetworkConfig) → IsPaired (build_network_config_node cfg)
unfolding build_network_config_node
build_network_config_node-IsPaired cfg =
    search (pairs_laws, build_ipam_config_node-IsPaired) depth 20

pub build_volume_config_node-IsPaired :
    (cfg : VolumeConfig) → IsPaired (build_volume_config_node cfg)
unfolding build_volume_config_node
build_volume_config_node-IsPaired cfg = search (pairs_laws) depth 20

pub build_secret_config_node-IsPaired :
    (cfg : SecretConfig) → IsPaired (build_secret_config_node cfg)
unfolding build_secret_config_node
build_secret_config_node-IsPaired cfg = search (pairs_laws) depth 20

pub build_config_config_node-IsPaired :
    (cfg : ConfigConfig) → IsPaired (build_config_config_node cfg)
unfolding build_config_config_node
build_config_config_node-IsPaired cfg = search (pairs_laws) depth 20

pub build_new_service_node-IsPaired :
    (cfg : NewServiceConfig) → IsPaired (build_new_service_node cfg)
unfolding build_new_service_node
build_new_service_node-IsPaired cfg =
    search (pairs_laws, ports_pair-Pairs, volumes_pair-Pairs) depth 20
