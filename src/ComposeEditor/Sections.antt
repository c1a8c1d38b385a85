-- ===== src/ComposeEditor/Sections.antt =====
-- internal/composeeditor/section_handlers.go: the four handlers of the sections, which differ in the
-- section and in the node that they build.
pub mod Entries
pub mod Edited
pub mod Sound
use berth_agent.Prelude.{
  Bool, true, false, none, some, [], ◌∷◌, Result, ok, ◌>>=◌, Text, codes, if◌then◌else◌,
}
use berth_agent.ComposeEditor.Nodes.{
  Node, end, EditError, mapping_node, find_key, set_node, delete_key, at_key,
}
use berth_agent.ComposeEditor.Config.{
  ChangeMap, NetworkConfig, VolumeConfig, SecretConfig, ConfigConfig,
}
use berth_agent.ComposeEditor.Builders.Sections.{
  build_network_config_node, build_volume_config_node, build_secret_config_node,
  build_config_config_node,
}

module _ {A : Type 0} (build : A → Node) where
  -- The loop that looks for an addition.
  unfoldable pub has_additions : ChangeMap A → Bool
  has_additions [] = false
  has_additions ((name, none) ∷ changes) = has_additions changes
  has_additions ((name, some cfg) ∷ changes) = true

  -- The loop over the changes, on the node of the section.
  pub apply_entries : ChangeMap A → Node → Result EditError Node
  apply_entries [] section = ok section
  apply_entries ((name, none) ∷ changes) section = delete_key section name >>= apply_entries changes
  apply_entries ((name, some cfg) ∷ changes) section =
      apply_entries changes (set_node section name (build cfg))

  unfoldable pub apply_section : Text → ChangeMap A → Node → Result EditError Node
  unfolding has_additions apply_entries
  apply_section key changes root = elim (find_key root key) [
    | some section ↦ at_key (apply_entries changes) key root
    | none ↦
        if has_additions changes
        then at_key (apply_entries changes) key (set_node root key (mapping_node end))
        else ok root
  ]

pub apply_network_changes : ChangeMap NetworkConfig → Node → Result EditError Node
unfolding apply_section
apply_network_changes = apply_section build_network_config_node (codes "networks")

pub apply_volume_changes : ChangeMap VolumeConfig → Node → Result EditError Node
unfolding apply_section
apply_volume_changes = apply_section build_volume_config_node (codes "volumes")

pub apply_secret_changes : ChangeMap SecretConfig → Node → Result EditError Node
unfolding apply_section
apply_secret_changes = apply_section build_secret_config_node (codes "secrets")

pub apply_config_changes : ChangeMap ConfigConfig → Node → Result EditError Node
unfolding apply_section
apply_config_changes = apply_section build_config_config_node (codes "configs")
