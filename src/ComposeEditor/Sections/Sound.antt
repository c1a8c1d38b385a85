-- ===== src/ComposeEditor/Sections/Sound.antt =====
-- internal/composeeditor/section_handlers.go: changes of a section never panic.
use berth_agent.Prelude.{
  ◌≢◌, inl, inr, none, some, [], ◌∷◌, arith, Text, codes, text_eq_iff, Bool-cases, Option-cases,
}
use berth_agent.Prelude.{Option-cases}
use berth_agent.ComposeEditor.Nodes.{Node, end, mapping_node, find_key, set_node, delete_key}
use berth_agent.ComposeEditor.Nodes.Lookup.{Even}
use berth_agent.ComposeEditor.Nodes.Paired.{
  IsPaired, Each, Keeps, Keeps-then, set_node-IsPaired, delete_key-IsPaired,
}
use berth_agent.ComposeEditor.Nodes.Editable.{services, IsEditable, at_other, set_other}
use berth_agent.ComposeEditor.Config.{
  ChangeMap, NetworkConfig, VolumeConfig, SecretConfig, ConfigConfig,
}
use berth_agent.ComposeEditor.Builders.Sections.{
  build_network_config_node, build_volume_config_node, build_secret_config_node,
  build_config_config_node,
}
use berth_agent.ComposeEditor.Builders.Sections.Paired.{
  build_network_config_node-IsPaired, build_volume_config_node-IsPaired,
  build_secret_config_node-IsPaired, build_config_config_node-IsPaired,
}
use berth_agent.ComposeEditor.Sections.{
  has_additions, apply_entries, apply_section, apply_network_changes, apply_volume_changes,
  apply_secret_changes, apply_config_changes,
}

module _ {A : Type 0} (build : A → Node) (built : (a : A) → IsPaired (build a)) where
  apply_entries-IsPaired :
      (changes : ChangeMap A) (n : Node)
      → IsPaired n
      → Keeps IsPaired (apply_entries build changes n)
  unfolding apply_entries Keeps
  apply_entries-IsPaired [] n h = h
  apply_entries-IsPaired ((name, none) ∷ changes) n h =
      Keeps-then IsPaired IsPaired (delete_key n name) (apply_entries build changes)
        (delete_key-IsPaired n name h) (apply_entries-IsPaired changes)
  apply_entries-IsPaired ((name, some cfg) ∷ changes) n h =
      apply_entries-IsPaired changes (set_node n name (build cfg))
        (set_node-IsPaired n name (build cfg) h (built cfg))

  apply_section-IsEditable :
      (key : Text) (changes : ChangeMap A) (root : Node)
      → key ≢ services
      → IsEditable root
      → Keeps IsEditable (apply_section build key changes root)
  unfolding apply_section Keeps
  apply_section-IsEditable key changes root ne h = elim (Option-cases (find_key root key)) [
    | inl absent ↦ elim (Bool-cases (has_additions build changes)) [
      | inl added ↦
          rw (absent, added, apply_section)
            (at_other (apply_entries build changes) key (set_node root key (mapping_node end)) ne
              (set_other root key (mapping_node end) ne h (unfold IsPaired Even Each in (tt, tt)))
              (apply_entries-IsPaired changes))
      | inr none_added ↦ rw (absent, none_added, apply_section) h
    ]
    | inr (v, found) ↦
        rw (found, apply_section)
          (at_other (apply_entries build changes) key root ne h (apply_entries-IsPaired changes))
  ]

pub apply_network_changes-IsEditable :
    (changes : ChangeMap NetworkConfig) (root : Node)
    → IsEditable root
    → Keeps IsEditable (apply_network_changes changes root)
unfolding apply_network_changes
apply_network_changes-IsEditable changes root h =
    apply_section-IsEditable build_network_config_node build_network_config_node-IsPaired
      (codes "networks") changes root
      (λ p. absurd (ground (arith, text_eq_iff (codes "networks") services))) h

pub apply_volume_changes-IsEditable :
    (changes : ChangeMap VolumeConfig) (root : Node)
    → IsEditable root
    → Keeps IsEditable (apply_volume_changes changes root)
unfolding apply_volume_changes
apply_volume_changes-IsEditable changes root h =
    apply_section-IsEditable build_volume_config_node build_volume_config_node-IsPaired
      (codes "volumes") changes root
      (λ p. absurd (ground (arith, text_eq_iff (codes "networks") services))) h

pub apply_secret_changes-IsEditable :
    (changes : ChangeMap SecretConfig) (root : Node)
    → IsEditable root
    → Keeps IsEditable (apply_secret_changes changes root)
unfolding apply_secret_changes
apply_secret_changes-IsEditable changes root h =
    apply_section-IsEditable build_secret_config_node build_secret_config_node-IsPaired
      (codes "secrets") changes root
      (λ p. absurd (ground (arith, text_eq_iff (codes "networks") services))) h

pub apply_config_changes-IsEditable :
    (changes : ChangeMap ConfigConfig) (root : Node)
    → IsEditable root
    → Keeps IsEditable (apply_config_changes changes root)
unfolding apply_config_changes
apply_config_changes-IsEditable changes root h =
    apply_section-IsEditable build_config_config_node build_config_config_node-IsPaired
      (codes "configs") changes root
      (λ p. absurd (ground (arith, text_eq_iff (codes "networks") services))) h
