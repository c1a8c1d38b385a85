-- ===== src/ComposeEditor/Document.antt =====
-- internal/composeeditor/service.go: all the changes of a request, on the document.
pub mod Sound
use berth_agent.Prelude.{Option, none, some, Result, ok, err, ◌>>=◌}
use berth_agent.ComposeEditor.Nodes.{
  document, mapping, Node, node, entry, EditError, invalid_structure,
}
use berth_agent.ComposeEditor.Config.{ComposeChanges}
use berth_agent.ComposeEditor.Sections.{
  apply_network_changes, apply_volume_changes, apply_secret_changes, apply_config_changes,
}
use berth_agent.ComposeEditor.Services.{apply_service_changes}
use berth_agent.ComposeEditor.Lifecycle.{
  apply_rename_services, apply_delete_services, apply_add_services,
}

-- `if changes.X != nil { if err := s.applyX(root, changes.X); err != nil { return err } }`
abbrev pub if_given {ℓ} :
    {A : Type ℓ} → (A → Node → Result EditError Node) → Option A → Node → Result EditError Node
if_given apply none root = ok root
if_given apply (some changes) root = apply changes root

-- `applyChangesToYaml` on the root mapping.
pub apply_to_root : ComposeChanges → Node → Result EditError Node
apply_to_root c root = do
  root₁ ← if_given apply_service_changes c.service_changes root
  root₂ ← if_given apply_network_changes c.network_changes root₁
  root₃ ← if_given apply_volume_changes c.volume_changes root₂
  root₄ ← if_given apply_secret_changes c.secret_changes root₃
  root₅ ← if_given apply_config_changes c.config_changes root₄
  root₆ ← if_given apply_rename_services c.rename_services root₅
  root₇ ← if_given apply_delete_services c.delete_services root₆
  if_given apply_add_services c.add_services root₇

checked_root : ComposeChanges → Node → Result EditError Node
unfolding apply_to_root
checked_root c (node mapping value tag content) = apply_to_root c (node mapping value tag content)
checked_root c n = err invalid_structure

-- applyChangesToYaml
pub apply_changes : ComposeChanges → Node → Result EditError Node
unfolding checked_root
apply_changes c (node document value tag (entry root rest)) = do
  root' ← checked_root c root
  ok (node document value tag (entry root' rest))
apply_changes c n = checked_root c n
