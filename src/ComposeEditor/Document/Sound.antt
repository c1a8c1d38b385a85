-- ===== src/ComposeEditor/Document/Sound.antt =====
-- internal/composeeditor/service.go: all the changes of a request keep the shape of a compose file, and
-- never panic.
use berth_agent.Prelude.{Option, none, some, Result, ok, ◌>>=◌}
use berth_agent.ComposeEditor.Nodes.{
  document, mapping, sequence, scalar, alias, Node, node, end, entry, EditError,
}
use berth_agent.ComposeEditor.Nodes.Paired.{Each, Keeps, Keeps-then, Keeps_weaken}
use berth_agent.ComposeEditor.Nodes.Editable.{IsEditable}
use berth_agent.ComposeEditor.Config.{ComposeChanges}
use berth_agent.ComposeEditor.Sections.Sound.{
  apply_network_changes-IsEditable, apply_volume_changes-IsEditable,
  apply_secret_changes-IsEditable, apply_config_changes-IsEditable,
}
use berth_agent.ComposeEditor.Sections.{
  apply_network_changes, apply_volume_changes, apply_secret_changes, apply_config_changes,
}
use berth_agent.ComposeEditor.Services.{apply_service_changes}
use berth_agent.ComposeEditor.Lifecycle.{
  apply_rename_services, apply_delete_services, apply_add_services,
}
use berth_agent.ComposeEditor.Services.Sound.{apply_service_changes-IsEditable}
use berth_agent.ComposeEditor.Lifecycle.Sound.{
  apply_rename_services-IsEditable, apply_delete_services-IsEditable, apply_add_services-IsEditable,
}
use berth_agent.ComposeEditor.Document.{if_given, apply_to_root, checked_root, apply_changes}

-- A document with an editable root, or such a root by itself.
unfoldable pub IsComposeFile : Node → Type 0
unfolding IsEditable
IsComposeFile (node document value tag (entry root rest)) = IsEditable root × Each rest
IsComposeFile (node mapping value tag content) = IsEditable (node mapping value tag content)
IsComposeFile n = ⊥

if_given-IsEditable {ℓ} :
    {A : Type ℓ} (apply : A → Node → Result EditError Node) (o : Option A)
    → ((changes : A) (root : Node) → IsEditable root → Keeps IsEditable (apply changes root))
    → (root : Node) → IsEditable root
    → Keeps IsEditable (if_given apply o root)
unfolding Keeps
if_given-IsEditable apply none g root h = h
if_given-IsEditable apply (some changes) g root h = g changes root h

step {ℓ} :
    {A : Type ℓ} (apply : A → Node → Result EditError Node) (o : Option A)
    (rest : Node → Result EditError Node)
    → ((changes : A) (root : Node) → IsEditable root → Keeps IsEditable (apply changes root))
    → ((root : Node) → IsEditable root → Keeps IsEditable (rest root))
    → (root : Node) → IsEditable root
    → Keeps IsEditable (if_given apply o root >>= rest)
step apply o rest g k root h =
    Keeps-then IsEditable IsEditable (if_given apply o root) rest
      (if_given-IsEditable apply o g root h) k

apply_to_root-IsEditable :
    (c : ComposeChanges) (root : Node) → IsEditable root → Keeps IsEditable (apply_to_root c root)
unfolding apply_to_root
apply_to_root-IsEditable c =
    step apply_service_changes c.service_changes _ apply_service_changes-IsEditable (
      step apply_network_changes c.network_changes _ apply_network_changes-IsEditable (
        step apply_volume_changes c.volume_changes _ apply_volume_changes-IsEditable (
          step apply_secret_changes c.secret_changes _ apply_secret_changes-IsEditable (
            step apply_config_changes c.config_changes _ apply_config_changes-IsEditable (
              step apply_rename_services c.rename_services _ apply_rename_services-IsEditable (
                step apply_delete_services c.delete_services _ apply_delete_services-IsEditable (
                  if_given-IsEditable apply_add_services c.add_services
                    apply_add_services-IsEditable)))))))

checked_root-IsEditable :
    (c : ComposeChanges) (root : Node) → IsEditable root → Keeps IsEditable (checked_root c root)
unfolding checked_root IsEditable
checked_root-IsEditable c (node mapping value tag content) h =
    apply_to_root-IsEditable c (node mapping value tag content) h
checked_root-IsEditable c (node document value tag content) h = absurd h
checked_root-IsEditable c (node sequence value tag content) h = absurd h
checked_root-IsEditable c (node scalar value tag content) h = absurd h
checked_root-IsEditable c (node alias value tag content) h = absurd h

root-IsComposeFile : (r : Node) → IsEditable r → IsComposeFile r
unfolding IsComposeFile IsEditable
root-IsComposeFile (node mapping value tag content) h = h
root-IsComposeFile (node document value tag content) h = absurd h
root-IsComposeFile (node sequence value tag content) h = absurd h
root-IsComposeFile (node scalar value tag content) h = absurd h
root-IsComposeFile (node alias value tag content) h = absurd h

-- Whatever the changes, applying them to a compose file in which every mapping, at any depth, has a
-- value behind each key and the services, if there are any, are a mapping never indexes out of bounds:
-- the result is an error, or such a file again.
pub apply_changes-IsComposeFile :
    (c : ComposeChanges) (file : Node)
    → IsComposeFile file
    → Keeps IsComposeFile (apply_changes c file)
unfolding apply_changes IsComposeFile Keeps
apply_changes-IsComposeFile c (node document value tag (entry root rest)) (h, e) =
    Keeps-then IsEditable IsComposeFile (checked_root c root)
      (λ r. ok (node document value tag (entry r rest))) (checked_root-IsEditable c root h)
      (λ r p. (p, e))
apply_changes-IsComposeFile c (node mapping value tag content) h =
    Keeps_weaken IsEditable IsComposeFile (checked_root c (node mapping value tag content))
      root-IsComposeFile (checked_root-IsEditable c (node mapping value tag content) h)
apply_changes-IsComposeFile c (node document value tag end) h = absurd h
apply_changes-IsComposeFile c (node sequence value tag content) h = absurd h
apply_changes-IsComposeFile c (node scalar value tag content) h = absurd h
apply_changes-IsComposeFile c (node alias value tag content) h = absurd h
