-- ===== src/ComposeEditor/Services.antt =====
-- internal/composeeditor/service.go: changes of the services that a compose file has.
pub mod Sound
use berth_agent.Prelude.{Option, none, some, List, [], ◌∷◌, Result, ok, err, ◌>>=◌, Text, codes}
use berth_agent.ComposeEditor.Nodes.{
  mapping, sequence, Node, node, end, EditError, no_services, service_not_found, mapping_node,
  find_key, set_value, set_node, delete_key, at_key, convert_content,
}
use berth_agent.ComposeEditor.Config.{ChangeMap, ServiceChanges}
use berth_agent.ComposeEditor.Builders.{
  build_ports_node, build_volumes_node, build_command_node, build_depends_on_node,
  build_healthcheck_node, build_deploy_node, build_build_node, build_service_networks_node,
}

-- The conversion of a sequence in `applyEnvironmentChanges`.
as_mapping : Node → Node
as_mapping (node sequence value tag content) =
    node mapping value [] (convert_content content (codes "="))
as_mapping n = n

-- The loop over the changes, on the node of the variables.
set_entries : ChangeMap Text → Node → Result EditError Node
set_entries [] n = ok n
set_entries ((key, none) ∷ changes) n = delete_key n key >>= set_entries changes
set_entries ((key, some value) ∷ changes) n = set_entries changes (set_value n key value)

edit_entries : ChangeMap Text → Node → Result EditError Node
unfolding as_mapping set_entries
edit_entries changes n = set_entries changes (as_mapping n)

-- applyEnvironmentChanges with "environment", applyLabelsChanges with "labels"
pub apply_entry_changes : Text → ChangeMap Text → Node → Result EditError Node
unfolding edit_entries
apply_entry_changes key changes service = elim (find_key service key) [
  | some _ ↦ at_key (edit_entries changes) key service
  | none ↦ at_key (edit_entries changes) key (set_node service key (mapping_node end))
]

-- `if p != nil { s.setYamlNode(node, key, build(*p)) }`
abbrev set_given {ℓ} : {A : Type ℓ} → Text → (A → Node) → Option A → Node → Node
set_given key build none n = n
set_given key build (some a) n = set_node n key (build a)

-- `if p != nil { s.setYamlValue(node, key, *p) }`
abbrev value_given : Text → Option Text → Node → Node
value_given key none n = n
value_given key (some value) n = set_value n key value

abbrev entries_given : Text → Option (ChangeMap Text) → Node → Result EditError Node
entries_given key none n = ok n
entries_given key (some changes) n = apply_entry_changes key changes n

-- The body of the loop of `applyServiceChangesToYaml`, on the node of the service.
pub change_service : ServiceChanges → Node → Result EditError Node
unfolding apply_entry_changes
change_service c n₀ =
    let n₁ = value_given (codes "image") c.image n₀ in
    let n₂ = value_given (codes "restart") c.restart n₁ in
    let n₃ = set_given (codes "ports") build_ports_node c.ports n₂ in
    do
      n₄ ← entries_given (codes "environment") c.environment n₃
      let n₅ = set_given (codes "volumes") build_volumes_node c.volumes n₄
      let n₆ = set_given (codes "command") build_command_node c.command n₅
      let n₇ = set_given (codes "entrypoint") build_command_node c.entrypoint n₆
      n₈ ← entries_given (codes "labels") c.labels n₇
      let n₉ = set_given (codes "depends_on") build_depends_on_node c.depends_on n₈
      let n₁₀ = set_given (codes "healthcheck") build_healthcheck_node c.healthcheck n₉
      let n₁₁ = set_given (codes "deploy") build_deploy_node c.deploy n₁₀
      let n₁₂ = set_given (codes "build") build_build_node c.build n₁₁
      ok (set_given (codes "networks") build_service_networks_node c.networks n₁₂)

-- The loop, on the node of the services.
pub change_services : List (Text × ServiceChanges) → Node → Result EditError Node
change_services [] services = ok services
change_services ((name, c) ∷ changes) services = elim (find_key services name) [
  | none ↦ err (service_not_found name)
  | some _ ↦ at_key (change_service c) name services >>= change_services changes
]

-- applyServiceChangesToYaml
pub apply_service_changes : List (Text × ServiceChanges) → Node → Result EditError Node
unfolding change_services
apply_service_changes changes root = elim (find_key root (codes "services")) [
  | none ↦ err no_services
  | some _ ↦ at_key (change_services changes) (codes "services") root
]
