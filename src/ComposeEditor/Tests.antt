-- ===== src/ComposeEditor/Tests.antt =====
-- internal/composeeditor: runs at concrete inputs.
use berth_agent.ComposeEditor.Layout.{
  add_blank_lines, split_lines, space_lines, join_lines, is_service_line, behind_letter,
}
use berth_agent.ComposeEditor.Layout.Idempotent.{full_lines, add_blank_lines_idempotent}
use berth_agent.StackNames.{is_alphanumeric}
use berth_agent.Prelude.{has_prefix, ◌++◌}
use berth_agent.Prelude.{◌≡◌, refl, false, none, some, [], ◌∷◌, ok, Text, codes, text_eq}
use berth_agent.ComposeEditor.Nodes.{
  find_pair, document, Node, node, Nodes, end, entry, mapping_node, sequence_node, scalar_node,
  null_node, find_key,
}
use berth_agent.ComposeEditor.Nodes.Lookup.{Even, Distinct}
use berth_agent.ComposeEditor.Nodes.Paired.{IsPaired, Each, Pairs, Keeps}
use berth_agent.ComposeEditor.Nodes.Editable.{IsEditable, IsMappingOrAbsent}
use berth_agent.ComposeEditor.Config.{ChangeMap, NetworkConfig, NewServiceConfig, ComposeChanges}
use berth_agent.ComposeEditor.Builders.Sections.{build_network_config_node}
use berth_agent.ComposeEditor.Sections.{apply_section}
use berth_agent.ComposeEditor.Sections.Entries.{IsMap}
use berth_agent.ComposeEditor.Sections.Edited.{
  entry_of, HasValues, IsMapOrAbsent, IsEdited, apply_section_lem, apply_section_lost,
}
use berth_agent.ComposeEditor.Lifecycle.{rename_service}
use berth_agent.ComposeEditor.Lifecycle.Renamed.{RenameOutcome, rename_service-RenameOutcome}
use berth_agent.ComposeEditor.Document.{apply_changes}
use berth_agent.ComposeEditor.Document.Sound.{IsComposeFile, apply_changes-IsComposeFile}

-- A pair of a mapping.
abbrev pair : Text → Node → Nodes → Nodes
pair key value rest = entry (scalar_node key) (entry value rest)

abbrev sample_services : Nodes
sample_services =
    pair (codes "web")
      (mapping_node
        (pair (codes "depends_on") (sequence_node (entry (scalar_node (codes "db")) end)) end))
      (pair (codes "db") (mapping_node (pair (codes "image") (scalar_node (codes "postgres")) end))
        end)

abbrev sample_networks : Nodes
sample_networks = pair (codes "front") null_node (pair (codes "back") null_node end)

abbrev sample_root : Node
sample_root = mapping_node (
    pair (codes "services") (mapping_node sample_services)
      (pair (codes "networks") (mapping_node sample_networks) end))

abbrev bridge : NetworkConfig
bridge = record {
  driver = codes "bridge";
  driver_opts = [];
  external = false;
  name = [];
  labels = [];
  ipam = none;
}

abbrev sample_network_changes : ChangeMap NetworkConfig
sample_network_changes = (codes "front", none) ∷ (codes "lan", some bridge) ∷ []

abbrev cache_service : NewServiceConfig
cache_service = record {
  image = codes "redis";
  ports = [];
  environment = [];
  volumes = [];
  restart = codes "always";
}

abbrev sample_changes : ComposeChanges
sample_changes = record {
  service_changes = none;
  network_changes = some sample_network_changes;
  volume_changes = none;
  secret_changes = none;
  config_changes = none;
  add_services = some ((codes "cache", cache_service) ∷ []);
  delete_services = some (codes "web" ∷ []);
  rename_services = some ((codes "db", codes "store") ∷ []);
}

abbrev sample_file : Node
sample_file = node document [] [] (entry sample_root end)

sample_root-HasValues : HasValues sample_root
unfolding HasValues Even
sample_root-HasValues = tt

sample_section-IsMapOrAbsent : IsMapOrAbsent (find_key sample_root (codes "networks"))
unfolding IsMapOrAbsent IsMap Even Distinct find_key find_pair text_eq
sample_section-IsMapOrAbsent = (tt, (refl, (refl, tt)))

apply_section_lem_example :
    IsEdited build_network_config_node
      (codes "networks")
      sample_network_changes
      sample_root
      (entry_of (codes "networks") sample_root)
      (apply_section build_network_config_node
        (codes "networks")
        sample_network_changes
        sample_root)
apply_section_lem_example =
    apply_section_lem build_network_config_node (codes "networks") sample_network_changes
      sample_root sample_root-HasValues sample_section-IsMapOrAbsent

-- A document whose networks are null.
abbrev null_networks : Node
null_networks = mapping_node (pair (codes "networks") null_node end)

null_networks_found : find_key null_networks (codes "networks") ≡ some null_node
unfolding find_key text_eq
null_networks_found = refl

apply_section_lost_example :
    apply_section build_network_config_node (codes "networks") sample_network_changes null_networks
    ≡ ok null_networks
apply_section_lost_example =
    apply_section_lost build_network_config_node (codes "networks") sample_network_changes
      null_networks null_node refl null_networks_found refl

sample_services-Pairs : Pairs sample_services
unfolding Even Each IsPaired
sample_services-Pairs = (tt, (tt, ((tt, (tt, ((tt, tt), tt))), (tt, ((tt, (tt, (tt, tt))), tt)))))

sample_services-Distinct : Distinct sample_services
unfolding Distinct find_pair text_eq
sample_services-Distinct = (refl, (refl, tt))

rename_service-RenameOutcome_example :
    RenameOutcome
      (codes "db")
      (codes "store")
      sample_services
      (rename_service (codes "db") (codes "store") sample_services)
rename_service-RenameOutcome_example =
    rename_service-RenameOutcome (codes "db") (codes "store") sample_services sample_services-Pairs
      sample_services-Distinct

sample_file-IsComposeFile : IsComposeFile sample_file
unfolding IsComposeFile IsEditable IsMappingOrAbsent IsPaired Each Even find_pair text_eq
sample_file-IsComposeFile =
    ((refl, (tt, (tt, (sample_services-Pairs, (tt, ((tt, (tt, (tt, (tt, (tt, tt))))), tt)))))), tt)

apply_changes-IsComposeFile_example : Keeps IsComposeFile (apply_changes sample_changes sample_file)
apply_changes-IsComposeFile_example =
    apply_changes-IsComposeFile sample_changes sample_file sample_file-IsComposeFile

abbrev sample_yaml : Text
sample_yaml =
    codes "services:"
    ++ (10 ∷ codes "  web:" ++ (10 ∷ codes "    image: a" ++ (10 ∷ codes "  db:" ++ (10 ∷ []))))

add_blank_lines_idempotent_example :
    (add_blank_lines (add_blank_lines sample_yaml) ≡ add_blank_lines sample_yaml)
    × (full_lines (split_lines (add_blank_lines sample_yaml))
        ≡ full_lines (split_lines sample_yaml))
add_blank_lines_idempotent_example = add_blank_lines_idempotent sample_yaml

abbrev spaced_yaml : Text
spaced_yaml =
    codes "services:"
    ++ (10 ∷ 10 ∷ codes "  web:"
        ++ (10 ∷ codes "    image: a" ++ (10 ∷ 10 ∷ codes "  db:" ++ (10 ∷ []))))

sample_spaced : add_blank_lines sample_yaml ≡ spaced_yaml
unfolding add_blank_lines split_lines space_lines join_lines is_service_line behind_letter
    has_prefix text_eq is_alphanumeric
sample_spaced = refl
