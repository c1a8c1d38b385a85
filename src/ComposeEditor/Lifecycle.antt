-- ===== src/ComposeEditor/Lifecycle.antt =====
-- internal/composeeditor/service_lifecycle.go: services that are renamed, deleted and added.
pub mod Sound
pub mod Renamed
pub mod Dependencies
use berth_agent.Prelude.{
  Bool, false, not, ◌||◌, none, some, List, [], ◌∷◌, Result, ok, err, ◌>>=◌, ◌>>◌, check, Text,
  codes, text_eq, if◌then◌else◌,
}
use berth_agent.ComposeEditor.Nodes.{
  mapping, sequence, Node, node, Nodes, end, entry, EditError, no_services, panicked,
  service_not_found, service_exists, mapping_node, value_of, behind, find_key, set_node, delete_key,
  at_key,
}
use berth_agent.ComposeEditor.Config.{TextMap, NewServiceConfig}
use berth_agent.ComposeEditor.Builders.Sections.{build_new_service_node}

-- Whether an element at an even place has this value.
pub has_name : Text → Nodes → Bool
has_name name end = false
has_name name (entry k end) = text_eq (value_of k) name
has_name name (entry k (entry v rest)) = text_eq (value_of k) name || has_name name rest

abbrev pub renamed : Text → Node → Node
renamed name (node kind value tag content) = node kind name tag content

-- `servicesNode.Content[i].Value = newName`, at the first place with the old name.
pub rename_name : Text → Text → Nodes → Nodes
rename_name old new end = end
rename_name old new (entry k end) =
    if text_eq (value_of k) old then entry (renamed new k) end else entry k end
rename_name old new (entry k (entry v rest)) =
    if text_eq (value_of k) old
    then entry (renamed new k) (entry v rest)
    else entry k (entry v (rename_name old new rest))

abbrev renamed_if : Text → Text → Node → Node
renamed_if old new n = if text_eq (value_of n) old then renamed new n else n

-- The loops over a `depends_on` mapping, at the even places, and over a sequence.
pub rename_pairs : Text → Text → Nodes → Nodes
rename_pairs old new end = end
rename_pairs old new (entry k end) = entry (renamed_if old new k) end
rename_pairs old new (entry k (entry v rest)) =
    entry (renamed_if old new k) (entry v (rename_pairs old new rest))

pub rename_items : Text → Text → Nodes → Nodes
rename_items old new end = end
rename_items old new (entry n rest) = entry (renamed_if old new n) (rename_items old new rest)

pub rename_dependency : Text → Text → Node → Result EditError Node
unfolding rename_pairs rename_items
rename_dependency old new (node mapping value tag content) =
    ok (node mapping value tag (rename_pairs old new content))
rename_dependency old new (node sequence value tag content) =
    ok (node sequence value tag (rename_items old new content))
rename_dependency old new n = ok n

-- The body of the loop over the services; a service that is no mapping is passed over.
pub rename_in_service : Text → Text → Node → Result EditError Node
unfolding rename_dependency
rename_in_service old new (node mapping value tag content) =
    at_key (rename_dependency old new) (codes "depends_on") (node mapping value tag content)
rename_in_service old new n = ok n

-- That loop. The last element has no value behind it if their number is odd.
pub rename_in_services : Text → Text → Nodes → Result EditError Nodes
unfolding rename_in_service
rename_in_services old new end = ok end
rename_in_services old new (entry k end) = err panicked
rename_in_services old new (entry k (entry v rest)) =
    let later = rename_in_services old new rest in
    rename_in_service old new v >>= λ v'. behind k v' later

-- The body of the loop over the renames, on the elements of the services.
pub rename_service : Text → Text → Nodes → Result EditError Nodes
unfolding has_name rename_name rename_in_services
rename_service old new content = do
  check (has_name old content) (service_not_found old)
  check (not (has_name new content)) (service_exists new)
  rename_in_services old new (rename_name old new content)

rename_content : TextMap → Nodes → Result EditError Nodes
unfolding rename_service
rename_content [] content = ok content
rename_content ((old, new) ∷ renames) content =
    rename_service old new content >>= rename_content renames

pub rename_services : TextMap → Node → Result EditError Node
unfolding rename_content
rename_services renames (node kind value tag content) = do
  content' ← rename_content renames content
  ok (node kind value tag content')

-- applyRenameServicesToYaml
pub apply_rename_services : TextMap → Node → Result EditError Node
unfolding rename_services
apply_rename_services renames root = elim (find_key root (codes "services")) [
  | none ↦ err no_services
  | some _ ↦ at_key (rename_services renames) (codes "services") root
]

pub delete_services : List Text → Node → Result EditError Node
delete_services [] services = ok services
delete_services (name ∷ deletes) services = delete_key services name >>= delete_services deletes

-- applyDeleteServicesToYaml
pub apply_delete_services : List Text → Node → Result EditError Node
unfolding delete_services
apply_delete_services deletes root = elim (find_key root (codes "services")) [
  | none ↦ err no_services
  | some _ ↦ at_key (delete_services deletes) (codes "services") root
]

pub add_services : List (Text × NewServiceConfig) → Node → Result EditError Node
add_services [] services = ok services
add_services ((name, cfg) ∷ added) services = elim (find_key services name) [
  | some _ ↦ err (service_exists name)
  | none ↦ add_services added (set_node services name (build_new_service_node cfg))
]

-- applyAddServicesToYaml
pub apply_add_services : List (Text × NewServiceConfig) → Node → Result EditError Node
unfolding add_services
apply_add_services added root = elim (find_key root (codes "services")) [
  | some _ ↦ at_key (add_services added) (codes "services") root
  | none ↦
      at_key (add_services added) (codes "services")
        (set_node root (codes "services") (mapping_node end))
]
