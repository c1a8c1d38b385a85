-- ===== src/ComposeEditor/Services/Sound.antt =====
-- internal/composeeditor/service.go: changes of services keep a value behind each key, and never panic.
use berth_agent.Prelude.{inl, inr, Option, none, some, List, [], ◌∷◌, Text, codes, Option-cases}
use berth_agent.ComposeEditor.Nodes.{
  document, mapping, sequence, scalar, alias, Node, node, end, mapping_node, find_key, set_value,
  set_node, delete_key, at_key,
}
use berth_agent.ComposeEditor.Nodes.Lookup.{Even}
use berth_agent.ComposeEditor.Nodes.Paired.{
  IsPaired, Each, Keeps, IsRefusal, Keeps-then, set_node-IsPaired, set_value-IsPaired,
  delete_key-IsPaired, at_key-IsPaired, Pairs-convert_content,
}
use berth_agent.ComposeEditor.Nodes.Editable.{
  services, IsServices, IsEditable, at_services, at_key-IsServices,
}
use berth_agent.ComposeEditor.Config.{ChangeMap, ServiceChanges}
use berth_agent.ComposeEditor.Builders.{
  build_ports_node, build_volumes_node, build_command_node, build_depends_on_node,
  build_healthcheck_node, build_deploy_node, build_build_node, build_service_networks_node,
}
use berth_agent.ComposeEditor.Builders.Paired.{
  build_ports_node-IsPaired, build_volumes_node-IsPaired, build_command_node-IsPaired,
  build_depends_on_node-IsPaired, build_healthcheck_node-IsPaired, build_deploy_node-IsPaired,
  build_build_node-IsPaired, build_service_networks_node-IsPaired,
}
use berth_agent.ComposeEditor.Services.{
  as_mapping, set_entries, edit_entries, apply_entry_changes, set_given, value_given, entries_given,
  change_service, change_services, apply_service_changes,
}

as_mapping-IsPaired : (n : Node) → IsPaired n → IsPaired (as_mapping n)
unfolding as_mapping IsPaired
as_mapping-IsPaired (node sequence value tag content) h = Pairs-convert_content content (codes "=")
as_mapping-IsPaired (node document value tag content) h = h
as_mapping-IsPaired (node mapping value tag content) h = h
as_mapping-IsPaired (node scalar value tag content) h = h
as_mapping-IsPaired (node alias value tag content) h = h

set_entries-IsPaired :
    (changes : ChangeMap Text) (n : Node) → IsPaired n → Keeps IsPaired (set_entries changes n)
unfolding set_entries Keeps
set_entries-IsPaired [] n h = h
set_entries-IsPaired ((key, none) ∷ changes) n h =
    Keeps-then IsPaired IsPaired (delete_key n key) (set_entries changes)
      (delete_key-IsPaired n key h) (set_entries-IsPaired changes)
set_entries-IsPaired ((key, some value) ∷ changes) n h =
    set_entries-IsPaired changes (set_value n key value) (set_value-IsPaired n key value h)

edit_entries-IsPaired :
    (changes : ChangeMap Text) (n : Node) → IsPaired n → Keeps IsPaired (edit_entries changes n)
unfolding edit_entries
edit_entries-IsPaired changes n h =
    set_entries-IsPaired changes (as_mapping n) (as_mapping-IsPaired n h)

mapping_end-IsPaired : IsPaired (mapping_node end)
unfolding IsPaired Even Each
mapping_end-IsPaired = (tt, tt)

apply_entry_changes-IsPaired :
    (key : Text) (changes : ChangeMap Text) (n : Node)
    → IsPaired n
    → Keeps IsPaired (apply_entry_changes key changes n)
unfolding apply_entry_changes
apply_entry_changes-IsPaired key changes n h = elim (Option-cases (find_key n key)) [
  | inl absent ↦
      rw (absent, apply_entry_changes)
        (at_key-IsPaired (edit_entries changes) key (set_node n key (mapping_node end))
          (edit_entries-IsPaired changes)
          (set_node-IsPaired n key (mapping_node end) h mapping_end-IsPaired))
  | inr (v, found) ↦
      rw (found, apply_entry_changes)
        (at_key-IsPaired (edit_entries changes) key n (edit_entries-IsPaired changes) h)
]

set_given-IsPaired {ℓ} :
    {A : Type ℓ} (key : Text) (build : A → Node) (o : Option A) (n : Node)
    → ((a : A) → IsPaired (build a))
    → IsPaired n
    → IsPaired (set_given key build o n)
set_given-IsPaired key build none n b h = h
set_given-IsPaired key build (some a) n b h = set_node-IsPaired n key (build a) h (b a)

value_given-IsPaired :
    (key : Text) (o : Option Text) (n : Node) → IsPaired n → IsPaired (value_given key o n)
value_given-IsPaired key none n h = h
value_given-IsPaired key (some value) n h = set_value-IsPaired n key value h

entries_given-IsPaired :
    (key : Text) (o : Option (ChangeMap Text)) (n : Node)
    → IsPaired n
    → Keeps IsPaired (entries_given key o n)
unfolding Keeps
entries_given-IsPaired key none n h = h
entries_given-IsPaired key (some changes) n h = apply_entry_changes-IsPaired key changes n h

change_service-IsPaired :
    (c : ServiceChanges) (n : Node) → IsPaired n → Keeps IsPaired (change_service c n)
unfolding change_service Keeps
change_service-IsPaired c n h =
    Keeps-then IsPaired IsPaired _ _
      (entries_given-IsPaired (codes "environment") c.environment _ (
        set_given-IsPaired (codes "ports") build_ports_node c.ports _ build_ports_node-IsPaired (
          value_given-IsPaired (codes "restart") c.restart _
            (value_given-IsPaired (codes "image") c.image n h))))
      (λ n₄ h₄.
        Keeps-then IsPaired IsPaired _ _
          (entries_given-IsPaired (codes "labels") c.labels _ (
            set_given-IsPaired (codes "entrypoint") build_command_node c.entrypoint _
              build_command_node-IsPaired
              (set_given-IsPaired (codes "command") build_command_node c.command _
                build_command_node-IsPaired
                (set_given-IsPaired (codes "volumes") build_volumes_node c.volumes n₄
                  build_volumes_node-IsPaired h₄))))
          (λ n₈ h₈.
            set_given-IsPaired (codes "networks") build_service_networks_node c.networks _
              build_service_networks_node-IsPaired
              (set_given-IsPaired (codes "build") build_build_node c.build _
                build_build_node-IsPaired
                (set_given-IsPaired (codes "deploy") build_deploy_node c.deploy _
                  build_deploy_node-IsPaired
                  (set_given-IsPaired (codes "healthcheck") build_healthcheck_node c.healthcheck _
                    build_healthcheck_node-IsPaired
                    (set_given-IsPaired (codes "depends_on") build_depends_on_node c.depends_on n₈
                      build_depends_on_node-IsPaired h₈))))))

change_services-IsServices :
    (changes : List (Text × ServiceChanges)) (n : Node)
    → IsServices n
    → Keeps IsServices (change_services changes n)
unfolding Keeps IsRefusal change_services
change_services-IsServices [] n h = h
change_services-IsServices ((name, c) ∷ changes) n h = elim (Option-cases (find_key n name)) [
  | inl absent ↦ rw (absent, change_services) tt
  | inr (v, found) ↦
      rw (found, change_services)
        (Keeps-then IsServices IsServices (at_key (change_service c) name n)
          (change_services changes)
          (at_key-IsServices (change_service c) name n (change_service-IsPaired c) h)
          (change_services-IsServices changes))
]

pub apply_service_changes-IsEditable :
    (changes : List (Text × ServiceChanges)) (root : Node)
    → IsEditable root
    → Keeps IsEditable (apply_service_changes changes root)
unfolding apply_service_changes Keeps IsRefusal
apply_service_changes-IsEditable changes root h = elim (Option-cases (find_key root services)) [
  | inl absent ↦ rw (absent, apply_service_changes) tt
  | inr (s, found) ↦
      rw (found, apply_service_changes)
        (at_services (change_services changes) root s h found (change_services-IsServices changes))
]
