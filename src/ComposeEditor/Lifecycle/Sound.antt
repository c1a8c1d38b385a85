-- ===== src/ComposeEditor/Lifecycle/Sound.antt =====
-- internal/composeeditor/service_lifecycle.go: renames, deletions and additions never panic.
use berth_agent.Prelude.{
  refl, inl, inr, List, [], ◌∷◌, ok, Text, codes, text_eq, Bool-cases, Option-cases,
}
use berth_agent.Prelude.{Option-cases}
use berth_agent.ComposeEditor.Nodes.{
  document, mapping, sequence, scalar, alias, Node, node, Nodes, end, entry, mapping_node, value_of,
  behind, find_key, set_node, delete_key,
}
use berth_agent.ComposeEditor.Nodes.Lookup.{Even}
use berth_agent.ComposeEditor.Nodes.Paired.{
  IsPaired, Each, Pairs, Keeps, IsRefusal, Keeps-then, Keeps-behind, at_key-IsPaired,
}
use berth_agent.ComposeEditor.Nodes.Editable.{
  services, IsServices, IsEditable, at_services, set_services, set_node-IsServices,
  delete_key-IsServices,
}
use berth_agent.ComposeEditor.Config.{TextMap, NewServiceConfig}
use berth_agent.ComposeEditor.Builders.Sections.{build_new_service_node}
use berth_agent.ComposeEditor.Builders.Sections.Paired.{build_new_service_node-IsPaired}
use berth_agent.ComposeEditor.Lifecycle.{
  has_name, renamed, rename_name, renamed_if, rename_pairs, rename_items, rename_dependency,
  rename_in_service, rename_in_services, rename_service, rename_content, rename_services,
  apply_rename_services, delete_services, apply_delete_services, add_services, apply_add_services,
}

renamed-IsPaired : (name : Text) (n : Node) → IsPaired n → IsPaired (renamed name n)
unfolding IsPaired
renamed-IsPaired name (node mapping value tag content) h = h
renamed-IsPaired name (node document value tag content) h = h
renamed-IsPaired name (node sequence value tag content) h = h
renamed-IsPaired name (node scalar value tag content) h = h
renamed-IsPaired name (node alias value tag content) h = h

pub rename_name-Pairs :
    (old new : Text) (content : Nodes) → Pairs content → Pairs (rename_name old new content)
unfolding rename_name Even IsPaired Each
rename_name-Pairs old new end h = h
rename_name-Pairs old new (entry k end) h = absurd h.0
rename_name-Pairs old new (entry k (entry v rest)) (e, (pk, (pv, h))) =
    elim (Bool-cases (text_eq (value_of k) old)) [
      | inl same ↦ rw same (e, (renamed-IsPaired new k pk, (pv, h)))
      | inr differs ↦
          rw differs (let (a, b) = rename_name-Pairs old new rest (e, h) in (a, (pk, (pv, b))))
    ]

renamed_if-IsPaired : (old new : Text) (n : Node) → IsPaired n → IsPaired (renamed_if old new n)
renamed_if-IsPaired old new n h = elim (Bool-cases (text_eq (value_of n) old)) [
  | inl same ↦ rw same (renamed-IsPaired new n h)
  | inr differs ↦ rw differs h
]

rename_pairs-Pairs :
    (old new : Text) (content : Nodes) → Pairs content → Pairs (rename_pairs old new content)
unfolding rename_pairs Even IsPaired Each
rename_pairs-Pairs old new end h = h
rename_pairs-Pairs old new (entry k end) h = absurd h.0
rename_pairs-Pairs old new (entry k (entry v rest)) (e, (pk, (pv, h))) =
    let (a, b) = rename_pairs-Pairs old new rest (e, h) in
    (a, (renamed_if-IsPaired old new k pk, (pv, b)))

rename_items-Each :
    (old new : Text) (content : Nodes) → Each content → Each (rename_items old new content)
unfolding rename_items Each
rename_items-Each old new end h = h
rename_items-Each old new (entry n rest) (p, h) =
    (renamed_if-IsPaired old new n p, rename_items-Each old new rest h)

rename_dependency-IsPaired :
    (old new : Text) (n : Node) → IsPaired n → Keeps IsPaired (rename_dependency old new n)
unfolding rename_dependency IsPaired Keeps
rename_dependency-IsPaired old new (node mapping value tag content) h =
    rename_pairs-Pairs old new content h
rename_dependency-IsPaired old new (node sequence value tag content) h =
    rename_items-Each old new content h
rename_dependency-IsPaired old new (node document value tag content) h = h
rename_dependency-IsPaired old new (node scalar value tag content) h = h
rename_dependency-IsPaired old new (node alias value tag content) h = h

rename_in_service-IsPaired :
    (old new : Text) (n : Node) → IsPaired n → Keeps IsPaired (rename_in_service old new n)
unfolding rename_in_service Keeps
rename_in_service-IsPaired old new (node mapping value tag content) h =
    at_key-IsPaired (rename_dependency old new) (codes "depends_on")
      (node mapping value tag content) (rename_dependency-IsPaired old new) h
rename_in_service-IsPaired old new (node document value tag content) h = h
rename_in_service-IsPaired old new (node sequence value tag content) h = h
rename_in_service-IsPaired old new (node scalar value tag content) h = h
rename_in_service-IsPaired old new (node alias value tag content) h = h

pub rename_in_services-Pairs :
    (old new : Text) (content : Nodes)
    → Pairs content
    → Keeps Pairs (rename_in_services old new content)
unfolding rename_in_services Even IsPaired Each Keeps
rename_in_services-Pairs old new end h = h
rename_in_services-Pairs old new (entry k end) h = h.0
rename_in_services-Pairs old new (entry k (entry v rest)) (e, (pk, (pv, h))) =
    Keeps-then IsPaired Pairs (rename_in_service old new v)
      (λ v'. behind k v' (rename_in_services old new rest))
      (rename_in_service-IsPaired old new v pv)
      (λ v' p.
        Keeps-behind k v' (rename_in_services old new rest) pk p
          (rename_in_services-Pairs old new rest (e, h)))

rename_service-Pairs :
    (old new : Text) (content : Nodes)
    → Pairs content
    → Keeps Pairs (rename_service old new content)
unfolding rename_service Keeps IsRefusal
rename_service-Pairs old new content h = elim (Bool-cases (has_name old content)) [
  | inl here ↦ elim (Bool-cases (has_name new content)) [
    | inl taken ↦ rw (here, taken) tt
    | inr free ↦
        rw (here, free)
          (rename_in_services-Pairs old new (rename_name old new content)
            (rename_name-Pairs old new content h))
  ]
  | inr absent ↦ rw absent tt
]

rename_content-Pairs :
    (renames : TextMap) (content : Nodes)
    → Pairs content
    → Keeps Pairs (rename_content renames content)
unfolding rename_content Keeps
rename_content-Pairs [] content h = h
rename_content-Pairs ((old, new) ∷ renames) content h =
    Keeps-then Pairs Pairs (rename_service old new content) (rename_content renames)
      (rename_service-Pairs old new content h) (rename_content-Pairs renames)

rename_services-IsServices :
    (renames : TextMap) (n : Node) → IsServices n → Keeps IsServices (rename_services renames n)
unfolding rename_services Keeps IsPaired
rename_services-IsServices renames (node mapping value tag content) (m, h) =
    Keeps-then Pairs IsServices (rename_content renames content)
      (λ c. ok (node mapping value tag c)) (rename_content-Pairs renames content h)
      (λ c p. (refl, p))
rename_services-IsServices renames (node document value tag content) (m, h) = absurd (cc)
rename_services-IsServices renames (node sequence value tag content) (m, h) = absurd (cc)
rename_services-IsServices renames (node scalar value tag content) (m, h) = absurd (cc)
rename_services-IsServices renames (node alias value tag content) (m, h) = absurd (cc)

pub apply_rename_services-IsEditable :
    (renames : TextMap) (root : Node)
    → IsEditable root
    → Keeps IsEditable (apply_rename_services renames root)
unfolding apply_rename_services Keeps IsRefusal
apply_rename_services-IsEditable renames root h = elim (Option-cases (find_key root services)) [
  | inl absent ↦ rw (absent, apply_rename_services) tt
  | inr (s, found) ↦
      rw (found, apply_rename_services)
        (at_services (rename_services renames) root s h found (rename_services-IsServices renames))
]

delete_services-IsServices :
    (deletes : List Text) (n : Node) → IsServices n → Keeps IsServices (delete_services deletes n)
unfolding delete_services Keeps
delete_services-IsServices [] n h = h
delete_services-IsServices (name ∷ deletes) n h =
    Keeps-then IsServices IsServices (delete_key n name) (delete_services deletes)
      (delete_key-IsServices n name h) (delete_services-IsServices deletes)

pub apply_delete_services-IsEditable :
    (deletes : List Text) (root : Node)
    → IsEditable root
    → Keeps IsEditable (apply_delete_services deletes root)
unfolding apply_delete_services Keeps IsRefusal
apply_delete_services-IsEditable deletes root h = elim (Option-cases (find_key root services)) [
  | inl absent ↦ rw (absent, apply_delete_services) tt
  | inr (s, found) ↦
      rw (found, apply_delete_services)
        (at_services (delete_services deletes) root s h found (delete_services-IsServices deletes))
]

add_services-IsServices :
    (added : List (Text × NewServiceConfig)) (n : Node)
    → IsServices n
    → Keeps IsServices (add_services added n)
unfolding add_services Keeps IsRefusal
add_services-IsServices [] n h = h
add_services-IsServices ((name, cfg) ∷ added) n h = elim (Option-cases (find_key n name)) [
  | inl absent ↦
      rw (absent, add_services)
        (add_services-IsServices added (set_node n name (build_new_service_node cfg)) (
          set_node-IsServices n name (build_new_service_node cfg) h
            (build_new_service_node-IsPaired cfg)))
  | inr (s, found) ↦ rw (found, add_services) tt
]

pub apply_add_services-IsEditable :
    (added : List (Text × NewServiceConfig)) (root : Node)
    → IsEditable root
    → Keeps IsEditable (apply_add_services added root)
unfolding apply_add_services Keeps IsRefusal
apply_add_services-IsEditable added root h = elim (Option-cases (find_key root services)) [
  | inl absent ↦
      let (h', found) = set_services root h absent in
      rw (absent, apply_add_services)
        (at_services (add_services added) (set_node root services (mapping_node end))
          (mapping_node end) h' found (add_services-IsServices added))
  | inr (s, found) ↦
      rw (found, apply_add_services)
        (at_services (add_services added) root s h found (add_services-IsServices added))
]
