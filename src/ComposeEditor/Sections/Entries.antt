-- ===== src/ComposeEditor/Sections/Entries.antt =====
-- internal/composeeditor/section_handlers.go: a section after its changes, as a map.
use berth_agent.Prelude.{◌≡◌, refl, Option, none, some, [], ◌∷◌, ok, Text, text_eq, if◌then◌else◌}
use berth_agent.ComposeEditor.Nodes.{
  mapping, Node, node, Nodes, find_pair, find_key, put_pair, set_node, delete_key,
}
use berth_agent.ComposeEditor.Nodes.Lookup.{
  Even, Distinct, found_or, find_pair-put_pair, Even-put_pair, Distinct-put_pair, delete_pair_lem,
}
use berth_agent.ComposeEditor.Config.{ChangeMap}
use berth_agent.ComposeEditor.Sections.{apply_entries}

-- A mapping in which every key has a value and none comes twice.
unfoldable pub IsMap : Node → Type 0
IsMap (node mapping value tag content) = Even content × Distinct content
IsMap n = ⊥

found_or_same : (new : Node) (o : Option Node) → found_or (λ _. new) new o ≡ new
unfolding found_or
found_or_same new none = refl
found_or_same new (some n) = refl

-- The changes of a section on a finite map: a nil pointer takes a name out, any other sets it.
module _ {A : Type 0} (build : A → Node) where
  unfoldable pub edited : ChangeMap A → (Text → Option Node) → Text → Option Node
  edited [] m = m
  edited ((name, none) ∷ changes) m =
      edited changes (λ other. if text_eq name other then none else m other)
  edited ((name, some cfg) ∷ changes) m =
      edited changes (λ other. if text_eq name other then some (build cfg) else m other)

  -- A section whose content is the finite map `m`.
  pub record Edits (changes : ChangeMap A) (section : Node) (m : Text → Option Node) : Type 0 where
    pub section' : Node
    pub done : apply_entries build changes section ≡ ok section'
    pub is_map : IsMap section'
    pub found : (name : Text) → find_key section' name ≡ edited changes m name

  pub apply_entries_lem :
      (changes : ChangeMap A) (value tag : Text) (content : Nodes) (m : Text → Option Node)
      → Even content
      → Distinct content
      → ((name : Text) → find_pair content name ≡ m name)
      → Edits changes (node mapping value tag content) m
  unfolding apply_entries edited delete_key set_node
  apply_entries_lem [] value tag content m even distinct h = record {
    section' = node mapping value tag content;
    done = refl;
    is_map = unfold IsMap in (even, distinct);
    found = unfold find_key in h;
  }
  apply_entries_lem ((name, none) ∷ changes) value tag content m even distinct h =
      let d = delete_pair_lem name content even in
      let later =
        apply_entries_lem changes value tag d.rest
          (λ other. if text_eq name other then none else m other) d.even (d.distinct distinct)
          (λ other. rw (d.found distinct other, h other)) in
      record {
        section' = later.section';
        done = rw d.done later.done;
        is_map = later.is_map;
        found = later.found;
      }
  apply_entries_lem ((name, some cfg) ∷ changes) value tag content m even distinct h =
      let new = build cfg in
      let later =
        apply_entries_lem changes value tag (put_pair (λ _. new) new name content)
          (λ other. if text_eq name other then some new else m other)
          (Even-put_pair (λ _. new) new name content even)
          (Distinct-put_pair (λ _. new) new name content even distinct)
          (λ other. rw (
            find_pair-put_pair (λ _. new) new name other content even,
            h other,
            found_or_same new,
          )) in
      record {
        section' = later.section';
        done = later.done;
        is_map = later.is_map;
        found = later.found;
      }
