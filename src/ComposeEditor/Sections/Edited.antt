-- ===== src/ComposeEditor/Sections/Edited.antt =====
-- internal/composeeditor/section_handlers.go: a document after the changes of one of its sections.
use berth_agent.Prelude.{
  subst, ◌≡◌, refl, ap, sym, ◌∙◌, inl, inr, true, false, Option, none, some, [], ◌∷◌, arith, Result,
  ok, Text, text_eq, text_eq_iff, if◌then◌else◌, Bool-cases, Option-cases,
}
use berth_agent.Prelude.{Bool-cases, Option-cases}
use berth_agent.ComposeEditor.Nodes.{
  document, mapping, sequence, scalar, alias, is_mapping, delete_key, Node, node, Nodes, end,
  EditError, mapping_node, find_pair, find_key, put_pair, set_node, at_key,
}
use berth_agent.ComposeEditor.Nodes.Lookup.{
  Even, Distinct, found_or, find_pair-put_pair, Even-put_pair, at_pair_lem, at_pair_total,
  at_pair_same,
}
use berth_agent.ComposeEditor.Config.{ChangeMap}
use berth_agent.ComposeEditor.Sections.{has_additions, apply_entries, apply_section}
use berth_agent.ComposeEditor.Sections.Entries.{IsMap, edited, apply_entries_lem}

-- What stands under a name in a section, if both are there.
pub entry_of : Text → Node → Text → Option Node
unfolding found_or
entry_of key root name = found_or (λ section. find_key section name) none (find_key root key)

entry_of_found :
    (key : Text) (root section : Node)
    → find_key root key ≡ some section
    → (name : Text) → entry_of key root name ≡ find_key section name
unfolding entry_of found_or
entry_of_found key root section found name = rw found refl

entry_of_absent :
    (key : Text) (root : Node)
    → find_key root key ≡ none
    → (name : Text) → entry_of key root name ≡ none
unfolding entry_of found_or
entry_of_absent key root absent name = rw absent refl

-- A mapping in which every key has a value.
unfoldable pub HasValues : Node → Type 0
HasValues (node mapping value tag content) = Even content
HasValues n = ⊥

-- A section that is absent, or a mapping in which every key has a value and none comes twice.
unfoldable pub IsMapOrAbsent : Option Node → Type 0
unfolding IsMap
IsMapOrAbsent none = Unit {0}
IsMapOrAbsent (some section) = IsMap section

delete_key_other : (n : Node) (key : Text) → is_mapping n ≡ false → delete_key n key ≡ ok n
unfolding delete_key
delete_key_other (node document value tag content) key h = refl
delete_key_other (node sequence value tag content) key h = refl
delete_key_other (node scalar value tag content) key h = refl
delete_key_other (node alias value tag content) key h = refl
delete_key_other (node mapping value tag content) key h = absurd (cc)

set_node_other :
    (n : Node) (key : Text) (new : Node) → is_mapping n ≡ false → set_node n key new ≡ n
unfolding set_node
set_node_other (node document value tag content) key new h = refl
set_node_other (node sequence value tag content) key new h = refl
set_node_other (node scalar value tag content) key new h = refl
set_node_other (node alias value tag content) key new h = refl
set_node_other (node mapping value tag content) key new h = absurd (cc)

module _ {A : Type 0} (build : A → Node) (key : Text) where
  -- The document has the changes in its section, and all else as before.
  pub record IsEdited (changes : ChangeMap A) (root : Node) (m : Text → Option Node)
      (r : Result EditError Node) : Type 0 where
    pub root' : Node
    pub done : r ≡ ok root'
    pub here : (name : Text) → entry_of key root' name ≡ edited build changes m name
    pub others :
        (other : Text)
        → find_key root' other
          ≡ (if text_eq key other then find_key root' key else find_key root other)

  at_section_lem :
      (changes : ChangeMap A) (value tag : Text) (content : Nodes) (section : Node)
      (m : Text → Option Node)
      → Even content
      → find_pair content key ≡ some section
      → IsMap section
      → ((name : Text) → find_key section name ≡ m name)
      → IsEdited changes
          (node mapping value tag content)
          m
          (at_key (apply_entries build changes) key (node mapping value tag content))
  unfolding at_key IsMap find_key find_pair
  at_section_lem changes value tag content (node mapping v t inner) m even found (e, d) h =
      let section : Node = node mapping v t inner in
      let edits = apply_entries_lem build changes v t inner m e d h in
      let (rest, done) =
        at_pair_total (apply_entries build changes) key content section edits.section' even found
          edits.done in
      let changed = at_pair_lem (apply_entries build changes) key content rest even done in
      let (w, a, b) = changed.here section found in
      let same : w ≡ edits.section' = cc (edits.done, a) in
      record {
        root' = node mapping value tag rest;
        done = rw done refl;
        here = λ name.
            entry_of_found key (node mapping value tag rest) w (unfold find_key in b) name
            ∙ rw same (edits.found name);
        others = λ other. elim (Bool-cases (text_eq key other)) [
          | inl equal ↦
              rw equal (
                ap (find_key (node mapping value tag rest)) (sym ((text_eq_iff key other).0 equal)))
          | inr differs ↦ rw differs (
              unfold find_key in
              changed.others other (λ p. absurd (ground (arith, text_eq_iff key other))))
        ];
      }
  at_section_lem changes value tag content section m even found is_map h = absurd is_map

  edited_absent :
      (changes : ChangeMap A) (m : Text → Option Node)
      → has_additions build changes ≡ false
      → ((name : Text) → m name ≡ none)
      → (name : Text) → edited build changes m name ≡ none
  unfolding has_additions edited
  edited_absent [] m h absent name = absent name
  edited_absent ((n, none) ∷ changes) m h absent name =
      edited_absent changes (λ other. if text_eq n other then none else m other) h
        (λ other. ground (arith, absent other)) name
  edited_absent ((n, some cfg) ∷ changes) m h absent name = absurd (cc)

  others_refl :
      (root : Node) (other : Text)
      → find_key root other ≡ (if text_eq key other then find_key root key else find_key root other)
  others_refl root other = elim (Bool-cases (text_eq key other)) [
    | inl equal ↦ rw equal (ap (find_key root) (sym ((text_eq_iff key other).0 equal)))
    | inr differs ↦ rw differs refl
  ]

  section_added :
      (changes : ChangeMap A) (value tag : Text) (content : Nodes)
      → Even content
      → find_key (node mapping value tag content) key ≡ none
      → has_additions build changes ≡ true
      → IsEdited changes
          (node mapping value tag content)
          (entry_of key (node mapping value tag content))
          (apply_section build key changes (node mapping value tag content))
  section_added changes value tag content even absent added =
      let root : Node = node mapping value tag content in
      let new : Node = mapping_node end in
      let content' = put_pair (λ _. new) new key content in
      let put : (other : Text)
          → find_pair content' other ≡ (
              if text_eq key other
              then some (found_or (λ _. new) new (find_pair content key))
              else find_pair content other) =
        λ other. find_pair-put_pair (λ _. new) new key other content even in
      let e =
        at_section_lem changes value tag content' new (entry_of key root)
          (Even-put_pair (λ _. new) new key content even)
          (unfold find_key found_or in ground (arith, put key, text_eq_iff key key, absent))
          (unfold IsMap Even Distinct in (tt, tt))
          (λ name. unfold find_key find_pair in sym (entry_of_absent key root absent name)) in
      record {
        root' = e.root';
        done = unfold apply_section set_node in rw (absent, added, apply_section) e.done;
        here = e.here;
        others = λ other. unfold find_key in ground (arith, e.others other, put other);
      }

  -- The changes of a section, on a root mapping and a section that is absent or a mapping, both with a
  -- value behind each key and the section with no key twice, succeed, and do to the section as a finite
  -- map what they mean: one after the other takes its name out or sets it. What stands under another key
  -- of the root is as before.
  pub apply_section_lem :
      (changes : ChangeMap A) (root : Node)
      → HasValues root
      → IsMapOrAbsent (find_key root key)
      → IsEdited changes root (entry_of key root) (apply_section build key changes root)
  unfolding HasValues
  apply_section_lem changes (node mapping value tag content) even h =
      let root : Node = node mapping value tag content in
      elim (Option-cases (find_key root key)) [
        | inl absent ↦ elim (Bool-cases (has_additions build changes)) [
          | inl added ↦ section_added changes value tag content even absent added
          | inr none_added ↦ record {
            root' = root;
            done = unfold apply_section in rw (absent, none_added, apply_section) refl;
            here = λ name.
                entry_of_absent key root absent name
                ∙ sym (
                    edited_absent changes (entry_of key root) none_added
                      (entry_of_absent key root absent) name);
            others = others_refl root;
          }
        ]
        | inr (section, found) ↦
            let e =
              at_section_lem changes value tag content section (entry_of key root) even
                (unfold find_key in found) (unfold IsMapOrAbsent in subst IsMapOrAbsent found h)
                (λ name. sym (entry_of_found key root section found name)) in
            record {
              root' = e.root';
              done = unfold apply_section in rw (found, apply_section) e.done;
              here = e.here;
              others = e.others;
            }
      ]
  apply_section_lem changes root m h = absurd m

  apply_entries_lost :
      (changes : ChangeMap A) (section : Node)
      → is_mapping section ≡ false
      → apply_entries build changes section ≡ ok section
  unfolding apply_entries
  apply_entries_lost [] section h = refl
  apply_entries_lost ((name, none) ∷ changes) section h =
      rw (delete_key_other section name h) (apply_entries_lost changes section h)
  apply_entries_lost ((name, some cfg) ∷ changes) section h =
      rw (set_node_other section name (build cfg) h) (apply_entries_lost changes section h)

  -- All changes of a section that is there but is no mapping, additions included, are dropped, and no
  -- error is reported: the document is as before.
  pub apply_section_lost :
      (changes : ChangeMap A) (root section : Node)
      → is_mapping root ≡ true
      → find_key root key ≡ some section
      → is_mapping section ≡ false
      → apply_section build key changes root ≡ ok root
  apply_section_lost changes (node mapping value tag content) section m found h =
      let same =
        at_pair_same (apply_entries build changes) key content section (unfold find_key in found)
          (apply_entries_lost changes section h) in
      unfold apply_section at_key in rw (found, apply_section, same) refl
  apply_section_lost changes (node document value tag content) section m found h = absurd (cc)
  apply_section_lost changes (node sequence value tag content) section m found h = absurd (cc)
  apply_section_lost changes (node scalar value tag content) section m found h = absurd (cc)
  apply_section_lost changes (node alias value tag content) section m found h = absurd (cc)
