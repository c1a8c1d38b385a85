-- ===== src/ComposeEditor/Lifecycle/Dependencies.antt =====
-- internal/composeeditor/service_lifecycle.go: what a rename does to the pairs of the services and to
-- their `depends_on`, without reference to the loops that do it.
use berth_agent.Prelude.{
  ◌≡◌, refl, inl, inr, false, none, arith, Result, ok, Text, codes, text_eq, text_eq_iff,
  if◌then◌else◌, Bool-cases,
}
use berth_agent.ComposeEditor.Nodes.{
  document, mapping, sequence, scalar, alias, at_pair, at_key, Node, node, Nodes, end, entry,
  EditError, value_of, Kind, find_pair,
}
use berth_agent.ComposeEditor.Nodes.Lookup.{Even, Distinct}
use berth_agent.ComposeEditor.Lifecycle.{
  has_name, rename_name, rename_dependency, rename_in_service, rename_in_services, rename_items,
  rename_pairs, renamed,
}

-- The first value behind the key has changed as `R` says, and nothing else.
pub data IsChangedAt (R : Node → Node → Type 0) (key : Text) : Nodes → Nodes → Type 0 where
  nowhere : IsChangedAt R key end end
  alone : {k : Node} → IsChangedAt R key (entry k end) (entry k end)
  here :
      {k v v' : Node} {rest : Nodes}
      → value_of k ≡ key
      → R v v'
      → IsChangedAt R key (entry k (entry v rest)) (entry k (entry v' rest))
  later :
      {k v : Node} {rest rest' : Nodes}
      → ¬ (value_of k ≡ key)
      → IsChangedAt R key rest rest'
      → IsChangedAt R key (entry k (entry v rest)) (entry k (entry v rest'))

pub has_name_absent :
    (content : Nodes) (name : Text)
    → Even content
    → find_pair content name ≡ none
    → has_name name content ≡ false
unfolding has_name find_pair Even
has_name_absent end name e h = refl
has_name_absent (entry k end) name e h = absurd e
has_name_absent (entry k (entry v rest)) name e h = elim (Bool-cases (text_eq (value_of k) name)) [
  | inl same ↦ absurd (cc (rw same at h))
  | inr differs ↦ rw differs (has_name_absent rest name e (rw differs at h))
]

module _ (old new : Text) where
  -- A name: the new one in place of the old one, and every other as before.
  pub data IsRenamedName : Node → Node → Type 0 where
    hit :
        {kind : Kind} {tag : Text} {content : Nodes}
        → IsRenamedName (node kind old tag content) (node kind new tag content)
    miss : {n : Node} → ¬ (value_of n ≡ old) → IsRenamedName n n

  -- The items of a sequence.
  pub data HasRenamedItems : Nodes → Nodes → Type 0 where
    no_item : HasRenamedItems end end
    item :
        {n n' : Node} {rest rest' : Nodes}
        → IsRenamedName n n'
        → HasRenamedItems rest rest'
        → HasRenamedItems (entry n rest) (entry n' rest')

  -- The keys of a mapping, whose values are as before.
  pub data HasRenamedKeys : Nodes → Nodes → Type 0 where
    no_key : HasRenamedKeys end end
    last_key : {k k' : Node} → IsRenamedName k k' → HasRenamedKeys (entry k end) (entry k' end)
    pair :
        {k k' v : Node} {rest rest' : Nodes}
        → IsRenamedName k k'
        → HasRenamedKeys rest rest'
        → HasRenamedKeys (entry k (entry v rest)) (entry k' (entry v rest'))

  -- The value of `depends_on`: a list of names, a mapping with names as keys, or anything else.
  pub data IsRenamedDependency : Node → Node → Type 0 where
    listed :
        {value tag : Text} {content content' : Nodes}
        → HasRenamedItems content content'
        → IsRenamedDependency (node sequence value tag content) (node sequence value tag content')
    mapped :
        {value tag : Text} {content content' : Nodes}
        → HasRenamedKeys content content'
        → IsRenamedDependency (node mapping value tag content) (node mapping value tag content')
    other :
        {kind : Kind} {value tag : Text} {content : Nodes}
        → ¬ (kind ≡ sequence)
        → ¬ (kind ≡ mapping)
        → IsRenamedDependency (node kind value tag content) (node kind value tag content)

  -- A service: its `depends_on`, if it is a mapping and has one, and nothing else of it.
  pub data IsRenamedService : Node → Node → Type 0 where
    service :
        {value tag : Text} {content content' : Nodes}
        → IsChangedAt IsRenamedDependency (codes "depends_on") content content'
        → IsRenamedService (node mapping value tag content) (node mapping value tag content')
    no_mapping :
        {kind : Kind} {value tag : Text} {content : Nodes}
        → ¬ (kind ≡ mapping)
        → IsRenamedService (node kind value tag content) (node kind value tag content)

  -- The services, pair by pair and in their order: the names and the services under them.
  pub data HasRenamedServices : Nodes → Nodes → Type 0 where
    no_service : HasRenamedServices end end
    next :
        {k k' v v' : Node} {rest rest' : Nodes}
        → IsRenamedName k k'
        → IsRenamedService v v'
        → HasRenamedServices rest rest'
        → HasRenamedServices (entry k (entry v rest)) (entry k' (entry v' rest'))

  renamed_if-IsRenamedName :
      (n : Node) → IsRenamedName n (if text_eq (value_of n) old then renamed new n else n)
  renamed_if-IsRenamedName (node kind value tag content) = elim (Bool-cases (text_eq value old)) [
    | inl same ↦ let equal : value ≡ old = (text_eq_iff value old).0 same in rw (same, equal) hit
    | inr differs ↦ rw differs (miss (λ p. absurd (ground (arith, text_eq_iff value old))))
  ]

  rename_items-HasRenamedItems :
      (content : Nodes) → HasRenamedItems content (rename_items old new content)
  unfolding rename_items
  rename_items-HasRenamedItems end = no_item
  rename_items-HasRenamedItems (entry n rest) =
      item (renamed_if-IsRenamedName n) (rename_items-HasRenamedItems rest)

  rename_pairs-HasRenamedKeys :
      (content : Nodes) → HasRenamedKeys content (rename_pairs old new content)
  unfolding rename_pairs
  rename_pairs-HasRenamedKeys end = no_key
  rename_pairs-HasRenamedKeys (entry k end) = last_key (renamed_if-IsRenamedName k)
  rename_pairs-HasRenamedKeys (entry k (entry v rest)) =
      pair (renamed_if-IsRenamedName k) (rename_pairs-HasRenamedKeys rest)

  rename_dependency-IsRenamedDependency :
      (n : Node) → (n' : Node) × (rename_dependency old new n ≡ ok n') × IsRenamedDependency n n'
  unfolding rename_dependency
  rename_dependency-IsRenamedDependency (node mapping value tag content) =
      (_, refl, mapped (rename_pairs-HasRenamedKeys content))
  rename_dependency-IsRenamedDependency (node sequence value tag content) =
      (_, refl, listed (rename_items-HasRenamedItems content))
  rename_dependency-IsRenamedDependency (node document value tag content) =
      (_, refl, other (λ e. absurd (cc)) (λ e. absurd (cc)))
  rename_dependency-IsRenamedDependency (node scalar value tag content) =
      (_, refl, other (λ e. absurd (cc)) (λ e. absurd (cc)))
  rename_dependency-IsRenamedDependency (node alias value tag content) =
      (_, refl, other (λ e. absurd (cc)) (λ e. absurd (cc)))

  at_pair-IsChangedAt :
      (R : Node → Node → Type 0) (f : Node → Result EditError Node) (key : Text)
      → ((v : Node) → (v' : Node) × (f v ≡ ok v') × R v v')
      → (content : Nodes)
      → (rest : Nodes) × (at_pair f key content ≡ ok rest) × IsChangedAt R key content rest
  unfolding at_pair
  at_pair-IsChangedAt R f key g end = (end, refl, nowhere)
  at_pair-IsChangedAt R f key g (entry k end) = (entry k end, refl, alone)
  at_pair-IsChangedAt R f key g (entry k (entry v more)) =
      let (v', changed, related) = g v in
      let (rest, done, kept) = at_pair-IsChangedAt R f key g more in
      elim (Bool-cases (text_eq (value_of k) key)) [
        | inl same ↦ (
          entry k (entry v' more),
          rw (same, changed) refl,
          here ((text_eq_iff (value_of k) key).0 same) related,
        )
        | inr differs ↦ (
          entry k (entry v rest),
          rw (differs, done) refl,
          later (λ p. absurd (ground (arith, text_eq_iff (value_of k) key))) kept,
        )
      ]

  pub rename_in_service-IsRenamedService :
      (n : Node) → (n' : Node) × (rename_in_service old new n ≡ ok n') × IsRenamedService n n'
  unfolding rename_in_service at_key
  rename_in_service-IsRenamedService (node mapping value tag content) =
      let (rest, done, changed) =
        at_pair-IsChangedAt IsRenamedDependency (rename_dependency old new) (codes "depends_on")
          rename_dependency-IsRenamedDependency content in
      (node mapping value tag rest, rw done refl, service changed)
  rename_in_service-IsRenamedService (node document value tag content) =
      (_, refl, no_mapping (λ e. absurd (cc)))
  rename_in_service-IsRenamedService (node sequence value tag content) =
      (_, refl, no_mapping (λ e. absurd (cc)))
  rename_in_service-IsRenamedService (node scalar value tag content) =
      (_, refl, no_mapping (λ e. absurd (cc)))
  rename_in_service-IsRenamedService (node alias value tag content) =
      (_, refl, no_mapping (λ e. absurd (cc)))

  rename_in_services-HasRenamedServices_absent :
      (content : Nodes)
      → Even content
      → has_name old content ≡ false
      → (rest : Nodes) × (rename_in_services old new content ≡ ok rest)
        × HasRenamedServices content rest
  unfolding rename_in_services Even has_name
  rename_in_services-HasRenamedServices_absent end e h = (end, refl, no_service)
  rename_in_services-HasRenamedServices_absent (entry k end) e h = absurd e
  rename_in_services-HasRenamedServices_absent (entry k (entry v more)) e h =
      let (v', changed, renamed_service) = rename_in_service-IsRenamedService v in
      let (rest, done, behind) =
        rename_in_services-HasRenamedServices_absent more e (ground arith) in
      let differs : text_eq (value_of k) old ≡ false = ground arith in
      (
        entry k (entry v' rest),
        rw (changed, done) refl,
        next (miss (λ p. absurd (ground (arith, text_eq_iff (value_of k) old)))) renamed_service
            behind,
      )

  -- The two loops of a rename together.
  pub rename_in_services-HasRenamedServices :
      (content : Nodes)
      → Even content
      → Distinct content
      → (rest : Nodes) × (rename_in_services old new (rename_name old new content) ≡ ok rest)
        × HasRenamedServices content rest
  unfolding rename_in_services rename_name Even Distinct
  rename_in_services-HasRenamedServices end e d = (end, refl, no_service)
  rename_in_services-HasRenamedServices (entry k end) e d = absurd e
  rename_in_services-HasRenamedServices (entry (node kind name tag inner) (entry v more)) e
        (d, ds) =
      let (v', changed, renamed_service) = rename_in_service-IsRenamedService v in
      elim (Bool-cases (text_eq name old)) [
        | inl same ↦
            let equal : name ≡ old = (text_eq_iff name old).0 same in
            let absent = has_name_absent more name e d in
            let (rest, done, behind) =
              rename_in_services-HasRenamedServices_absent more e (rw equal at absent) in
            (
              entry (node kind new tag inner) (entry v' rest),
              rw (same, changed, done) refl,
              next (rw equal hit) renamed_service behind,
            )
        | inr differs ↦
            let (rest, done, behind) = rename_in_services-HasRenamedServices more e ds in
            (
              entry (node kind name tag inner) (entry v' rest),
              rw (differs, changed, done) refl,
              next (miss (λ p. absurd (ground (arith, text_eq_iff name old)))) renamed_service
                  behind,
            )
      ]
