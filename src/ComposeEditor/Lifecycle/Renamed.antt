-- ===== src/ComposeEditor/Lifecycle/Renamed.antt =====
-- internal/composeeditor/service_lifecycle.go: the names of the services after a rename.
use berth_agent.Prelude.{
  ◌≡◌, refl, sym, ◌∙◌, inl, inr, true, false, arith, Result, ok, err, Text, text_eq, text_eq_iff,
  if◌then◌else◌, Bool-cases,
}
use berth_agent.Prelude.{Result-cases, subst}
use berth_agent.ComposeEditor.Nodes.{
  node, Nodes, end, entry, EditError, service_not_found, service_exists,
}
use berth_agent.ComposeEditor.Nodes.Lookup.{Even, Distinct}
use berth_agent.ComposeEditor.Nodes.Paired.{Pairs}
use berth_agent.ComposeEditor.Lifecycle.{has_name, rename_name, rename_in_services, rename_service}
use berth_agent.ComposeEditor.Lifecycle.Dependencies.{
  has_name_absent, HasRenamedServices, rename_in_service-IsRenamedService,
  rename_in_services-HasRenamedServices,
}
use berth_agent.ComposeEditor.Lifecycle.Sound.{rename_name-Pairs}

-- The services after a rename that succeeds, and whether they have a name.
pub record Renaming (old new : Text) (content rest : Nodes) : Type 0 where
  pub names :
      (name : Text)
      → has_name name rest ≡ (
          if text_eq new name
          then true
          else if text_eq old name
          then false
          else has_name name content)
  pub services : HasRenamedServices old new content rest

-- How a rename ends.
pub data RenameOutcome (old new : Text) (content : Nodes) : Result EditError Nodes → Type 0 where
  unknown_name :
      has_name old content ≡ false → RenameOutcome old new content (err (service_not_found old))
  taken_name :
      has_name old content ≡ true
      → has_name new content ≡ true
      → RenameOutcome old new content (err (service_exists new))
  new_name :
      (rest : Nodes)
      → has_name old content ≡ true
      → has_name new content ≡ false
      → Renaming old new content rest
      → RenameOutcome old new content (ok rest)

has_name-rename_name :
    (old new name : Text) (content : Nodes)
    → Even content
    → Distinct content
    → has_name old content ≡ true
    → has_name new content ≡ false
    → has_name name (rename_name old new content) ≡ (
        if text_eq new name
        then true
        else if text_eq old name
        then false
        else has_name name content)
unfolding has_name rename_name Even Distinct
has_name-rename_name old new name end e d here free = absurd (cc)
has_name-rename_name old new name (entry k end) e d here free = absurd e
has_name-rename_name old new name (entry (node kind key tag inner) (entry v rest)) e (d, ds) here
      free =
    let gone = has_name_absent rest key e d in
    elim (Bool-cases (text_eq key old)) [
      | inl same ↦
          let equal : key ≡ old = (text_eq_iff key old).0 same in
          let absent : has_name old rest ≡ false = rw (sym equal) gone in
          rw (same, equal)
            (elim (Bool-cases (text_eq old name)) [
              | inl asked ↦
                  let absent' : has_name name rest ≡ false =
                    rw (sym ((text_eq_iff old name).0 asked)) absent in
                  ground (arith, absent', asked)
              | inr other ↦ ground (arith, other)
            ])
      | inr differs ↦ rw differs (
          ground (
            arith,
            has_name-rename_name old new name rest e ds (rw differs at here) (ground (arith, free)),
            text_eq_iff key new,
            text_eq_iff key old,
            text_eq_iff key name,
            text_eq_iff new name,
            text_eq_iff old name,
          ))
    ]

has_name-rename_in_services :
    (old new name : Text) (content rest : Nodes)
    → Even content
    → rename_in_services old new content ≡ ok rest
    → has_name name rest ≡ has_name name content
unfolding rename_in_services Even has_name
has_name-rename_in_services old new name end rest e done =
    let same : end ≡ rest = cc in subst (λ r. has_name name r ≡ false) same refl
has_name-rename_in_services old new name (entry k end) rest e done = absurd e
has_name-rename_in_services old new name (entry k (entry v more)) rest e done =
    let (v', changed, _) = rename_in_service-IsRenamedService old new v in
    elim (Result-cases (rename_in_services old new more)) [
      | inr (x, failed) ↦ absurd (cc (rw (changed, failed) at done))
      | inl (more', later) ↦
          let whole : ◌≡◌ {A = Result EditError Nodes} (ok (entry k (entry v' more'))) (ok rest) =
            rw (changed, later) at done in
          let r : entry k (entry v' more') ≡ rest = cc in
          rw (sym r) (rw (has_name-rename_in_services old new name more more' e later) refl)
    ]

-- On services with a value behind each key, none twice, a rename ends in one of three ways. The old name
-- is unknown, or the new one is taken: two errors. Else it succeeds: the new name is there, the old one is
-- not, and every other name is there if it was. Pair by pair and in their order the services are as before, but for the name itself, which is the new one, and for the first
-- `depends_on` of every service that is a mapping: in it each item of a sequence, or each key of a
-- mapping, that is the old name is the new one.
pub rename_service-RenameOutcome :
    (old new : Text) (content : Nodes)
    → Pairs content
    → Distinct content
    → RenameOutcome old new content (rename_service old new content)
unfolding rename_service
rename_service-RenameOutcome old new content (e, h) d = elim (Bool-cases (has_name old content)) [
  | inr absent ↦ rw absent (unknown_name absent)
  | inl here ↦ elim (Bool-cases (has_name new content)) [
    | inl taken ↦ rw (here, taken) (taken_name here taken)
    | inr free ↦
        let (even, _) = rename_name-Pairs old new content (e, h) in
        let (rest, done, services) = rename_in_services-HasRenamedServices old new content e d in
        rw (here, free, done)
          (new_name rest here free (record {
            names = λ name.
                has_name-rename_in_services old new name (rename_name old new content) rest even
                  done
                ∙ has_name-rename_name old new name content e d here free;
            services = services;
          }))
  ]
]
