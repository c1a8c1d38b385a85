-- ===== src/Operations/Archives/Formats.antt =====
-- internal/operations/service.go and internal/archive: a validated request names a format that is handled.
use berth_agent.Prelude.{
  ◌≡◌, ◌≢◌, refl, sym, inl, inr, true, false, not, Option, none, some, List, [], ◌∷◌, arith, ok,
  err, Text, codes, text_eq, Bool-cases,
}
use berth_agent.Paths.{clean, join_paths}
use berth_agent.Prelude.{subst, has_prefix, member}
use berth_agent.Archive.Options.{valid_create_options, validate_create_options}
use berth_agent.Archive.Options.Grammar.{
  format, output, exclude, include, compression, none_left, option, validate_create_options_iff,
}
use berth_agent.Archive.Options.Grammar
use berth_agent.Archive.Service.{
  CreateOptions, unsupported_format, handled_formats, prepare_create, ensure_within_stack_path,
}
use berth_agent.Operations.Archives.{
  next_option, create_option, read_create, create_defaults, create_options,
}

-- No value is the name of an option.
unfoldable pub HasPlainValues : List Text → Type 0
HasPlainValues [] = Unit {0}
HasPlainValues (o ∷ []) = Unit {0}
HasPlainValues (o ∷ v ∷ rest) = (member v valid_create_options ≡ false) × HasPlainValues rest

plain_option :
    (v : Text) (following : Option Text) (o : CreateOptions)
    → member v valid_create_options ≡ false
    → create_option v following o ≡ o
unfolding create_option member
plain_option v none o h = refl
plain_option v (some w) o h = ground arith

given_format :
    {name v : Text} (o : CreateOptions)
    → Grammar.CreateOption name v
    → member o.format handled_formats ≡ true
    → member (create_option name (some v) o).format handled_formats ≡ true
unfolding create_option text_eq
given_format o (format v valid) h = valid
given_format o (output v) h = h
given_format o (exclude v) h = h
given_format o (include v) h = h
given_format o (compression v valid) h = h

read_create_format :
    (opts : List Text) (o : CreateOptions)
    → Grammar.CreateOptions opts
    → HasPlainValues opts
    → member o.format handled_formats ≡ true
    → member (read_create o opts).format handled_formats ≡ true
unfolding read_create HasPlainValues
read_create_format opts o none_left p h = h
read_create_format opts o (option {o = name} {v = v} {rest = rest} given more) (plain, p) h =
    let o' = create_option name (some v) o in
    subst (λ x. member (read_create x rest).format handled_formats ≡ true)
      (sym (plain_option v (next_option rest) o' plain))
      (read_create_format rest o' more p (given_format o given h))

-- If the options of create-archive pass their validation and no value among them is the name of an
-- option, then CreateArchive, called with what is read from them, never refuses the format.
pub create_options-ne-unsupported :
    (opts : List Text) (base_path name : Text)
    → validate_create_options opts ≡ ok tt
    → HasPlainValues opts
    → prepare_create base_path (create_options opts) ≢ err (unsupported_format name)
unfolding create_options prepare_create ensure_within_stack_path
create_options-ne-unsupported opts base_path name valid plain refused =
    let defaults : member (codes "zip") handled_formats ≡ true = unfold member text_eq in refl in
    let fits : member (read_create create_defaults opts).format handled_formats ≡ true =
      read_create_format opts create_defaults ((validate_create_options_iff opts).0 valid) plain
        defaults in
    let o = read_create create_defaults opts in
    elim (Bool-cases (not (text_eq o.output_path []))) [
      | inr absent ↦ absurd (cc (rw (fits, absent) at refused))
      | inl given ↦
          elim (Bool-cases
            (has_prefix (clean (join_paths base_path o.output_path)) (clean base_path))) [
              | inr outside ↦
                  absurd (cc (rw (fits, given, ensure_within_stack_path, outside) at refused))
              | inl inside ↦
                  absurd (cc (rw (fits, given, ensure_within_stack_path, inside) at refused))
            ]
    ]
