-- ===== src/Operations/Archives/Tests.antt =====
-- internal/operations: runs at concrete inputs.
use berth_agent.Prelude.{◌≡◌, ◌≢◌, refl, List, [], ◌∷◌, ok, err, Text, codes, text_eq}
use berth_agent.Prelude.{member}
use berth_agent.Archive.Options.{
  validate_create_options, requires_value, has_value_options, is_valid_value,
}
use berth_agent.Archive.Service.{prepare_create, unsupported_format}
use berth_agent.Operations.Archives.{create_option, read_create, create_options}
use berth_agent.Operations.Archives.Formats.{HasPlainValues, create_options-ne-unsupported}

abbrev sample_options : List Text
sample_options = codes "--format" ∷ codes "tar" ∷ codes "--output" ∷ codes "a.tar" ∷ []

sample_valid : validate_create_options sample_options ≡ ok tt
unfolding validate_create_options member text_eq requires_value has_value_options is_valid_value
sample_valid = refl

sample_plain : HasPlainValues sample_options
unfolding HasPlainValues member text_eq
sample_plain = (refl, (refl, tt))

create_options-ne-unsupported_example :
    prepare_create (codes "/srv/web") (create_options sample_options)
    ≢ err (unsupported_format (codes "tar"))
create_options-ne-unsupported_example =
    create_options-ne-unsupported sample_options (codes "/srv/web") (codes "tar") sample_valid
      sample_plain

-- A value that is the name of an option is read as one.
abbrev confused_options : List Text
confused_options = codes "--exclude" ∷ codes "--format" ∷ codes "--output" ∷ codes "a.zip" ∷ []

confused_valid : validate_create_options confused_options ≡ ok tt
unfolding validate_create_options member text_eq requires_value has_value_options is_valid_value
confused_valid = refl

confused_format : (create_options confused_options).format ≡ codes "--output"
unfolding create_options read_create create_option text_eq
confused_format = refl
