-- ===== src/Archive/Tests.antt =====
-- internal/archive: runs at concrete inputs.
use berth_agent.Prelude.{◌≡◌, ◌↔◌, List, [], ◌∷◌, ok, Text, codes}
use berth_agent.Archive.Options.{validate_create_options, validate_extract_options}
use berth_agent.Archive.Options.Grammar.{
  CreateOptions, ExtractOptions, validate_create_options_iff, validate_extract_options_iff,
}

abbrev create_sample : List Text
create_sample = codes "--format" ∷ codes "zip" ∷ codes "--exclude" ∷ codes "node_modules" ∷ []

validate_create_options_iff_example :
    (validate_create_options create_sample ≡ ok tt) ↔ CreateOptions create_sample
validate_create_options_iff_example = validate_create_options_iff create_sample

abbrev extract_sample : List Text
extract_sample = codes "--overwrite" ∷ codes "--archive" ∷ codes "a.zip" ∷ []

validate_extract_options_iff_example :
    (validate_extract_options extract_sample ≡ ok tt) ↔ ExtractOptions extract_sample
validate_extract_options_iff_example = validate_extract_options_iff extract_sample
