-- ===== src/Archive/Options.antt =====
-- internal/archive/validation.go
pub mod Grammar
use berth_agent.Prelude.{
  ◌-◌, Bool, true, not, ◌&&◌, ◌||◌, none, List, [], ◌∷◌, Result, ok, err, ◌>>=◌, ◌>>◌, check, Text,
  codes, text_eq, if◌then◌else◌,
}
use berth_agent.Prelude.{member}

-- The errors, each with the option that it names.
pub data OptionError : Type 0 where
  invalid_option : Text → OptionError
  value_missing : Text → OptionError
  invalid_value : Text → Text → OptionError

abbrev pub valid_formats : List Text
valid_formats = codes "zip" ∷ codes "tar" ∷ codes "tar.gz" ∷ []

abbrev pub valid_compression_types : List Text
valid_compression_types = codes "gzip" ∷ codes "none" ∷ []

abbrev pub valid_create_options : List Text
valid_create_options =
    codes "--format"
    ∷ codes "--output"
    ∷ codes "--exclude"
    ∷ codes "--include"
    ∷ codes "--compression"
    ∷ []

abbrev pub valid_extract_options : List Text
valid_extract_options =
    codes "--archive" ∷ codes "--destination" ∷ codes "--overwrite" ∷ codes "--create-dirs" ∷ []

abbrev pub value_options : List Text
value_options =
    codes "--format"
    ∷ codes "--output"
    ∷ codes "--exclude"
    ∷ codes "--include"
    ∷ codes "--compression"
    ∷ codes "--archive"
    ∷ codes "--destination"
    ∷ []

unfoldable pub requires_value : Text → Bool
requires_value option = member option value_options

unfoldable pub has_value_options : Text → Bool
has_value_options option =
    text_eq option (codes "--format") || text_eq option (codes "--compression")

unfoldable pub is_valid_value : Text → Text → Bool
is_valid_value option value =
    if text_eq option (codes "--format")
    then member value valid_formats
    else if text_eq option (codes "--compression")
    then member value valid_compression_types
    else true

-- The loop of `ValidateCreateOptions`, on options[i:].
unfoldable pub validate_create_options : List Text → Result OptionError (Unit {0})
unfolding requires_value has_value_options is_valid_value
validate_create_options [] = ok tt
validate_create_options (opt ∷ []) = do
  check (member opt valid_create_options) (invalid_option opt)
  if requires_value opt then err (value_missing opt) else ok tt
validate_create_options (opt ∷ value ∷ rest) =
    let after_value = validate_create_options rest in
    let after_option = validate_create_options (value ∷ rest) in
    do
      check (member opt valid_create_options) (invalid_option opt)
      if requires_value opt
          then (check (not (has_value_options opt && not (is_valid_value opt value)))
                (invalid_value value opt)
              >> after_value)
          else after_option

-- The loop of `ValidateExtractOptions`, on options[i:].
pub validate_extract_options : List Text → Result OptionError (Unit {0})
unfolding requires_value
validate_extract_options [] = ok tt
validate_extract_options (opt ∷ []) = do
  check (member opt valid_extract_options) (invalid_option opt)
  if requires_value opt then err (value_missing opt) else ok tt
validate_extract_options (opt ∷ value ∷ rest) =
    let after_value = validate_extract_options rest in
    let after_option = validate_extract_options (value ∷ rest) in
    do
      check (member opt valid_extract_options) (invalid_option opt)
      if requires_value opt then after_value else after_option
