-- ===== src/Operations/Options.antt =====
-- internal/operations/validation.go: the options of a docker compose command, and their values.
pub mod Dangerous
pub mod Grammar
pub mod Exact
use berth_agent.Prelude.{
  ℕ, ◌-◌, ◌<◌, Bool, true, false, not, ◌&&◌, ◌||◌, Option, none, some, List, [], ◌∷◌, Result, ok,
  err, ◌>>=◌, ◌>>◌, check, Text, codes, text_eq, leb, if◌then◌else◌, ◌==◌,
}
use berth_agent.Prelude.{member, has_prefix, contains, all, any}
use berth_agent.Encoding.Decimal.{is_digit}
use berth_agent.Archive.Options.{OptionError}

pub data ValidationError : Type 0 where
  invalid_command invalid_option invalid_service_name command_injection : ValidationError
  archive_error : OptionError → ValidationError

abbrev pub up_options : List Text
up_options =
    codes "-d"
    ∷ codes "--detach"
    ∷ codes "--build"
    ∷ codes "--force-recreate"
    ∷ codes "--no-recreate"
    ∷ codes "--remove-orphans"
    ∷ codes "--pull"
    ∷ codes "--scale"
    ∷ codes "-t"
    ∷ codes "--timeout"
    ∷ codes "--wait"
    ∷ codes "--wait-timeout"
    ∷ codes "-V"
    ∷ codes "--renew-anon-volumes"
    ∷ codes "--no-deps"
    ∷ codes "--abort-on-container-exit"
    ∷ codes "--abort-on-container-failure"
    ∷ []

abbrev pub down_options : List Text
down_options =
    codes "--remove-orphans"
    ∷ codes "--rmi"
    ∷ codes "-v"
    ∷ codes "--volumes"
    ∷ codes "-t"
    ∷ codes "--timeout"
    ∷ []

abbrev pub start_options : List Text
start_options = codes "--dry-run" ∷ []

abbrev pub stop_options : List Text
stop_options = codes "-t" ∷ codes "--timeout" ∷ codes "--dry-run" ∷ []

abbrev pub restart_options : List Text
restart_options = codes "-t" ∷ codes "--timeout" ∷ codes "--no-deps" ∷ codes "--dry-run" ∷ []

abbrev pub pull_options : List Text
pull_options =
    codes "-q"
    ∷ codes "--quiet"
    ∷ codes "--ignore-buildable"
    ∷ codes "--ignore-pull-failures"
    ∷ codes "--include-deps"
    ∷ codes "--policy"
    ∷ []

-- validOptions[command]
unfoldable pub valid_options : Text → Option (List Text)
valid_options command =
    if text_eq command (codes "up")
    then some up_options
    else if text_eq command (codes "down")
    then some down_options
    else if text_eq command (codes "start")
    then some start_options
    else if text_eq command (codes "stop")
    then some stop_options
    else if text_eq command (codes "restart")
    then some restart_options
    else if text_eq command (codes "pull")
    then some pull_options
    else none

-- validOptionValues[option]
unfoldable pub valid_option_values : Text → Option (List Text)
valid_option_values option =
    if text_eq option (codes "--pull")
    then some (codes "always" ∷ codes "missing" ∷ codes "never" ∷ [])
    else if text_eq option (codes "--rmi")
    then some (codes "local" ∷ codes "all" ∷ [])
    else if text_eq option (codes "--policy")
    then some (codes "missing" ∷ codes "always" ∷ [])
    else none

unfoldable pub is_alphanumeric : ℕ → Bool
is_alphanumeric c =
    (leb b'a' c && leb c b'z') || (leb b'A' c && leb c b'Z') || (leb b'0' c && leb c b'9')

-- [a-zA-Z0-9._-]
unfoldable pub is_name_byte : ℕ → Bool
unfolding is_alphanumeric
is_name_byte c = is_alphanumeric c || c == b'.' || c == b'_' || c == b'-'

-- validServiceNameRegex, ^[a-zA-Z0-9][a-zA-Z0-9._-]*$
unfoldable pub matches_name : Text → Bool
unfolding is_name_byte
matches_name [] = false
matches_name (c ∷ s) = is_alphanumeric c && all is_name_byte s

-- numericValueRegex, ^\d+$
pub matches_numeric : Text → Bool
matches_numeric [] = false
matches_numeric (c ∷ s) = is_digit c && all is_digit s

-- What scaleValueRegex wants behind the first byte.
matches_scale_rest : Text → Bool
unfolding matches_numeric is_name_byte
matches_scale_rest [] = false
matches_scale_rest (c ∷ s) =
    if c == b'=' then matches_numeric s else is_name_byte c && matches_scale_rest s

-- scaleValueRegex, ^[a-zA-Z0-9][a-zA-Z0-9._-]*=\d+$
unfoldable pub matches_scale : Text → Bool
unfolding matches_scale_rest
matches_scale [] = false
matches_scale (c ∷ s) = is_alphanumeric c && matches_scale_rest s

abbrev pub dangerous_patterns : List Text
dangerous_patterns =
    codes ";"
    ∷ codes "&"
    ∷ codes "|"
    ∷ codes "&&"
    ∷ codes "||"
    ∷ codes "$"
    ∷ codes "`"
    ∷ codes "$("
    ∷ codes ")"
    ∷ codes "{"
    ∷ codes "}"
    ∷ codes "<"
    ∷ codes ">"
    ∷ codes ">>"
    ∷ (92 ∷ [])
    ∷ (39 ∷ [])
    ∷ (34 ∷ [])
    ∷ (10 ∷ [])
    ∷ (13 ∷ [])
    ∷ (9 ∷ [])
    ∷ []

unfoldable pub contains_dangerous_chars : Text → Bool
contains_dangerous_chars input = any (contains input) dangerous_patterns

pub requires_value : Text → Bool
requires_value option = member option (
    codes "-t"
    ∷ codes "--timeout"
    ∷ codes "--wait-timeout"
    ∷ codes "--pull"
    ∷ codes "--rmi"
    ∷ codes "--policy"
    ∷ codes "--scale"
    ∷ [])

-- `validValues, exists := …` and the test on them
pub is_listed_value : Text → Text → Bool
is_listed_value option value = elim (valid_option_values option) [
  | none ↦ true
  | some values ↦ member value values
]

pub is_duration_option : Text → Bool
is_duration_option option =
    text_eq option (codes "-t")
    || text_eq option (codes "--timeout")
    || text_eq option (codes "--wait-timeout")

pub validate_option_value : Text → Text → Result ValidationError (Unit {0})
unfolding is_listed_value is_duration_option
validate_option_value option value = do
  check (not (contains_dangerous_chars value)) command_injection
  check (is_listed_value option value) invalid_option
  check (not (is_duration_option option && not (matches_numeric value))) invalid_option
  check (not (text_eq option (codes "--scale") && not (matches_scale value))) invalid_option

-- strings.SplitN(option, "=", 2), if that gives two parts
pub split_inline : Text → Option (Text × Text)
split_inline [] = none
split_inline (c ∷ s) =
    let rest = split_inline s in
    if c == b'='
    then some ([], s)
    else elim rest [ none ↦ none | some (name, value) ↦ some (c ∷ name, value) ]

abbrev pub is_inline : Text → Bool
is_inline option = has_prefix option (codes "--") && contains option (codes "=")

validate_inline : List Text → Option (Text × Text) → Result ValidationError (Unit {0})
unfolding validate_option_value
validate_inline valid none = err invalid_option
validate_inline valid (some (name, value)) =
    check (member name valid) invalid_option >> validate_option_value name value

-- One round of `validateOptions` on an option; the answer is whether the next element is its value.
validate_option : List Text → Text → Result ValidationError Bool
unfolding validate_inline split_inline requires_value
validate_option valid option = do
  check (not (contains_dangerous_chars option)) command_injection
  if is_inline option
      then (validate_inline valid (split_inline option) >> ok false)
      else (check (member option valid) invalid_option >> ok (requires_value option))

-- The loop of `validateOptions`, on options[i:]. An option that wants a value and stands last is let
-- through without one.
unfoldable pub validate_options : List Text → List Text → Result ValidationError (Unit {0})
unfolding validate_option validate_option_value
validate_options valid [] = ok tt
validate_options valid (option ∷ []) = validate_option valid option >> ok tt
validate_options valid (option ∷ value ∷ rest) =
    let after_value = validate_options valid rest in
    let after_option = validate_options valid (value ∷ rest) in
    do
      takes_value ← validate_option valid option
      if takes_value then (validate_option_value option value >> after_value) else after_option
