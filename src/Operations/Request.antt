-- ===== src/Operations/Request.antt =====
-- internal/operations/validation.go: whether a request is one that the agent carries out.
pub mod Accepted
use berth_agent.Prelude.{
  ℕ, zero, suc, ◌+◌, ◌-◌, Bool, true, false, not, ◌&&◌, ◌||◌, Option, none, some, List, [], ◌∷◌,
  Result, ok, err, ◌>>=◌, ◌>>◌, check, Text, codes, text_eq, ltb, if◌then◌else◌, ◌==◌, length,
}
use berth_agent.Prelude.{member, has_prefix, reverse, all, drop}
use berth_agent.Archive.Options.{validate_create_options, validate_extract_options, OptionError}
use berth_agent.Operations.Options.{
  ValidationError, invalid_command, invalid_option, invalid_service_name, command_injection,
  archive_error, valid_options, validate_options, contains_dangerous_chars, matches_name,
  is_alphanumeric,
}

-- The fields of OperationRequest that validation reads.
pub record OperationRequest : Type 0 where
  pub command : Text
  pub options : List Text
  pub services : List Text
  pub backup_password : Text

abbrev pub valid_commands : List Text
valid_commands =
    codes "up"
    ∷ codes "down"
    ∷ codes "start"
    ∷ codes "stop"
    ∷ codes "restart"
    ∷ codes "pull"
    ∷ codes "create-archive"
    ∷ codes "extract-archive"
    ∷ codes "create-backup"
    ∷ codes "restore-backup"
    ∷ []

pub validate_service_name : Text → Result ValidationError (Unit {0})
validate_service_name name = do
  check (not (text_eq name [])) invalid_service_name
  check (not (ltb 64 (length name))) invalid_service_name
  check (matches_name name) invalid_service_name
  check (not (contains_dangerous_chars name)) command_injection

validate_services : List Text → Result ValidationError (Unit {0})
unfolding validate_service_name
validate_services [] = ok tt
validate_services (service ∷ rest) = validate_service_name service >> validate_services rest

abbrev pub max_backup_label_length : ℕ
max_backup_label_length = 100

-- [A-Za-z0-9 .,_+()/:'-]
pub is_label_byte : ℕ → Bool
is_label_byte c =
    is_alphanumeric c
    || c == b' '
    || c == b'.'
    || c == b','
    || c == b'_'
    || c == b'+'
    || c == b'('
    || c == b')'
    || c == b'/'
    || c == b':'
    || c == 39
    || c == b'-'

-- backupLabelRegex
matches_label : Text → Bool
unfolding is_label_byte
matches_label [] = false
matches_label (c ∷ s) = is_alphanumeric c && all is_label_byte s

pub valid_backup_label : Text → Bool
unfolding matches_label
valid_backup_label label =
    if text_eq label [] || ltb max_backup_label_length (length label)
    then false
    else matches_label label

-- The white space of unicode.IsSpace, in UTF-8.
abbrev space_runes : List Text
space_runes =
    (9 ∷ [])
    ∷ (10 ∷ [])
    ∷ (11 ∷ [])
    ∷ (12 ∷ [])
    ∷ (13 ∷ [])
    ∷ (32 ∷ [])
    ∷ (0xc2 ∷ 0x85 ∷ [])
    ∷ (0xc2 ∷ 0xa0 ∷ [])
    ∷ (0xe1 ∷ 0x9a ∷ 0x80 ∷ [])
    ∷ (0xe2 ∷ 0x80 ∷ 0x80 ∷ [])
    ∷ (0xe2 ∷ 0x80 ∷ 0x81 ∷ [])
    ∷ (0xe2 ∷ 0x80 ∷ 0x82 ∷ [])
    ∷ (0xe2 ∷ 0x80 ∷ 0x83 ∷ [])
    ∷ (0xe2 ∷ 0x80 ∷ 0x84 ∷ [])
    ∷ (0xe2 ∷ 0x80 ∷ 0x85 ∷ [])
    ∷ (0xe2 ∷ 0x80 ∷ 0x86 ∷ [])
    ∷ (0xe2 ∷ 0x80 ∷ 0x87 ∷ [])
    ∷ (0xe2 ∷ 0x80 ∷ 0x88 ∷ [])
    ∷ (0xe2 ∷ 0x80 ∷ 0x89 ∷ [])
    ∷ (0xe2 ∷ 0x80 ∷ 0x8a ∷ [])
    ∷ (0xe2 ∷ 0x80 ∷ 0xa8 ∷ [])
    ∷ (0xe2 ∷ 0x80 ∷ 0xa9 ∷ [])
    ∷ (0xe2 ∷ 0x80 ∷ 0xaf ∷ [])
    ∷ (0xe2 ∷ 0x81 ∷ 0x9f ∷ [])
    ∷ (0xe3 ∷ 0x80 ∷ 0x80 ∷ [])
    ∷ []

-- The length of the listed text that s begins with, or 0.
prefix_length : List Text → Text → ℕ
prefix_length [] s = 0
prefix_length (r ∷ runes) s = if has_prefix s r then length r else prefix_length runes s

trim_left : ℕ → List Text → Text → Text
trim_left zero runes s = s
trim_left (suc fuel) runes s =
    let n = prefix_length runes s in
    let more = trim_left fuel runes (drop n s) in if n == 0 then s else more

reversed_runes : List Text → List Text
reversed_runes [] = []
reversed_runes (r ∷ runes) = reverse r ∷ reversed_runes runes

-- strings.TrimSpace
pub trim_space : Text → Text
unfolding trim_left prefix_length reversed_runes
trim_space s =
    let left = trim_left (length s) space_runes s in
    reverse (trim_left (length left) (reversed_runes space_runes) (reverse left))

-- The loop of `validateCreateBackupRequest`, on options[i:], and the test behind it.
create_backup_options : List Text → Bool → Bool → Result ValidationError (Unit {0})
unfolding valid_backup_label trim_space
create_backup_options [] stop pause = check (not (stop && pause)) invalid_option
create_backup_options (option ∷ []) stop pause =
    let done =
      λ (stop' pause' : Bool). check {E = ValidationError} (not (stop' && pause')) invalid_option in
    if text_eq option (codes "--stop")
    then done true pause
    else if text_eq option (codes "--pause")
    then done stop true
    else err invalid_option
create_backup_options (option ∷ value ∷ rest) stop pause =
    let after_stop = create_backup_options (value ∷ rest) true pause in
    let after_pause = create_backup_options (value ∷ rest) stop true in
    let after_label = create_backup_options rest stop pause in
    if text_eq option (codes "--stop")
    then after_stop
    else if text_eq option (codes "--pause")
    then after_pause
    else if text_eq option (codes "--label")
    then (check (valid_backup_label (trim_space value)) invalid_option >> after_label)
    else err invalid_option

pub validate_create_backup : OperationRequest → Result ValidationError (Unit {0})
unfolding create_backup_options
validate_create_backup req = do
  check (not (ltb 0 (length req.services))) invalid_option
  create_backup_options req.options false false

-- `parses_uuid` is whether uuid.Parse of github.com/google/uuid returns no error.
module _ (parses_uuid : Text → Bool) where
  -- The loop of `validateRestoreBackupRequest`, on options[i:], and the test behind it.
  restore_backup_options : List Text → Text → Result ValidationError (Unit {0})
  restore_backup_options [] backup_id = check (not (text_eq backup_id [])) invalid_option
  restore_backup_options (option ∷ []) backup_id =
      if member option (codes "--stop" ∷ codes "--keep-extra-files" ∷ codes "--sparse" ∷ [])
      then check (not (text_eq backup_id [])) invalid_option
      else err invalid_option
  restore_backup_options (option ∷ value ∷ rest) backup_id =
      let after_id = restore_backup_options rest value in
      let after_component = restore_backup_options rest backup_id in
      let after_switch = restore_backup_options (value ∷ rest) backup_id in
      if text_eq option (codes "--backup-id")
      then (check (parses_uuid value) invalid_option >> after_id)
      else if text_eq option (codes "--component")
      then (check (not (text_eq value [] || contains_dangerous_chars value)) invalid_option
          >> after_component)
      else if member option (codes "--stop" ∷ codes "--keep-extra-files" ∷ codes "--sparse" ∷ [])
      then after_switch
      else err invalid_option

  pub validate_restore_backup : OperationRequest → Result ValidationError (Unit {0})
  unfolding restore_backup_options
  validate_restore_backup req = do
    check (not (ltb 0 (length req.services))) invalid_option
    restore_backup_options req.options []

  -- `ValidateOperationRequest` for the docker commands.
  validate_docker : OperationRequest → Option (List Text) → Result ValidationError (Unit {0})
  unfolding validate_services
  validate_docker req none = err invalid_command
  validate_docker req (some options) =
      validate_options options req.options >> validate_services req.services

  archive_result : Result OptionError (Unit {0}) → Result ValidationError (Unit {0})
  archive_result (ok u) = ok u
  archive_result (err e) = err (archive_error e)

  pub validate_operation_request : OperationRequest → Result ValidationError (Unit {0})
  unfolding validate_docker archive_result
  validate_operation_request req =
      let is_backup_command =
        text_eq req.command (codes "create-backup")
        || text_eq req.command (codes "restore-backup") in
      do
        check (member req.command valid_commands) invalid_command
        check (not (is_backup_command && text_eq req.backup_password [])) invalid_option
        check (not (not is_backup_command && not (text_eq req.backup_password []))) invalid_option
        if text_eq req.command (codes "create-archive")
            then archive_result (validate_create_options req.options)
            else if text_eq req.command (codes "extract-archive")
            then archive_result (validate_extract_options req.options)
            else if text_eq req.command (codes "create-backup")
            then validate_create_backup req
            else if text_eq req.command (codes "restore-backup")
            then validate_restore_backup req
            else validate_docker req (valid_options req.command)
