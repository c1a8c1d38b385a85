-- ===== src/Archive/Service.antt =====
-- internal/archive/service.go and security.go: what is checked before an archive is made or unpacked.
pub mod Within
pub mod Inside
mod Tests
use berth_agent.Prelude.{
  ◌+◌, Bool, not, ◌&&◌, ◌||◌, List, [], ◌∷◌, ◌++◌, Result, ok, err, ◌>>=◌, ◌>>◌, check, Text, codes,
  text_eq, if◌then◌else◌, ◌==◌, length,
}
use berth_agent.Prelude.{map, reverse, has_prefix, contains, any, member}
use berth_agent.Paths.{clean, join_paths}
use berth_agent.StackNames.{to_lower}

pub record CreateOptions : Type 0 where
  pub format : Text
  pub output_path : Text
  pub include_paths : List Text
  pub exclude_patterns : List Text
  pub compression : Text

pub record ExtractOptions : Type 0 where
  pub archive_path : Text
  pub destination_path : Text
  pub overwrite : Bool
  pub create_dirs : Bool

-- The keys of `handlers`.
abbrev pub handled_formats : List Text
handled_formats = codes "zip" ∷ codes "tar" ∷ codes "tar.gz" ∷ []

pub data ArchiveError : Type 0 where
  unsupported_format unsupported_archive_format outside_destination : Text → ArchiveError
  no_output_path no_archive_path outside_stack archive_not_found : ArchiveError

-- EnsureWithinStackPath
unfoldable pub ensure_within_stack_path : Text → Text → Result ArchiveError (Unit {0})
ensure_within_stack_path path stack_path =
    check (has_prefix (clean path) (clean stack_path)) outside_stack

-- ValidateExtractPath
pub validate_extract_path : Text → Text → Result ArchiveError Text
validate_extract_path dest_path file_name =
    let path = join_paths dest_path file_name in
    let clean_dest = clean dest_path in
    let clean_file = clean path in
    let suspect = contains file_name (codes "..") || not (has_prefix clean_file clean_dest) in
    let outside =
      not (text_eq clean_file clean_dest)
      && not (has_prefix clean_file (clean_dest ++ codes "/")) in
    if suspect && outside then err (outside_destination file_name) else ok path

-- filepath.Ext: what begins at the last dot, if no slash is behind it.
pub ext : Text → Text
ext [] = []
ext (c ∷ s) =
    let later = ext s in
    if c == b'.' && not (any (λ d. d == b'.' || d == b'/') s) then c ∷ s else later

-- strings.HasSuffix
abbrev has_suffix : Text → Text → Bool
has_suffix s suffix = has_prefix (reverse s) (reverse suffix)

pub detect_format : Text → Text
unfolding ext
detect_format archive_path =
    let e = map to_lower (ext archive_path) in
    let tar_gz = has_suffix (map to_lower archive_path) (codes ".tar.gz") in
    if text_eq e (codes ".zip")
    then codes "zip"
    else if text_eq e (codes ".tar") || tar_gz
    then if tar_gz then codes "tar.gz" else codes "tar"
    else e

-- CreateArchive up to the call of the format's handler, with the options that it gets.
unfoldable pub prepare_create : Text → CreateOptions → Result ArchiveError CreateOptions
unfolding ensure_within_stack_path
prepare_create base_path opts = do
  check (member opts.format handled_formats) (unsupported_format opts.format)
  let included = if length opts.include_paths == 0 then codes "." ∷ [] else opts.include_paths
  check (not (text_eq opts.output_path [])) no_output_path
  let output_path = join_paths base_path opts.output_path
  ensure_within_stack_path output_path base_path
  ok (record opts { include_paths = included; output_path = output_path })

-- ExtractArchive up to the call of the handler, with its format and options; `missing` says whether
-- os.Stat finds nothing at a path.
pub prepare_extract :
    (Text → Bool) → Text → ExtractOptions → Result ArchiveError (Text × ExtractOptions)
unfolding ensure_within_stack_path detect_format
prepare_extract missing base_path opts = do
  check (not (text_eq opts.archive_path [])) no_archive_path
  let destination = if text_eq opts.destination_path [] then codes "." else opts.destination_path
  let archive_path = join_paths base_path opts.archive_path
  let destination_path = join_paths base_path destination
  ensure_within_stack_path archive_path base_path
  ensure_within_stack_path destination_path base_path
  check (not (missing archive_path)) archive_not_found
  let format = detect_format archive_path
  check (member format handled_formats) (unsupported_archive_format format)
  ok (format, record opts { archive_path = archive_path; destination_path = destination_path })
