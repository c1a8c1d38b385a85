-- ===== src/Archive/Service/Within.antt =====
-- internal/archive/security.go and service.go: which paths count as inside of a stack, and which archives
-- are unpacked.
use berth_agent.Prelude.{◌≡◌, Bool, true, false, [], ◌++◌, Text, codes, text_eq, if◌then◌else◌}
use berth_agent.Prelude.{member}
use berth_agent.Paths.{clean, join_paths}
use berth_agent.Archive.Service.{handled_formats, detect_format, ExtractOptions}

-- The cleaned path is that of the stack with some text behind it, which need not begin with a slash.
unfoldable pub Begins : Text → Text → Type 0
Begins path stack_path = (r : Text) × (clean path ≡ clean stack_path ++ r)

-- What the handler of a format gets, when the archive of these options is unpacked.
pub record IsUnpacked (missing : Text → Bool) (base_path : Text) (opts : ExtractOptions)
    (format : Text) (opts' : ExtractOptions) : Type 0 where
  pub named : ¬ (opts.archive_path ≡ [])
  pub archive : opts'.archive_path ≡ join_paths base_path opts.archive_path
  pub destination : opts'.destination_path ≡ (
      if text_eq opts.destination_path []
      then clean base_path
      else join_paths base_path opts.destination_path)
  pub overwrite_kept : opts'.overwrite ≡ opts.overwrite
  pub create_dirs_kept : opts'.create_dirs ≡ opts.create_dirs
  pub from_stack : Begins opts'.archive_path base_path
  pub into_stack : Begins opts'.destination_path base_path
  pub present : missing opts'.archive_path ≡ false
  pub detected : format ≡ detect_format opts'.archive_path
  pub handled : member format handled_formats ≡ true

-- The place where an archive is unpacked.
abbrev destination_of : Text → ExtractOptions → Text
destination_of base_path opts =
    join_paths base_path
      (if text_eq opts.destination_path [] then codes "." else opts.destination_path)
