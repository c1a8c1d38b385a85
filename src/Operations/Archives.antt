-- ===== src/Operations/Archives.antt =====
-- internal/operations/service.go: the options of an archive, as its handlers read them. The loops look at
-- every option, also at one that is the value of the option in front of it.
pub mod Formats
mod Tests
use berth_agent.Prelude.{
  ◌+◌, ◌-◌, true, false, Option, none, some, List, [], ◌∷◌, ◌++◌, Text, codes, text_eq,
  if◌then◌else◌,
}
use berth_agent.Archive.Service.{CreateOptions, ExtractOptions}

-- options[i+1], if there is one
abbrev pub next_option : List Text → Option Text
next_option [] = none
next_option (v ∷ rest) = some v

-- The switch of `handleCreateArchive`.
unfoldable pub create_option : Text → Option Text → CreateOptions → CreateOptions
create_option opt none o = o
create_option opt (some v) o =
    if text_eq opt (codes "--format")
    then record o { format = v }
    else if text_eq opt (codes "--output")
    then record o { output_path = v }
    else if text_eq opt (codes "--include")
    then record o { include_paths = o.include_paths ++ v ∷ [] }
    else if text_eq opt (codes "--exclude")
    then record o { exclude_patterns = o.exclude_patterns ++ v ∷ [] }
    else if text_eq opt (codes "--compression")
    then record o { compression = v }
    else o

-- Its loop.
unfoldable pub read_create : CreateOptions → List Text → CreateOptions
unfolding create_option
read_create o [] = o
read_create o (opt ∷ rest) = read_create (create_option opt (next_option rest) o) rest

abbrev pub create_defaults : CreateOptions
create_defaults = record {
  format = codes "zip";
  output_path = [];
  include_paths = [];
  exclude_patterns = [];
  compression = codes "gzip";
}

-- handleCreateArchive up to the call of CreateArchive
unfoldable pub create_options : List Text → CreateOptions
unfolding read_create
create_options options = read_create create_defaults options

-- The switch of `handleExtractArchive`.
pub extract_option : Text → Option Text → ExtractOptions → ExtractOptions
extract_option opt following o =
    if text_eq opt (codes "--archive")
    then elim following [ none ↦ o | some v ↦ record o { archive_path = v } ]
    else if text_eq opt (codes "--destination")
    then elim following [ none ↦ o | some v ↦ record o { destination_path = v } ]
    else if text_eq opt (codes "--overwrite")
    then record o { overwrite = true }
    else if text_eq opt (codes "--create-dirs")
    then record o { create_dirs = true }
    else o

pub read_extract : ExtractOptions → List Text → ExtractOptions
unfolding extract_option
read_extract o [] = o
read_extract o (opt ∷ rest) = read_extract (extract_option opt (next_option rest) o) rest

-- handleExtractArchive up to the call of ExtractArchive
pub extract_options : List Text → ExtractOptions
unfolding read_extract
extract_options options =
    read_extract
      (record {
        archive_path = [];
        destination_path = codes ".";
        overwrite = false;
        create_dirs = false;
      })
      options
