-- ===== src/Archive/Service/Tests.antt =====
-- internal/archive: runs at concrete inputs.
use berth_agent.Prelude.{◌≡◌, refl, Bool, true, false, [], ok, Text, codes, text_eq}
use berth_agent.Prelude.{has_prefix, member}
use berth_agent.Paths.{clean, elements, is_abs, kept, up, join_elements, join_paths}
use berth_agent.StackNames.{to_lower}
use berth_agent.Archive.Service.{
  ExtractOptions, ensure_within_stack_path, prepare_extract, detect_format, ext,
}
use berth_agent.Prelude.{contains, err}
use berth_agent.Archive.Service.{validate_extract_path, outside_destination}
use berth_agent.Archive.Service.Inside.{IsInside, validate_extract_path-IsInside}

-- A directory beside the stack.
sibling_accepted :
    ensure_within_stack_path (codes "/srv/web/../web2/x.zip") (codes "/srv/web") ≡ ok tt
unfolding ensure_within_stack_path clean elements is_abs kept up join_elements has_prefix text_eq
sibling_accepted = refl

abbrev sample_extract : ExtractOptions
sample_extract = record {
  archive_path = codes "a.tar.gz";
  destination_path = [];
  overwrite = true;
  create_dirs = false;
}

abbrev sample_unpacked : ExtractOptions
sample_unpacked = record sample_extract {
  archive_path = codes "/srv/web/a.tar.gz";
  destination_path = codes "/srv/web";
}

abbrev none_missing : Text → Bool
none_missing path = false

sample_extract_done :
    prepare_extract none_missing (codes "/srv/web") sample_extract
    ≡ ok (codes "tar.gz", sample_unpacked)
unfolding prepare_extract ensure_within_stack_path join_paths clean elements is_abs kept up
    join_elements has_prefix text_eq member detect_format ext to_lower
sample_extract_done = refl

sample_member_accepted :
    validate_extract_path (codes "/srv/web") (codes "logs/../a.txt") ≡ ok (codes "/srv/web/a.txt")
unfolding validate_extract_path join_paths clean elements is_abs kept up join_elements has_prefix
    text_eq contains
sample_member_accepted = refl

-- A member that leads out of the directory.
sample_member_refused :
    validate_extract_path (codes "/srv/web") (codes "../web2/a.txt")
    ≡ err (outside_destination (codes "../web2/a.txt"))
unfolding validate_extract_path join_paths clean elements is_abs kept up join_elements has_prefix
    text_eq contains
sample_member_refused = refl

validate_extract_path-IsInside_example :
    (codes "/srv/web/a.txt" ≡ join_paths (codes "/srv/web") (codes "logs/../a.txt"))
    × IsInside (codes "/srv/web/a.txt") (codes "/srv/web")
validate_extract_path-IsInside_example =
    validate_extract_path-IsInside (codes "/srv/web") (codes "logs/../a.txt")
      (codes "/srv/web/a.txt") (unfold is_abs in refl) sample_member_accepted
