-- ===== src/StackNames.antt =====
-- internal/validation/validator.go: the names of stacks.
pub mod Accepted
mod Tests
use berth_agent.Prelude.{
  ℕ, ◌+◌, ◌-◌, Bool, true, false, not, ◌&&◌, ◌||◌, List, [], ◌∷◌, Result, ◌>>=◌, ◌>>◌, check, Text,
  codes, text_eq, ltb, leb, if◌then◌else◌, ◌==◌, length,
}
use berth_agent.Paths.{clean, join_paths, abs, rel}
use berth_agent.Prelude.{none, some, err, ok, any, all, has_prefix, contains}

-- ErrInvalidStackName, ErrPathTraversal, ErrInvalidCharacters
pub data NameError : Type 0 where
  invalid_stack_name path_traversal invalid_characters : NameError

unfoldable pub is_alphanumeric : ℕ → Bool
is_alphanumeric c =
    (leb b'a' c && leb c b'z') || (leb b'A' c && leb c b'Z') || (leb b'0' c && leb c b'9')

-- [a-zA-Z0-9._-]
unfoldable pub is_name_byte : ℕ → Bool
unfolding is_alphanumeric
is_name_byte c = is_alphanumeric c || c == b'.' || c == b'_' || c == b'-'

-- ValidStackNameRegex, ^[a-zA-Z0-9][a-zA-Z0-9._-]*$
unfoldable pub matches_name : Text → Bool
unfolding is_name_byte
matches_name [] = false
matches_name (c ∷ s) = is_alphanumeric c && all is_name_byte s

unfoldable pub to_lower : ℕ → ℕ
to_lower c = if leb b'A' c && leb c b'Z' then c + 32 else c

-- strings.EqualFold, on ASCII text
unfoldable pub equal_fold : Text → Text → Bool
unfolding to_lower
equal_fold [] [] = true
equal_fold [] (d ∷ t) = false
equal_fold (c ∷ s) [] = false
equal_fold (c ∷ s) (d ∷ t) = to_lower c == to_lower d && equal_fold s t

-- The names of devices among `reserved`.
abbrev pub device_names : List Text
device_names = codes "con" ∷ codes "prn" ∷ codes "aux" ∷ codes "nul" ∷ []

abbrev pub reserved : List Text
reserved = codes "." ∷ codes ".." ∷ device_names

unfoldable pub validate_stack_name : Text → Result NameError (Unit {0})
unfolding matches_name equal_fold
validate_stack_name name = do
  check (not (text_eq name [])) invalid_stack_name
  check (not (ltb 64 (length name))) invalid_stack_name
  check (matches_name name) invalid_characters
  check (not (contains name (codes ".."))) path_traversal
  check (not (has_prefix name (codes "/"))) path_traversal
  check (not (any (equal_fold name) reserved)) invalid_stack_name

-- SanitizeStackPath, in the directory `cwd`
unfoldable pub sanitize_stack_path : Text → Text → Text → Result NameError Text
unfolding validate_stack_name
sanitize_stack_path cwd base name = do
  validate_stack_name name
  let clean_path = clean (join_paths base name)
  elim (rel (abs cwd base) (abs cwd clean_path)) [
    | none ↦ err path_traversal
    | some way ↦ check (not (has_prefix way (codes ".."))) path_traversal >> ok clean_path
  ]
