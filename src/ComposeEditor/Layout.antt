-- ===== src/ComposeEditor/Layout.antt =====
-- internal/composeeditor/service.go: blank lines between the services of the text that is written.
pub mod Idempotent
use berth_agent.Prelude.{
  ℕ, ◌+◌, ◌-◌, Bool, true, false, not, ◌&&◌, ◌||◌, Option, none, some, List, [], ◌∷◌, ◌++◌, Text,
  codes, text_eq, leb, if◌then◌else◌, ◌==◌,
}
use berth_agent.Prelude.{all, has_prefix}
use berth_agent.StackNames.{is_alphanumeric}

abbrev pub newline : ℕ
newline = 10

-- A byte in front of the first line.
abbrev pub in_front : ℕ → List Text → List Text
in_front c [] = (c ∷ []) ∷ []
in_front c (line ∷ lines) = (c ∷ line) ∷ lines

-- strings.Split(yaml, "\n") and strings.Join(result, "\n")
unfoldable pub split_lines : Text → List Text
split_lines [] = [] ∷ []
split_lines (c ∷ s) =
    let rest = split_lines s in if c == newline then [] ∷ rest else in_front c rest

unfoldable pub join_lines : List Text → Text
join_lines [] = []
join_lines (line ∷ []) = line
join_lines (line ∷ next ∷ lines) = line ++ (newline ∷ join_lines (next ∷ lines))

abbrev is_space : ℕ → Bool
is_space c = c == b' ' || c == 9 || c == 10 || c == 12 || c == 13

abbrev is_letter : ℕ → Bool
is_letter c = (leb b'a' c && leb c b'z') || (leb b'A' c && leb c b'Z')

-- What is behind the first letter of a name: [a-zA-Z0-9_-]*:\s*$
unfoldable pub behind_letter : Text → Bool
unfolding is_alphanumeric
behind_letter [] = false
behind_letter (c ∷ s) =
    (c == b':' && all is_space s)
    || ((is_alphanumeric c || c == b'_' || c == b'-') && behind_letter s)

-- serviceDefRegex on a line: two spaces, a name and a colon
unfoldable pub is_service_line : Text → Bool
unfolding behind_letter
is_service_line (a ∷ b ∷ c ∷ s) = a == b' ' && b == b' ' && is_letter c && behind_letter s
is_service_line _ = false

-- len(line) > 0 && line[0] != ' ' && line[0] != '#'
abbrev pub is_outdented : Text → Bool
is_outdented [] = false
is_outdented (c ∷ s) = not (c == b' ') && not (c == b'#')

-- The variable inServices after a line.
abbrev pub in_services : Bool → Text → Bool
in_services before line =
    if has_prefix line (codes "services:")
    then true
    else if is_outdented line
    then false
    else before

-- Whether there is a line in front, and it is not blank.
abbrev pub follows_text : Option Text → Bool
follows_text none = false
follows_text (some prev) = not (text_eq prev [])

-- The loop, behind the line `prev`.
unfoldable pub space_lines : Bool → Option Text → List Text → List Text
unfolding is_service_line
space_lines before prev [] = []
space_lines before prev (line ∷ lines) =
    let now = in_services before line in
    let rest = space_lines now (some line) lines in
    if now && follows_text prev && is_service_line line then [] ∷ line ∷ rest else line ∷ rest

-- addBlankLinesBetweenSections
unfoldable pub add_blank_lines : Text → Text
unfolding split_lines space_lines join_lines
add_blank_lines yaml = join_lines (space_lines false none (split_lines yaml))
