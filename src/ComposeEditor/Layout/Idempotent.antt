-- ===== src/ComposeEditor/Layout/Idempotent.antt =====
-- internal/composeeditor/service.go: blank lines are added once.
use berth_agent.Prelude.{
  subst, ℕ, ◌≡◌, refl, ap, sym, ◌∙◌, inl, inr, Bool, true, false, not, ◌&&◌, Option, none, some,
  List, [], ◌∷◌, ◌++◌, arith, Text, text_eq, if◌then◌else◌, ◌==◌, Bool-cases, All,
}
use berth_agent.Prelude.{all, has_prefix}
use berth_agent.ComposeEditor.Layout.{
  newline, in_front, split_lines, join_lines, is_service_line, in_services, follows_text,
  space_lines, add_blank_lines,
}

blank_skipped :
    (before : Bool) (prev : Option Text) (lines : List Text)
    → space_lines before prev ([] ∷ lines) ≡ [] ∷ space_lines before (some []) lines
unfolding space_lines is_service_line has_prefix
blank_skipped true none lines = refl
blank_skipped true (some p) lines = ground arith
blank_skipped false prev lines = refl

behind_blank :
    (before : Bool) (line : Text) (lines : List Text)
    → space_lines before (some []) (line ∷ lines)
      ≡ line ∷ space_lines (in_services before line) (some line) lines
unfolding space_lines text_eq
behind_blank before line lines = elim (Bool-cases (in_services before line)) [
  | inl inside ↦ rw inside refl
  | inr outside ↦ rw outside refl
]

-- Lines are spaced once.
space_lines_twice :
    (before : Bool) (prev : Option Text) (lines : List Text)
    → space_lines before prev (space_lines before prev lines) ≡ space_lines before prev lines
unfolding space_lines
space_lines_twice before prev [] = refl
space_lines_twice before prev (line ∷ lines) =
    let now = in_services before line in
    let later = space_lines_twice now (some line) lines in
    elim (Bool-cases (now && follows_text prev && is_service_line line)) [
      | inl spaced ↦
          rw
            (
              spaced,
              blank_skipped before prev (line ∷ space_lines now (some line) lines),
              behind_blank before line (space_lines now (some line) lines),
              later,
            )
            refl
      | inr plain ↦ rw (plain, later, plain) refl
    ]

-- The lines that are not blank.
pub full_lines : List Text → List Text
full_lines [] = []
full_lines (line ∷ lines) =
    let rest = full_lines lines in if text_eq line [] then rest else line ∷ rest

full_lines-space_lines :
    (before : Bool) (prev : Option Text) (lines : List Text)
    → full_lines (space_lines before prev lines) ≡ full_lines lines
unfolding space_lines full_lines text_eq
full_lines-space_lines before prev [] = refl
full_lines-space_lines before prev (line ∷ lines) =
    let now = in_services before line in
    let later = full_lines-space_lines now (some line) lines in
    elim (Bool-cases (now && follows_text prev && is_service_line line)) [
      | inl spaced ↦ rw (spaced, later) refl
      | inr plain ↦ rw (plain, later) refl
    ]

-- A line without a newline.
pub IsLine : Text → Type 0
IsLine line = all (λ c. not (c == newline)) line ≡ true

in_front-IsLine :
    (c : ℕ) (lines : List Text)
    → (c == newline) ≡ false
    → All IsLine lines
    → All IsLine (in_front c lines)
unfolding IsLine
in_front-IsLine c [] ne h = (ground arith, tt)
in_front-IsLine c (line ∷ lines) ne (h, t) = (ground arith, t)

split_lines-IsLine : (s : Text) → All IsLine (split_lines s)
unfolding split_lines
split_lines-IsLine [] = (unfold IsLine in refl, tt)
split_lines-IsLine (c ∷ s) = elim (Bool-cases (c == newline)) [
  | inl break ↦ rw break (unfold IsLine in refl, split_lines-IsLine s)
  | inr other ↦ rw other (in_front-IsLine c (split_lines s) other (split_lines-IsLine s))
]

split_line :
    (line s : Text) → IsLine line → split_lines (line ++ (newline ∷ s)) ≡ line ∷ split_lines s
unfolding split_lines IsLine
split_line [] s h = refl
split_line (c ∷ line) s h = ground (arith, split_line line s)

split_last : (line : Text) → IsLine line → split_lines line ≡ line ∷ []
unfolding split_lines IsLine
split_last [] h = refl
split_last (c ∷ line) h = ground (arith, split_last line)

split_lines-join_lines :
    (line : Text) (lines : List Text)
    → All IsLine (line ∷ lines)
    → split_lines (join_lines (line ∷ lines)) ≡ line ∷ lines
unfolding join_lines
split_lines-join_lines line [] (h, t) = split_last line h
split_lines-join_lines line (next ∷ lines) (h, t) =
    split_line line (join_lines (next ∷ lines)) h
    ∙ ap (◌∷◌ line) (split_lines-join_lines next lines t)

space_lines-IsLine :
    (before : Bool) (prev : Option Text) (lines : List Text)
    → All IsLine lines
    → All IsLine (space_lines before prev lines)
unfolding space_lines
space_lines-IsLine before prev [] h = tt
space_lines-IsLine before prev (line ∷ lines) (h, t) =
    let now = in_services before line in
    let later = space_lines-IsLine now (some line) lines t in
    elim (Bool-cases (now && follows_text prev && is_service_line line)) [
      | inl spaced ↦ rw spaced (unfold IsLine in refl, (h, later))
      | inr plain ↦ rw plain (h, later)
    ]

-- What is put together is taken apart again.
split-join-space :
    (line : Text) (lines : List Text)
    → All IsLine (line ∷ lines)
    → split_lines (join_lines (space_lines false none (line ∷ lines)))
      ≡ space_lines false none (line ∷ lines)
unfolding space_lines
split-join-space line lines h =
    let now = in_services false line in
    let rest = space_lines now (some line) lines in
    elim (Bool-cases now) [
      | inl inside ↦ rw inside (
          split_lines-join_lines line (space_lines true (some line) lines)
            (h.0, space_lines-IsLine true (some line) lines h.1))
      | inr outside ↦ rw outside (
          split_lines-join_lines line (space_lines false (some line) lines)
            (h.0, space_lines-IsLine false (some line) lines h.1))
    ]

split_lines_some :
    (s : Text) → (line : Text) × ((lines : List Text) × (split_lines s ≡ line ∷ lines))
unfolding split_lines
split_lines_some [] = ([], ([], refl))
split_lines_some (c ∷ s) =
    let (line, (lines, e)) = split_lines_some s in
    elim (Bool-cases (c == newline)) [
      | inl break ↦ ([], (split_lines s, rw break refl))
      | inr other ↦ (c ∷ line, (lines, rw (other, e) refl))
    ]

spaced_back :
    (yaml : Text)
    → split_lines (join_lines (space_lines false none (split_lines yaml)))
      ≡ space_lines false none (split_lines yaml)
spaced_back yaml =
    let (line, (lines, e)) = split_lines_some yaml in
    subst (λ l. split_lines (join_lines (space_lines false none l)) ≡ space_lines false none l)
      (sym e) (split-join-space line lines (subst (All IsLine) e (split_lines-IsLine yaml)))

-- Adding blank lines between the services a second time changes nothing, and of the lines only blank
-- ones are added: the others are the same in the same order.
pub add_blank_lines_idempotent :
    (yaml : Text)
    → (add_blank_lines (add_blank_lines yaml) ≡ add_blank_lines yaml)
      × (full_lines (split_lines (add_blank_lines yaml)) ≡ full_lines (split_lines yaml))
unfolding add_blank_lines
add_blank_lines_idempotent yaml =
    let lines = split_lines yaml in
    let back = spaced_back yaml in
    (
      rw (back, space_lines_twice false none lines) refl,
      ap full_lines back ∙ full_lines-space_lines false none lines,
    )
