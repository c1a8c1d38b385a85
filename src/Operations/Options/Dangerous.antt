-- ===== src/Operations/Options/Dangerous.antt =====
-- internal/operations/validation.go: what `containsDangerousChars` looks for, byte by byte.
use berth_agent.Prelude.{
  all, subst, ==_iff, subst, ℕ, ◌≡◌, refl, sym, inl, inr, ◌↔◌, Bool, true, false, ◌&&◌, List, [],
  ◌∷◌, arith, Text, text_eq, text_eq_iff, ◌==◌, Bool-cases,
}
use berth_agent.Prelude.{member, has_prefix, contains, any}
use berth_agent.Operations.Options.{dangerous_patterns, contains_dangerous_chars}

-- ; & | $ ` ) { } < > \ ' " and the newline, the carriage return and the tab
abbrev pub dangerous_bytes : List ℕ
dangerous_bytes =
    b';' ∷ b'&' ∷ b'|' ∷ b'$' ∷ b'`' ∷ b')' ∷ b'{' ∷ b'}' ∷ b'<' ∷ b'>' ∷ 92 ∷ 39 ∷ 34 ∷ 10 ∷ 13 ∷ 9
    ∷ []

unfoldable pub is_dangerous_byte : ℕ → Bool
is_dangerous_byte c = any (λ d. c == d) dangerous_bytes

any_of_member :
    (f : Text → Bool) (p : Text) (l : List Text) → member p l ≡ true → f p ≡ true → any f l ≡ true
unfolding member
any_of_member f p [] m h = m
any_of_member f p (q ∷ l) m h = elim (Bool-cases (text_eq p q)) [
  | inl same ↦ rw (subst (λ t. f t ≡ true) ((text_eq_iff p q).0 same) h) refl
  | inr other ↦ ground (arith, any_of_member f p l (rw other at m) h)
]

any_mono :
    (f g : Text → Bool) (l : List Text)
    → ((p : Text) → f p ≡ true → g p ≡ true)
    → any f l ≡ true
    → any g l ≡ true
any_mono f g [] up h = h
any_mono f g (p ∷ l) up h = ground (arith, up p, any_mono f g l up)

-- A text that contains a pattern has the pattern's first byte.
any-contains :
    (s : Text) (c : ℕ) (p : Text)
    → is_dangerous_byte c ≡ true
    → contains s (c ∷ p) ≡ true
    → any is_dangerous_byte s ≡ true
unfolding contains has_prefix
any-contains [] c p d h = cc
any-contains (b ∷ s) c p d h = elim (Bool-cases (b == c)) [
  | inl same ↦ rw (subst (λ n. is_dangerous_byte n ≡ true) (sym ((==_iff b c).0 same)) d) refl
  | inr other ↦ ground (arith, any-contains s c p d (rw other at h))
]

and_left : (a b : Bool) → a && b ≡ true → a ≡ true
and_left a b h = ground arith

and_right : (a b : Bool) → a && b ≡ true → b ≡ true
and_right a b h = ground arith

contains_cons : (c : ℕ) (s p : Text) → contains s p ≡ true → contains (c ∷ s) p ≡ true
unfolding contains
contains_cons c s p e = ground arith

-- A text that begins with a byte that is a pattern by itself contains that pattern.
contains_single :
    (d c : ℕ) (s : Text)
    → member (d ∷ []) dangerous_patterns ≡ true
    → c ≡ d
    → any (contains (c ∷ s)) dangerous_patterns ≡ true
contains_single d c s m e =
    any_of_member (contains (c ∷ s)) (d ∷ []) dangerous_patterns m
      (unfold contains has_prefix in ground (arith, ==_iff c d))

-- So does one that begins with any of such bytes.
contains_of_any :
    (c : ℕ) (s : Text) (l : List ℕ)
    → all (λ d. member (d ∷ []) dangerous_patterns) l ≡ true
    → any (λ d. c == d) l ≡ true
    → any (contains (c ∷ s)) dangerous_patterns ≡ true
contains_of_any c s [] a m = absurd (cc)
contains_of_any c s (d ∷ l) a m = elim (Bool-cases (c == d)) [
  | inl same ↦ contains_single d c s (and_left _ _ a) ((==_iff c d).0 same)
  | inr other ↦ contains_of_any c s l (and_right _ _ a) (rw other at m)
]

any-contains_of_any :
    (s : Text) → any is_dangerous_byte s ≡ true → any (contains s) dangerous_patterns ≡ true
unfolding is_dangerous_byte member text_eq
any-contains_of_any [] h = absurd (cc)
any-contains_of_any (c ∷ s) h = elim (Bool-cases (is_dangerous_byte c)) [
  | inl here ↦ contains_of_any c s dangerous_bytes refl here
  | inr there ↦
      any_mono (contains s) (contains (c ∷ s)) dangerous_patterns (contains_cons c s)
        (any-contains_of_any s (rw there at h))
]

abbrev starts_dangerous : Text → Bool
starts_dangerous [] = false
starts_dangerous (c ∷ p) = is_dangerous_byte c

any_of_pattern :
    (s p : Text) → starts_dangerous p ≡ true → contains s p ≡ true → any is_dangerous_byte s ≡ true
any_of_pattern s [] d h = absurd (cc)
any_of_pattern s (c ∷ p) d h = any-contains s c p d h

any_of_any-contains :
    (s : Text) (l : List Text)
    → all starts_dangerous l ≡ true
    → any (contains s) l ≡ true
    → any is_dangerous_byte s ≡ true
any_of_any-contains s [] a h = absurd (cc)
any_of_any-contains s (p ∷ l) a h = elim (Bool-cases (contains s p)) [
  | inl here ↦ any_of_pattern s p (and_left _ _ a) here
  | inr there ↦ any_of_any-contains s l (and_right _ _ a) (rw there at h)
]

-- The patterns of two bytes add nothing: a text contains a dangerous pattern exactly if one of its
-- bytes is dangerous. An opening parenthesis alone is not.
pub contains_dangerous_chars_iff :
    (s : Text) → (contains_dangerous_chars s ≡ true) ↔ (any is_dangerous_byte s ≡ true)
unfolding contains_dangerous_chars is_dangerous_byte
contains_dangerous_chars_iff s =
    (any_of_any-contains s dangerous_patterns refl, any-contains_of_any s)
