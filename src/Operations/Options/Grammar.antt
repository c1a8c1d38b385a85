-- ===== src/Operations/Options/Grammar.antt =====
-- internal/operations/validation.go: the option lists that `validateOptions` accepts.
use mathlib.Core.Path.{subst₂}
use berth_agent.Prelude.{
  ==_iff, ◌≡◌, refl, ap, inl, inr, Bool, true, false, not, ◌&&◌, ◌||◌, Option, some, List, [], ◌∷◌,
  ◌++◌, arith, ok, Text, codes, text_eq_iff, ◌==◌, Bool-cases, Option-cases,
}
use berth_agent.Prelude.{member, has_prefix, contains, any, check-bind-eq-ok}
use berth_agent.Operations.Options.{
  contains_dangerous_chars, requires_value, is_listed_value, is_duration_option, matches_numeric,
  matches_scale, validate_option_value, split_inline, is_inline, validate_inline, validate_option,
  validate_options,
}
use berth_agent.Operations.Options.Dangerous.{is_dangerous_byte, contains_dangerous_chars_iff}

or_left : (a b : Bool) → a || b ≡ false → a ≡ false
or_left a b h = ground arith

or_right : (a b : Bool) → a || b ≡ false → b ≡ false
or_right a b h = ground arith

-- No byte of the text is dangerous to a shell.
abbrev pub IsSafe : Text → Type 0
IsSafe s = any is_dangerous_byte s ≡ false

pub IsSafe-of_test : (s : Text) → not (contains_dangerous_chars s) ≡ true → IsSafe s
IsSafe-of_test s h = ground (arith, contains_dangerous_chars_iff s)

test_of_IsSafe : (s : Text) → IsSafe s → not (contains_dangerous_chars s) ≡ true
test_of_IsSafe s h = ground (arith, contains_dangerous_chars_iff s)

-- What the value of an option must be.
pub record FitsOption (option value : Text) : Type 0 where
  pub safe : IsSafe value
  pub listed : is_listed_value option value ≡ true
  pub timed : is_duration_option option ≡ true → matches_numeric value ≡ true
  pub scaled : option ≡ codes "--scale" → matches_scale value ≡ true

-- `--name=value`, where the value begins behind the first equals sign.
pub record SplitsInto (option name value : Text) : Type 0 where
  pub parts : option ≡ name ++ b'=' ∷ value
  pub first : any (λ c. c == b'=') name ≡ false

-- The option lists for a command with these options. An option that wants a value takes the next
-- element, and may stand last without one.
pub data Options (valid : List Text) : List Text → Type 0 where
  none_left : Options valid []
  inline :
      {option name value : Text} {rest : List Text}
      → IsSafe option
      → has_prefix option (codes "--") ≡ true
      → SplitsInto option name value
      → member name valid ≡ true
      → FitsOption name value
      → Options valid rest
      → Options valid (option ∷ rest)
  switch :
      {option : Text} {rest : List Text}
      → IsSafe option
      → is_inline option ≡ false
      → member option valid ≡ true
      → requires_value option ≡ false
      → Options valid rest
      → Options valid (option ∷ rest)
  valued :
      {option value : Text} {rest : List Text}
      → IsSafe option
      → is_inline option ≡ false
      → member option valid ≡ true
      → requires_value option ≡ true
      → FitsOption option value
      → Options valid rest
      → Options valid (option ∷ value ∷ rest)
  unvalued :
      {option : Text}
      → IsSafe option
      → is_inline option ≡ false
      → member option valid ≡ true
      → requires_value option ≡ true
      → Options valid (option ∷ [])

pub FitsOption-of_ok : (o v : Text) → validate_option_value o v ≡ ok tt → FitsOption o v
unfolding validate_option_value
FitsOption-of_ok o v h =
    let (a, h₁) = check-bind-eq-ok (not (contains_dangerous_chars v)) _ _ h in
    let (b, h₂) = check-bind-eq-ok (is_listed_value o v) _ _ h₁ in
    let (c, h₃) = check-bind-eq-ok (not (is_duration_option o && not (matches_numeric v))) _ _ h₂ in
    record {
      safe = IsSafe-of_test v a;
      listed = b;
      timed = λ e. ground arith;
      scaled = λ e. ground (arith, text_eq_iff o (codes "--scale"));
    }

ok_of_FitsOption : (o v : Text) → FitsOption o v → validate_option_value o v ≡ ok tt
unfolding validate_option_value
ok_of_FitsOption o v f =
    ground
      (arith, test_of_IsSafe v f.safe, f.listed, f.timed, f.scaled, text_eq_iff o (codes "--scale"))

pub SplitsInto-of_split :
    (o name value : Text) → split_inline o ≡ some (name, value) → SplitsInto o name value
unfolding split_inline
SplitsInto-of_split [] name value h = absurd (cc)
SplitsInto-of_split (c ∷ s) name value h = elim (Bool-cases (c == b'=')) [
  | inl here ↦
      let whole : ◌≡◌ {A = Option (Text × Text)} (some ([], s)) (some (name, value)) =
        rw here at h in
      let e : ◌≡◌ {A = Text} [] name = cc in
      let e' : s ≡ value = cc in
      subst₂ (SplitsInto (c ∷ s)) e e'
        (record { parts = ap (λ d. d ∷ s) ((==_iff c b'=').0 here); first = refl })
  | inr other ↦ elim (Option-cases (split_inline s)) [
    | inl stuck ↦ absurd (cc (rw (other, stuck, split_inline) at h))
    | inr ((n, v), found) ↦
        let ih = SplitsInto-of_split s n v found in
        let whole : ◌≡◌ {A = Option (Text × Text)} (some (c ∷ n, v)) (some (name, value)) =
          rw (other, found, split_inline) at h in
        let e : c ∷ n ≡ name = cc in
        let e' : v ≡ value = cc in
        subst₂ (SplitsInto (c ∷ s)) e e'
          (record { parts = ap (◌∷◌ c) ih.parts; first = rw other ih.first })
  ]
]

split_of_parts :
    (name value : Text)
    → any (λ c. c == b'=') name ≡ false
    → split_inline (name ++ b'=' ∷ value) ≡ some (name, value)
unfolding split_inline
split_of_parts [] value h = refl
split_of_parts (c ∷ name) value h =
    let other : (c == b'=') ≡ false = or_left _ _ h in
    let later : any (λ d. d == b'=') name ≡ false = or_right _ _ h in
    rw (other, split_of_parts name value later, split_inline)

split_of_SplitsInto :
    (o name value : Text) → SplitsInto o name value → split_inline o ≡ some (name, value)
split_of_SplitsInto o name value s = rw s.parts (split_of_parts name value s.first)

contains_equals : (name value : Text) → contains (name ++ b'=' ∷ value) (codes "=") ≡ true
unfolding contains has_prefix
contains_equals [] value = refl
contains_equals (c ∷ name) value = ground (arith, contains_equals name value)

-- What one round accepts.
module _ (valid : List Text) where
  inline_accepts :
      {option name value : Text}
      → IsSafe option
      → has_prefix option (codes "--") ≡ true
      → SplitsInto option name value
      → member name valid ≡ true
      → FitsOption name value
      → validate_option valid option ≡ ok false
  unfolding validate_option
  inline_accepts {option} {name} {value} safe dashed split known fits =
      let equals : contains option (codes "=") ≡ true =
        rw split.parts (contains_equals name value) in
      let parts = split_of_SplitsInto option name value split in
      rw (test_of_IsSafe option safe, dashed, equals, parts)
        (unfold validate_inline in rw (known, ok_of_FitsOption name value fits))

  plain_accepts :
      (option : Text)
      → IsSafe option
      → is_inline option ≡ false
      → member option valid ≡ true
      → validate_option valid option ≡ ok (requires_value option)
  unfolding validate_option
  plain_accepts option safe plain known = rw (test_of_IsSafe option safe, plain, known)

  pub accepts :
      {options : List Text} → Options valid options → validate_options valid options ≡ ok tt
  unfolding validate_options
  accepts none_left = refl
  accepts (inline {rest = []} safe dashed split known fits more) =
      rw (inline_accepts safe dashed split known fits)
  accepts (inline {rest = v ∷ rest} safe dashed split known fits more) =
      rw (inline_accepts safe dashed split known fits) (accepts more)
  accepts (switch {option = o} {rest = []} safe plain known bare more) =
      rw (plain_accepts o safe plain known)
  accepts (switch {option = o} {rest = v ∷ rest} safe plain known bare more) =
      rw (plain_accepts o safe plain known, bare) (accepts more)
  accepts (valued {option = o} {value = v} safe plain known wants fits more) =
      rw (plain_accepts o safe plain known, wants, ok_of_FitsOption o v fits) (accepts more)
  accepts (unvalued {option = o} safe plain known wants) = rw (plain_accepts o safe plain known)
