-- ===== src/Operations/Options/Exact.antt =====
-- internal/operations/validation.go: `validateOptions` accepts exactly the option lists of the grammar.
use berth_agent.Prelude.{
  subst, ◌≡◌, refl, inl, inr, ◌↔◌, Bool, true, false, not, Option, none, some, List, [], ◌∷◌, arith,
  ok, ◌>>◌, check, Text, codes, Bool-cases, All,
}
use berth_agent.Prelude.{member, has_prefix, check-bind-eq-ok, bind-eq-ok}
use berth_agent.Operations.Options.{
  invalid_option, contains_dangerous_chars, requires_value, validate_option_value, split_inline,
  is_inline, validate_inline, validate_option, validate_options,
}
use berth_agent.Operations.Options.Grammar.{
  IsSafe, FitsOption, SplitsInto, Options, none_left, inline, switch, valued, unvalued, accepts,
  FitsOption-of_ok, SplitsInto-of_split, IsSafe-of_test,
}

module _ (valid : List Text) where
  -- What an accepted option is, by the answer of the round.
  data Round (option : Text) : Bool → Type 0 where
    splits :
        {name value : Text}
        → IsSafe option
        → has_prefix option (codes "--") ≡ true
        → SplitsInto option name value
        → member name valid ≡ true
        → FitsOption name value
        → Round option false
    stands :
        {takes : Bool}
        → IsSafe option
        → is_inline option ≡ false
        → member option valid ≡ true
        → requires_value option ≡ takes
        → Round option takes

  inline-Round :
      (option : Text) (takes : Bool) (parts : Option (Text × Text))
      → split_inline option ≡ parts
      → IsSafe option
      → is_inline option ≡ true
      → (validate_inline valid parts >> ok false) ≡ ok takes
      → Round option takes
  unfolding validate_inline
  inline-Round option takes none found safe i k = absurd (cc)
  inline-Round option takes (some (name, value)) found safe i k =
      let (u, a, e) =
        bind-eq-ok (check (member name valid) invalid_option >> validate_option_value name value) _
          k in
      let (known, fits) = check-bind-eq-ok (member name valid) _ _ a in
      let same : false ≡ takes = cc in
      subst (Round option) same (
        splits safe (ground arith) (SplitsInto-of_split option name value found) known
          (FitsOption-of_ok name value fits))

  Round-of_ok :
      (option : Text) (takes : Bool) → validate_option valid option ≡ ok takes → Round option takes
  unfolding validate_option
  Round-of_ok option takes h =
      let (safe, h₁) = check-bind-eq-ok (not (contains_dangerous_chars option)) _ _ h in
      elim (Bool-cases (is_inline option)) [
        | inl i ↦ split_round (IsSafe-of_test option safe) i (rw i at h₁)
        | inr i ↦ plain_round (IsSafe-of_test option safe) i (rw i at h₁)
      ]
    where
      split_round :
          IsSafe option
          → is_inline option ≡ true
          → (validate_inline valid (split_inline option) >> ok false) ≡ ok takes
          → Round option takes
      split_round safe i k = inline-Round option takes (split_inline option) refl safe i k

      plain_round :
          IsSafe option
          → is_inline option ≡ false
          → (check (member option valid) invalid_option >> ok (requires_value option)) ≡ ok takes
          → Round option takes
      plain_round safe i k =
          let (known, e) = check-bind-eq-ok (member option valid) _ _ k in stands safe i known (cc)

  -- The grammar's rule for each round.
  behind :
      {o v : Text} {rest : List Text} {takes : Bool}
      → Round o takes
      → (takes ≡ false → Options valid (v ∷ rest))
      → (takes ≡ true → FitsOption o v × Options valid rest)
      → Options valid (o ∷ v ∷ rest)
  behind (splits safe dashed split known fits) f t = inline safe dashed split known fits (f refl)
  behind (stands {takes = true} safe plain known e) f t =
      valued safe plain known e (t refl).0 (t refl).1
  behind (stands {takes = false} safe plain known e) f t = switch safe plain known e (f refl)

  last : {o : Text} {takes : Bool} → Round o takes → Options valid (o ∷ [])
  last (splits safe dashed split known fits) = inline safe dashed split known fits none_left
  last (stands {takes = true} safe plain known e) = unvalued safe plain known e
  last (stands {takes = false} safe plain known e) = switch safe plain known e none_left

  Options_of_ok :
      (options : List Text) → validate_options valid options ≡ ok tt → Options valid options
  unfolding validate_options
  Options_of_ok [] h = none_left
  Options_of_ok (o ∷ []) h =
      let (takes, a, k) = bind-eq-ok (validate_option valid o) _ h in last (Round-of_ok o takes a)
  Options_of_ok (o ∷ v ∷ rest) h =
      let (takes, a, k) = bind-eq-ok (validate_option valid o) _ h in
      let alone = Options_of_ok (v ∷ rest) in
      let with_value = Options_of_ok rest in
      behind (Round-of_ok o takes a) (λ e. alone (rw e at k))
        (λ e.
          let (u, fits, k') = bind-eq-ok (validate_option_value o v) _ (rw e at k) in
          (FitsOption-of_ok o v fits, with_value k'))

-- `validateOptions` accepts exactly the option lists of the grammar `Options`: every option, and every
-- value that is looked at, is free of dangerous bytes, every option's name is one of the command's,
-- and a value fits its option.
pub validate_options_iff :
    (valid options : List Text) → (validate_options valid options ≡ ok tt) ↔ Options valid options
validate_options_iff valid options = (Options_of_ok valid options, accepts valid)

pub Options-IsSafe : {valid options : List Text} → Options valid options → All IsSafe options
Options-IsSafe none_left = tt
Options-IsSafe (inline safe dashed split known fits more) = (safe, Options-IsSafe more)
Options-IsSafe (switch safe plain known bare more) = (safe, Options-IsSafe more)
Options-IsSafe (valued safe plain known wants fits more) = (safe, (fits.safe, Options-IsSafe more))
Options-IsSafe (unvalued safe plain known wants) = (safe, tt)

-- No element of an accepted list holds a dangerous byte, whether it is an option or a value.
pub validate_options-IsSafe :
    (valid options : List Text) → validate_options valid options ≡ ok tt → All IsSafe options
validate_options-IsSafe valid options h = Options-IsSafe (Options_of_ok valid options h)
