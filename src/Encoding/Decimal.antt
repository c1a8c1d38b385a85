-- ===== src/Encoding/Decimal.antt =====
-- strconv: decimal integers.
use mathlib.Core.Option
use berth_agent.Prelude.{
  inr, inl, ℕ, zero, suc, ◌+◌, ◌-◌, ◌*◌, ◌/◌, ◌%◌, ◌^◌, ◌<◌, ◌≡◌, refl, ap, ◌∙◌, [], ◌∷◌, ◌++◌,
  Option, none, some, Bool, true, ◌&&◌, arith, Text, ltb, leb, ◌==◌, if◌then◌else◌, Bool-cases,
}
use berth_agent.Prelude.Int.{ℤ, pos, negsuc}

unfoldable pub is_digit : ℕ → Bool
is_digit c = leb b'0' c && leb c b'9'

-- The decimal digits of n, with fuel for each digit.
format_digits : ℕ → ℕ → Text
format_digits zero n = []
format_digits (suc f) n =
    let high = format_digits f (n / 10) in
    if ltb n 10 then (b'0' + n) ∷ [] else high ++ (b'0' + n % 10) ∷ []

-- strconv.FormatUint(n, 10)
unfoldable pub format_uint : ℕ → Text
unfolding format_digits
format_uint n = format_digits (suc n) n

-- strconv.FormatInt(z, 10)
unfoldable pub format_int : ℤ → Text
unfolding format_uint
format_int (pos n) = format_uint n
format_int (negsuc n) = b'-' ∷ format_uint (suc n)

parse_from : ℕ → Text → Option ℕ
unfolding is_digit
parse_from acc [] = some acc
parse_from acc (c ∷ s) =
    let rest = parse_from (acc * 10 + (c - b'0')) s in if is_digit c then rest else none

-- A non-empty run of digits.
unfoldable pub parse_uint : Text → Option ℕ
unfolding parse_from
parse_uint [] = none
parse_uint (c ∷ s) = parse_from 0 (c ∷ s)

nonneg_int64 : ℕ → Option ℤ
nonneg_int64 n = if ltb n (2 ^ 63) then some (pos n) else none

negative_int64 : ℕ → Option ℤ
negative_int64 zero = some (pos 0)
negative_int64 (suc n) = if ltb n (2 ^ 63) then some (negsuc n) else none

-- strconv.ParseInt(s, 10, 64): an optional sign, then digits, within the range of int64.
unfoldable pub parse_int : Text → Option ℤ
unfolding parse_uint nonneg_int64 negative_int64 Option.bind
parse_int [] = none
parse_int (c ∷ s) =
    if c == b'-'
    then Option.bind (parse_uint s) negative_int64
    else if c == b'+'
    then Option.bind (parse_uint s) nonneg_int64
    else Option.bind (parse_uint (c ∷ s)) nonneg_int64

parse_from-append :
    (acc n : ℕ) (s : Text) (d : ℕ)
    → d < 10
    → parse_from acc s ≡ some n
    → parse_from acc (s ++ (b'0' + d) ∷ []) ≡ some (n * 10 + d)
unfolding parse_from
parse_from-append acc n [] d h e = ground arith
parse_from-append acc n (c ∷ s) d h e =
    ground (arith, parse_from-append (acc * 10 + (c - b'0')) n s d h)

parse_from-format_digits : (f n : ℕ) → n < f → parse_from 0 (format_digits f n) ≡ some n
unfolding format_digits
parse_from-format_digits zero n h = elim h [ ]
parse_from-format_digits (suc f) n h = elim (Bool-cases (ltb n 10)) [
  | inl small ↦ rw small (unfold parse_from in ground arith)
  | inr large ↦ rw large (
      parse_from-append 0 (n / 10) (format_digits f (n / 10)) (n % 10) (omega arith)
        (parse_from-format_digits f (n / 10) (ground arith))
      ∙ ap some (omega arith))
]

-- The first byte of a number is a digit, so that it is no sign.
StartsDigit : Text → Type 0
StartsDigit [] = ⊥
StartsDigit (c ∷ s) = is_digit c ≡ true

StartsDigit-append : (s t : Text) → StartsDigit s → StartsDigit (s ++ t)
unfolding StartsDigit
StartsDigit-append [] t h = elim h [ ]
StartsDigit-append (c ∷ s) t h = h

StartsDigit-format_digits : (f n : ℕ) → n < f → StartsDigit (format_digits f n)
unfolding format_digits
StartsDigit-format_digits zero n h = elim h [ ]
StartsDigit-format_digits (suc f) n h = elim (Bool-cases (ltb n 10)) [
  | inl small ↦ rw small (unfold StartsDigit is_digit in ground arith)
  | inr large ↦
      rw large (StartsDigit-append _ _ (StartsDigit-format_digits f (n / 10) (ground arith)))
]

parse_uint-of_StartsDigit : (s : Text) → StartsDigit s → parse_uint s ≡ parse_from 0 s
unfolding parse_uint StartsDigit
parse_uint-of_StartsDigit [] h = elim h [ ]
parse_uint-of_StartsDigit (c ∷ s) h = refl

parse_uint-format_uint : (n : ℕ) → parse_uint (format_uint n) ≡ some n
unfolding format_uint
parse_uint-format_uint n =
    parse_uint-of_StartsDigit _ (StartsDigit-format_digits (suc n) n (omega arith))
    ∙ parse_from-format_digits (suc n) n (omega arith)

parse_int-of_StartsDigit :
    (s : Text) (n : ℕ)
    → StartsDigit s
    → parse_uint s ≡ some n
    → n < 2 ^ 63
    → parse_int s ≡ some (pos n)
unfolding StartsDigit is_digit parse_int
parse_int-of_StartsDigit [] n h e k = elim h [ ]
parse_int-of_StartsDigit (c ∷ s) n h e k = ground arith

abbrev pub IsInt64 : ℤ → Type 0
IsInt64 (pos n) = n < 2 ^ 63
IsInt64 (negsuc n) = n < 2 ^ 63

-- An int64 is read back from its decimal form.
pub parse_int-format_int : (z : ℤ) → IsInt64 z → parse_int (format_int z) ≡ some z
unfolding format_int
parse_int-format_int (pos n) h =
    parse_int-of_StartsDigit _ n
      (unfold format_uint in StartsDigit-format_digits (suc n) n (omega arith))
      (parse_uint-format_uint n) h
parse_int-format_int (negsuc n) h =
    unfold parse_int in rw (parse_uint-format_uint (suc n)) (ground arith)
