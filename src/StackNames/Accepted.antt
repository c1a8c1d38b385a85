-- ===== src/StackNames/Accepted.antt =====
-- internal/validation/validator.go: the names that `ValidateStackName` accepts.
use berth_agent.Prelude.{
  ℕ, ◌≤◌, ◌≡◌, refl, ◌↔◌, true, false, not, [], ◌∷◌, arith, ok, Text, codes, text_eq, ltb, ◌==◌,
  length,
}
use berth_agent.Prelude.{any, has_prefix, contains, check-bind-eq-ok}
use berth_agent.Prelude.{check-eq-ok}
use berth_agent.StackNames.{
  is_alphanumeric, matches_name, equal_fold, to_lower, device_names, reserved, validate_stack_name,
}

-- A name of letters, digits, dots, underscores and dashes that begins with a letter or a digit, of at
-- most 64 bytes, without two dots in a row, and no device name in any case.
pub record IsStackName (name : Text) : Type 0 where
  pub shape : matches_name name ≡ true
  pub short : length name ≤ 64
  pub no_dots : contains name (codes "..") ≡ false
  pub no_device : any (equal_fold name) device_names ≡ false

-- A name that begins with a letter or a digit passes three tests of its own accord.
given : (name : Text) → matches_name name ≡ true → not (text_eq name []) ≡ true
unfolding matches_name text_eq
given [] h = absurd (cc)
given (c ∷ s) h = refl

no_slash : (name : Text) → matches_name name ≡ true → has_prefix name (codes "/") ≡ false
unfolding matches_name has_prefix is_alphanumeric
no_slash [] h = absurd (cc)
no_slash (c ∷ s) h = ground arith

lower_dot : (c : ℕ) → is_alphanumeric c ≡ true → (to_lower c == b'.') ≡ false
unfolding is_alphanumeric to_lower
lower_dot c h = ground arith

no_fold : (c : ℕ) (s t : Text) → is_alphanumeric c ≡ true → equal_fold (c ∷ s) (b'.' ∷ t) ≡ false
unfolding equal_fold
no_fold c s t h =
    let dot : (to_lower c == to_lower b'.') ≡ false = lower_dot c h in rw (equal_fold, dot) refl

no_dot_name :
    (name : Text)
    → matches_name name ≡ true
    → any (equal_fold name) reserved ≡ any (equal_fold name) device_names
no_dot_name [] h = unfold matches_name in absurd (cc)
no_dot_name (c ∷ s) h =
    let first : is_alphanumeric c ≡ true = unfold matches_name in ground arith in
    rw (no_fold c s [] first, no_fold c s (b'.' ∷ []) first)

-- `ValidateStackName` accepts exactly the names that `IsStackName` describes: the tests for an empty
-- name, a slash in front and the names . and .. refuse nothing that the others accept.
pub validate_stack_name_iff : (name : Text) → (validate_stack_name name ≡ ok tt) ↔ IsStackName name
unfolding validate_stack_name
validate_stack_name_iff name = (
  (λ h.
      let (a, h₁) = check-bind-eq-ok (not (text_eq name [])) _ _ h in
      let (b, h₂) = check-bind-eq-ok (not (ltb 64 (length name))) _ _ h₁ in
      let (c, h₃) = check-bind-eq-ok (matches_name name) _ _ h₂ in
      let (d, h₄) = check-bind-eq-ok (not (contains name (codes ".."))) _ _ h₃ in
      let (e, h₅) = check-bind-eq-ok (not (has_prefix name (codes "/"))) _ _ h₄ in
      let f = check-eq-ok (not (any (equal_fold name) reserved)) _ h₅ in
      record {
        shape = c;
        short = ground arith;
        no_dots = ground arith;
        no_device = ground (arith, no_dot_name name c);
      }),
  (λ n.
      let short : not (ltb 64 (length name)) ≡ true = ground (arith, n.short) in
      rw (
        given name n.shape,
        short,
        n.shape,
        n.no_dots,
        no_slash name n.shape,
        no_dot_name name n.shape,
        n.no_device,
      )),
)
