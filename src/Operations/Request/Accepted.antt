-- ===== src/Operations/Request/Accepted.antt =====
-- internal/operations/validation.go: the requests for docker commands that are let through.
use berth_agent.Prelude.{
  ==_iff, ℕ, ◌≤◌, ◌≡◌, refl, sym, ◌∙◌, inl, inr, ◌↔◌, Bool, true, false, not, some, List, [], ◌∷◌,
  arith, ok, ◌>>◌, check, Text, codes, text_eq, text_eq_iff, ltb, ◌==◌, Bool-cases, All, length,
}
use berth_agent.Prelude.{member, member_elim, any, all, check-bind-eq-ok, bind-eq-ok, subst}
use berth_agent.Operations.Options.{
  invalid_option, valid_options, contains_dangerous_chars, matches_name, is_name_byte,
  is_alphanumeric, validate_options,
}
use berth_agent.Operations.Options.Dangerous.{
  is_dangerous_byte, dangerous_bytes, contains_dangerous_chars_iff,
}
use berth_agent.Operations.Options.Grammar.{IsSafe, Options}
use berth_agent.Operations.Options.Exact.{validate_options_iff}
use berth_agent.Operations.Request.{
  OperationRequest, valid_commands, validate_service_name, validate_services, validate_docker,
  validate_operation_request,
}

-- A letter or digit, then letters, digits, dots, underscores and dashes; 64 bytes at most.
pub record IsServiceName (name : Text) : Type 0 where
  pub shape : matches_name name ≡ true
  pub short : length name ≤ 64

not_name_byte_of_any :
    (c : ℕ) (l : List ℕ)
    → all (λ d. not (is_name_byte d)) l ≡ true
    → any (λ d. c == d) l ≡ true
    → is_name_byte c ≡ false
not_name_byte_of_any c [] a h = absurd (cc)
not_name_byte_of_any c (d ∷ l) a h = elim (Bool-cases (c == d)) [
  | inl same ↦ subst (λ n. is_name_byte n ≡ false) (sym ((==_iff c d).0 same)) (ground arith)
  | inr other ↦ not_name_byte_of_any c l (ground arith) (rw other at h)
]

name_byte_safe : (c : ℕ) → is_name_byte c ≡ true → is_dangerous_byte c ≡ false
name_byte_safe c h = elim (Bool-cases (is_dangerous_byte c)) [
  | inr safe ↦ safe
  | inl bad ↦ absurd (
      cc (
        not_name_byte_of_any c dangerous_bytes (unfold is_name_byte in refl)
          (unfold is_dangerous_byte in bad)))
]

all_name-IsSafe : (s : Text) → all is_name_byte s ≡ true → IsSafe s
all_name-IsSafe [] h = refl
all_name-IsSafe (c ∷ s) h = ground (arith, name_byte_safe c, all_name-IsSafe s)

pub matches_name-IsSafe : (s : Text) → matches_name s ≡ true → IsSafe s
unfolding matches_name
matches_name-IsSafe [] h = refl
matches_name-IsSafe (c ∷ s) h =
    let alnum : is_alphanumeric c ≡ true = ground arith in
    let first : is_name_byte c ≡ true = unfold is_name_byte in rw alnum in
    ground (arith, name_byte_safe c first, all_name-IsSafe s)

ne-nil_of_name : (s : Text) → matches_name s ≡ true → not (text_eq s []) ≡ true
unfolding matches_name text_eq
ne-nil_of_name [] h = absurd (cc)
ne-nil_of_name (c ∷ s) h = refl

safe_test : (s : Text) → IsSafe s → not (contains_dangerous_chars s) ≡ true
safe_test s h = ground (arith, contains_dangerous_chars_iff s)

-- The last test of `validateServiceName` never fails behind the one before it.
validate_service_name_iff :
    (name : Text) → (validate_service_name name ≡ ok tt) ↔ IsServiceName name
unfolding validate_service_name
validate_service_name_iff name = (
  (λ h.
      let (a, h₁) = check-bind-eq-ok (not (text_eq name [])) _ _ h in
      let (b, h₂) = check-bind-eq-ok (not (ltb 64 (length name))) _ _ h₁ in
      let (c, h₃) = check-bind-eq-ok (matches_name name) _ _ h₂ in
      record { shape = c; short = ground arith }),
  (λ n.
      let given : not (text_eq name []) ≡ true = ne-nil_of_name name n.shape in
      let short : not (ltb 64 (length name)) ≡ true = ground (arith, n.short) in
      rw (given, short, n.shape, safe_test name (matches_name-IsSafe name n.shape))),
)

validate_services_iff :
    (services : List Text) → (validate_services services ≡ ok tt) ↔ All IsServiceName services
unfolding validate_services
validate_services_iff [] = ((λ h. tt), (λ h. refl))
validate_services_iff (s ∷ rest) = (
  (λ h.
      let (u, a, more) = bind-eq-ok (validate_service_name s) _ h in
      ((validate_service_name_iff s).0 a, (validate_services_iff rest).0 more)),
  (λ h. rw ((validate_service_name_iff s).1 h.0) ((validate_services_iff rest).1 h.1)),
)

abbrev pub docker_commands : List Text
docker_commands =
    codes "up" ∷ codes "down" ∷ codes "start" ∷ codes "stop" ∷ codes "restart" ∷ codes "pull" ∷ []

pub docker_of_options :
    (command : Text) {options : List Text}
    → valid_options command ≡ some options
    → member command docker_commands ≡ true
unfolding valid_options member
docker_of_options command h = ground arith

-- What the tests of the command find for a docker command.
record IsDocker (command : Text) : Type 0 where
  known : member command valid_commands ≡ true
  not_create_archive : text_eq command (codes "create-archive") ≡ false
  not_extract_archive : text_eq command (codes "extract-archive") ≡ false
  not_create_backup : text_eq command (codes "create-backup") ≡ false
  not_restore_backup : text_eq command (codes "restore-backup") ≡ false

IsDocker-of_member : (command : Text) → member command docker_commands ≡ true → IsDocker command
unfolding member text_eq
IsDocker-of_member command = member_elim IsDocker command docker_commands (
  record {
    known = refl;
    not_create_archive = refl;
    not_extract_archive = refl;
    not_create_backup = refl;
    not_restore_backup = refl;
  },
  (
    record {
      known = refl;
      not_create_archive = refl;
      not_extract_archive = refl;
      not_create_backup = refl;
      not_restore_backup = refl;
    },
    (
      record {
        known = refl;
        not_create_archive = refl;
        not_extract_archive = refl;
        not_create_backup = refl;
        not_restore_backup = refl;
      },
      (
        record {
          known = refl;
          not_create_archive = refl;
          not_extract_archive = refl;
          not_create_backup = refl;
          not_restore_backup = refl;
        },
        (
          record {
            known = refl;
            not_create_archive = refl;
            not_extract_archive = refl;
            not_create_backup = refl;
            not_restore_backup = refl;
          },
          (
            record {
              known = refl;
              not_create_archive = refl;
              not_extract_archive = refl;
              not_create_backup = refl;
              not_restore_backup = refl;
            },
            tt,
          ),
        ),
      ),
    ),
  ),
)

module _ (parses_uuid : Text → Bool) where
  -- What is left of the tests for a docker command.
  docker_tests :
      (req : OperationRequest) (options : List Text)
      → valid_options req.command ≡ some options
      → validate_operation_request parses_uuid req ≡ (
          check (not (not (text_eq req.backup_password []))) invalid_option
          >> (validate_options options req.options >> validate_services req.services))
  docker_tests req options h =
      let d = IsDocker-of_member req.command (docker_of_options req.command h) in
      unfold validate_operation_request validate_docker in
      rw (
        d.known, d.not_create_archive, d.not_extract_archive, d.not_create_backup,
        d.not_restore_backup, h,
      )

  -- A request for a docker command is let through exactly if it has no backup password, its options
  -- are in the grammar of the command, and every service has a service name.
  pub validate_operation_request_iff :
      (req : OperationRequest) (options : List Text)
      → valid_options req.command ≡ some options
      → (validate_operation_request parses_uuid req ≡ ok tt) ↔ (
          (req.backup_password ≡ []) × Options options req.options × All IsServiceName req.services)
  validate_operation_request_iff req options h = (
    (λ e.
        let (a, e₁) =
          check-bind-eq-ok (not (not (text_eq req.backup_password []))) invalid_option _
            (sym (docker_tests req options h) ∙ e) in
        let (u, b, e₂) = bind-eq-ok (validate_options options req.options) _ e₁ in
        (
          ground (arith, text_eq_iff req.backup_password []),
          (validate_options_iff options req.options).0 b,
          (validate_services_iff req.services).0 e₂,
        )),
    (λ (p, o, s).
        let bare : text_eq req.backup_password [] ≡ true = (text_eq_iff _ _).1 p in
        docker_tests req options h
        ∙ rw (
          bare,
          (validate_options_iff options req.options).1 o,
          (validate_services_iff req.services).1 s,
        )),
  )
