-- ===== src/Operations/Command/Safe.antt =====
-- internal/operations: no argument of an accepted request is dangerous to a shell.
use berth_agent.Prelude.{
  ◌≡◌, refl, inl, inr, Bool, true, false, not, ◌&&◌, some, List, [], ◌∷◌, ok, Text, codes, text_eq,
  if◌then◌else◌, Bool-cases, All,
}
use berth_agent.Prelude.{member, member_elim, All-append, text_eq}
use berth_agent.Operations.Options.{valid_options}
use berth_agent.Operations.Options.Dangerous.{is_dangerous_byte}
use berth_agent.Operations.Options.Grammar.{IsSafe}
use berth_agent.Operations.Options.Exact.{Options-IsSafe}
use berth_agent.Operations.Request.{OperationRequest, validate_operation_request}
use berth_agent.Operations.Request.Accepted.{
  IsServiceName, docker_commands, docker_of_options, matches_name-IsSafe,
  validate_operation_request_iff,
}
use berth_agent.Operations.Command.{without_detach, build_command}

without_detach-IsSafe :
    (options : List Text) → All IsSafe options → All IsSafe (without_detach options)
unfolding without_detach
without_detach-IsSafe [] h = tt
without_detach-IsSafe (o ∷ options) h =
    elim (Bool-cases (not (text_eq o (codes "-d")) && not (text_eq o (codes "--detach")))) [
      | inl kept ↦ rw kept (h.0, without_detach-IsSafe options h.1)
      | inr dropped ↦ rw dropped (without_detach-IsSafe options h.1)
    ]

services-IsSafe : (services : List Text) → All IsServiceName services → All IsSafe services
services-IsSafe [] h = tt
services-IsSafe (s ∷ services) h = (matches_name-IsSafe s h.0.shape, services-IsSafe services h.1)

command-IsSafe : (command : Text) → member command docker_commands ≡ true → IsSafe command
unfolding is_dangerous_byte
command-IsSafe command =
    member_elim IsSafe command docker_commands (refl, (refl, (refl, (refl, (refl, (refl, tt))))))

flag-IsSafe : (b : Bool) → All IsSafe (if b then codes "-d" ∷ [] else [])
unfolding is_dangerous_byte
flag-IsSafe true = (refl, tt)
flag-IsSafe false = tt

-- For an accepted request for a docker command, no argument that docker is called with holds a byte
-- that is dangerous to a shell, whether it comes from the command, the options or the services.
pub build_command-IsSafe :
    (parses_uuid : Text → Bool) (req : OperationRequest) (options : List Text)
    → valid_options req.command ≡ some options
    → validate_operation_request parses_uuid req ≡ ok tt
    → All IsSafe (build_command req)
unfolding build_command is_dangerous_byte
build_command-IsSafe parses_uuid req options known accepted =
    let (_, o, s) = (validate_operation_request_iff parses_uuid req options known).0 accepted in
    let flags = flag-IsSafe (text_eq req.command (codes "up")) in
    let all_options =
      All-append IsSafe (without_detach req.options) _
        (without_detach-IsSafe req.options (Options-IsSafe o)) flags in
    (
      refl,
      (
        command-IsSafe req.command (docker_of_options req.command known),
        All-append IsSafe _ req.services all_options (services-IsSafe req.services s),
      ),
    )
