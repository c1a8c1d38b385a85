-- ===== src/Operations/Tracking/Running.antt =====
-- internal/operations/service.go: what runOperation does, as the steps in which it changes the service.
-- What docker, the archives and the backups answer is an argument.
pub mod Ends
use berth_agent.Prelude.{
  ℕ, ◌+◌, ◌-◌, Bool, true, false, ◌||◌, Option, none, some, List, [], ◌∷◌, ◌++◌, Result, ok, err,
  Text, codes, text_eq, if◌then◌else◌, ◌==◌, length,
}
use berth_agent.Prelude.Int.{ℤ, pos}
use berth_agent.StackNames.{NameError, sanitize_stack_path}
use berth_agent.Sidecar.{SidecarError, validate_operation}
use berth_agent.Operations.Command.{build_command}
use berth_agent.Operations.Request.{OperationRequest}
use berth_agent.Operations.Broadcaster.{
  MessageType, stdout, progress, error, broadcast, broadcast_error, broadcast_complete,
}
use berth_agent.Operations.Tracking.{
  RegistryCredential, Status, completed, failed, Operation, Service, update_operation_status,
  unlock_stack, with_broadcaster,
}

-- A step of a goroutine: a call that takes the service's or the broadcaster's lock.
pub data Event : Type 0 where
  update : Status → Option ℤ → Event
  say : MessageType → Text → Event
  say_error : Text → Event
  say_complete : Bool → ℤ → Event
  -- with the name of the stack
  unlock : Text → Event

-- The step of the operation `id`, at the time `now`, and `later` for a second message.
unfoldable pub apply_event : Text → ℕ → ℕ → Event → Service → Service
unfolding update_operation_status with_broadcaster unlock_stack
apply_event id now later (update status exit_code) s = update_operation_status id status exit_code s
apply_event id now later (say type text) s = with_broadcaster id (λ b. broadcast b now type text) s
apply_event id now later (say_error text) s =
    with_broadcaster id (λ b. broadcast_error b now later text) s
apply_event id now later (say_complete success exit_code) s =
    with_broadcaster id (λ b. broadcast_complete b now success exit_code) s
apply_event id now later (unlock stack_name) s = unlock_stack stack_name id s

-- `updateOperationStatus(id, "failed", nil)` and BroadcastError
abbrev pub failure : Text → List Event
failure text = update failed none ∷ say_error text ∷ []

-- How a docker compose command ends, with the lines that it wrote.
pub data CommandResult : Type 0 where
  no_stdout no_stderr not_started : Text → CommandResult
  succeeded : List (MessageType × Text) → CommandResult
  exited : List (MessageType × Text) → ℤ → CommandResult
  wait_failed : List (MessageType × Text) → Text → CommandResult

-- A line of a command, or a message of a progress writer.
pub written : MessageType × Text → Event
written (error, text) = say_error text
written (type, text) = say type text

pub lines : List (MessageType × Text) → List Event
unfolding written
lines [] = []
lines (line ∷ more) = written line ∷ lines more

abbrev words : List Text → Text
words [] = []
words (w ∷ []) = w
words (w ∷ v ∷ ws) = w ++ (b' ' ∷ words (v ∷ ws))

-- `exitCode := 0`, `updateOperationStatus(id, "completed", &exitCode)`
abbrev success : Event
success = update completed (some (pos 0))

abbrev announced : OperationRequest → List Event → List Event
announced req rest =
    say stdout (codes "Running: " ++ words (codes "docker" ∷ build_command req)) ∷ rest

-- What an archive or a backup wrote, and whether it failed.
pub record Work : Type 0 where
  pub output : List (MessageType × Text)
  pub result : Result Text (Unit {0})

-- handleArchiveOperationWithBroadcast, for the commands that runOperation gives to it
pub run_archive : Work → List Event
unfolding lines
run_archive work = lines work.output ++ outcome work.result
  where
    outcome : Result Text (Unit {0}) → List Event
    outcome (err text) = failure (codes "Archive operation failed: " ++ text)
    outcome (ok _) =
        success
        ∷ say stdout (codes "Archive operation completed successfully")
        ∷ say_complete true (pos 0)
        ∷ []

-- handleBackupOperationWithBroadcast, likewise
pub run_backup : Work → List Event
unfolding lines
run_backup work = lines work.output ++ outcome work.result
  where
    outcome : Result Text (Unit {0}) → List Event
    outcome (err text) =
        update failed none
        ∷ say_error (codes "Backup operation failed: " ++ text)
        ∷ say_complete false (pos 1)
        ∷ []
    outcome (ok _) = success ∷ say_complete true (pos 0) ∷ []

-- What the world answers to the goroutine of an operation.
pub record World : Type 0 where
  -- why there is no directory for the credentials, and why docker login to a registry fails
  pub no_docker_config : Option Text
  pub login_failure : Text → Option Text
  pub command : CommandResult
  pub archive : Work
  pub backup : Work

-- runComposeOperation behind the logins
pub run_command : OperationRequest → CommandResult → List Event
unfolding lines
run_command req (no_stdout text) =
    announced req (failure (codes "Failed to create stdout pipe: " ++ text))
run_command req (no_stderr text) =
    announced req (failure (codes "Failed to create stderr pipe: " ++ text))
run_command req (not_started text) =
    announced req (failure (codes "Failed to start command: " ++ text))
run_command req (succeeded output) =
    announced req (lines output ++ (success ∷ say_complete true (pos 0) ∷ []))
run_command req (exited output code) =
    announced req (lines output ++ (update completed (some code) ∷ say_complete false code ∷ []))
run_command req (wait_failed output text) =
    announced req (lines output ++ failure (codes "Command execution error: " ++ text))

-- The loop of createTempDockerConfigWithBroadcast, and what comes behind it.
pub log_in : (Text → Option Text) → List RegistryCredential → List Event → List Event
log_in login_failure [] rest = rest
log_in login_failure (credential ∷ credentials) rest =
    let later = log_in login_failure credentials rest in
    say progress (codes "Authenticating to " ++ (credential.registry ++ codes "..."))
    ∷ elim (login_failure credential.registry) [
      | some text ↦ failure (
          codes "Registry authentication failed: docker login to "
          ++ (credential.registry ++ (codes " failed: " ++ text)))
      | none ↦ say progress (codes "Successfully authenticated to " ++ credential.registry) ∷ later
    ]

-- runComposeOperation
pub run_compose : World → Operation → List Event
unfolding run_command log_in
run_compose world op =
    let rest = run_command op.request world.command in
    if length op.registry_credentials == 0 then rest else elim world.no_docker_config [
      | some text ↦ failure (codes "Registry authentication failed: " ++ text)
      | none ↦ log_in world.login_failure op.registry_credentials rest
    ]

-- The texts of errors are arguments: nothing depends on them.
module _ (cwd stack_location : Text) (path_text : NameError → Text)
    (sidecar_text : SidecarError → Text) where
  -- handleSelfOperationWithBroadcast up to the request to the sidecar, which changes nothing here
  pub run_self : Operation → List Event
  run_self op = elim (sanitize_stack_path cwd stack_location op.stack_name) [
    | err e ↦ failure (codes "Invalid stack path: " ++ path_text e)
    | ok path ↦ elim (validate_operation op.request.command op.request.options) [
      | err e ↦ failure (sidecar_text e)
      | ok _ ↦
          say stdout (codes "Detected self-operation, forwarding to sidecar updater...")
          ∷ say stdout (
              codes "Sidecar will handle "
              ++ (op.request.command ++ codes " operation independently"))
          ∷ say stdout
              (codes "Agent update will continue in background after this connection closes")
          ∷ success
          ∷ say_complete true (pos 0)
          ∷ unlock op.stack_name
          ∷ []
    ]
  ]

  -- The body of `runOperation` without the deferred call.
  pub run_body : World → Operation → List Event
  unfolding run_self run_compose run_archive run_backup
  run_body world op =
      if op.is_self_op
      then run_self op
      else elim (sanitize_stack_path cwd stack_location op.stack_name) [
        | err e ↦ failure (codes "Invalid stack path: " ++ path_text e)
        | ok path ↦
            if text_eq op.request.command (codes "create-archive")
              || text_eq op.request.command (codes "extract-archive")
            then run_archive world.archive
            else if text_eq op.request.command (codes "create-backup")
                || text_eq op.request.command (codes "restore-backup")
            then run_backup world.backup
            else run_compose world op
      ]

  -- runOperation
  pub run_operation : World → Operation → List Event
  unfolding run_body
  run_operation world op = run_body world op ++ (unlock op.stack_name ∷ [])
