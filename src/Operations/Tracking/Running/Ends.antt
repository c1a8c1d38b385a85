-- ===== src/Operations/Tracking/Running/Ends.antt =====
-- internal/operations/service.go: every operation ends, completes its log and gives up its stack.
use berth_agent.Prelude.{
  text_eq_refl, append_assoc, ◌≡◌, refl, inl, inr, Bool, true, false, ◌&&◌, ◌||◌, Option, List, [],
  ◌∷◌, ◌++◌, arith, Result, ok, err, Text, codes, text_eq, ◌==◌, Bool-cases, Option-cases, length,
}
use berth_agent.Prelude.{Option-cases, Result-cases}
use berth_agent.StackNames.{NameError, sanitize_stack_path}
use berth_agent.Sidecar.{SidecarError, validate_operation}
use berth_agent.Operations.Request.{OperationRequest}
use berth_agent.Operations.Broadcaster.{MessageType, stdout, stderr, progress, complete, error}
use berth_agent.Operations.Tracking.{RegistryCredential, Operation, is_ended}
use berth_agent.Operations.Tracking.Running.{
  Event, update, say, say_error, say_complete, unlock, failure, World, CommandResult, no_stdout,
  no_stderr, not_started, succeeded, exited, wait_failed, written, lines, run_command, log_in,
  run_compose, run_archive, run_backup, run_self, run_body, run_operation,
}

-- Whether the status of an ended operation is set before the stack is unlocked.
unfoldable pub ends_first : List Event → Bool
ends_first [] = false
ends_first (update status code ∷ es) = is_ended status || ends_first es
ends_first (say type text ∷ es) = ends_first es
ends_first (say_error text ∷ es) = ends_first es
ends_first (say_complete success code ∷ es) = ends_first es
ends_first (unlock stack ∷ es) = false

-- Whether no status but that of an ended operation is set.
unfoldable pub only_ends : List Event → Bool
only_ends [] = true
only_ends (update status code ∷ es) = is_ended status && only_ends es
only_ends (say type text ∷ es) = only_ends es
only_ends (say_error text ∷ es) = only_ends es
only_ends (say_complete success code ∷ es) = only_ends es
only_ends (unlock stack ∷ es) = only_ends es

-- Whether the log of the operation is completed.
unfoldable pub closes : List Event → Bool
closes [] = false
closes (update status code ∷ es) = closes es
closes (say type text ∷ es) = closes es
closes (say_error text ∷ es) = true
closes (say_complete success code ∷ es) = true
closes (unlock stack ∷ es) = closes es

-- Whether the stack is unlocked.
unfoldable pub frees : Text → List Event → Bool
frees stack [] = false
frees stack (update status code ∷ es) = frees stack es
frees stack (say type text ∷ es) = frees stack es
frees stack (say_error text ∷ es) = frees stack es
frees stack (say_complete success code ∷ es) = frees stack es
frees stack (unlock name ∷ es) = text_eq name stack || frees stack es

-- Every operation ends before it gives up its stack, and completes its log.
abbrev pub Ends : List Event → Type 0
Ends es = (ends_first es ≡ true) × ((only_ends es ≡ true) × (closes es ≡ true))

Ends-lines :
    (output : List (MessageType × Text)) (es : List Event) → Ends es → Ends (lines output ++ es)
unfolding lines written ends_first only_ends closes
Ends-lines [] es h = h
Ends-lines ((stdout, text) ∷ more) es h = Ends-lines more es h
Ends-lines ((stderr, text) ∷ more) es h = Ends-lines more es h
Ends-lines ((progress, text) ∷ more) es h = Ends-lines more es h
Ends-lines ((complete, text) ∷ more) es h = Ends-lines more es h
Ends-lines ((error, text) ∷ more) es h = let (a, (b, c)) = Ends-lines more es h in (a, (b, refl))

lines_then :
    (output : List (MessageType × Text)) (last es : List Event)
    → Ends (last ++ es)
    → Ends ((lines output ++ last) ++ es)
lines_then output last es h =
    rw (append_assoc (lines output) last es) (Ends-lines output (last ++ es) h)

run_command-Ends :
    (req : OperationRequest) (result : CommandResult) (es : List Event)
    → only_ends es ≡ true
    → Ends (run_command req result ++ es)
unfolding run_command ends_first only_ends closes
run_command-Ends req (no_stdout text) es h = (refl, (h, refl))
run_command-Ends req (no_stderr text) es h = (refl, (h, refl))
run_command-Ends req (not_started text) es h = (refl, (h, refl))
run_command-Ends req (succeeded output) es h = lines_then output _ es (refl, (h, refl))
run_command-Ends req (exited output code) es h = lines_then output _ es (refl, (h, refl))
run_command-Ends req (wait_failed output text) es h = lines_then output _ es (refl, (h, refl))

failure-Ends : (text : Text) (es : List Event) → only_ends es ≡ true → Ends (failure text ++ es)
unfolding ends_first only_ends closes
failure-Ends text es h = (refl, (h, refl))

log_in-Ends :
    (login_failure : Text → Option Text) (credentials : List RegistryCredential)
    (rest es : List Event)
    → only_ends es ≡ true
    → Ends (rest ++ es)
    → Ends (log_in login_failure credentials rest ++ es)
unfolding log_in ends_first only_ends closes
log_in-Ends login_failure [] rest es o h = h
log_in-Ends login_failure (credential ∷ credentials) rest es o h =
    elim (Option-cases (login_failure credential.registry)) [
      | inl fine ↦ rw fine (log_in-Ends login_failure credentials rest es o h)
      | inr (text, refused) ↦ rw refused (refl, (o, refl))
    ]

run_compose-Ends :
    (world : World) (op : Operation) (es : List Event)
    → only_ends es ≡ true
    → Ends (run_compose world op ++ es)
unfolding run_compose
run_compose-Ends world op es h =
    let ran = run_command-Ends op.request world.command es h in
    elim (Bool-cases (length op.registry_credentials == 0)) [
      | inl public ↦ rw public ran
      | inr private ↦ elim (Option-cases world.no_docker_config) [
        | inl fine ↦
            rw (private, fine, run_compose)
              (log_in-Ends world.login_failure op.registry_credentials
                (run_command op.request world.command) es h ran)
        | inr (text, refused) ↦
            rw (private, refused, run_compose)
              (failure-Ends (codes "Registry authentication failed: " ++ text) es h)
      ]
    ]

run_archive-Ends :
    (output : List (MessageType × Text)) (result : Result Text (Unit {0})) (es : List Event)
    → only_ends es ≡ true
    → Ends (run_archive (record { output = output; result = result }) ++ es)
unfolding run_archive ends_first only_ends closes
run_archive-Ends output (ok u) es h = lines_then output _ es (refl, (h, refl))
run_archive-Ends output (err text) es h = lines_then output _ es (refl, (h, refl))

run_backup-Ends :
    (output : List (MessageType × Text)) (result : Result Text (Unit {0})) (es : List Event)
    → only_ends es ≡ true
    → Ends (run_backup (record { output = output; result = result }) ++ es)
unfolding run_backup ends_first only_ends closes
run_backup-Ends output (ok u) es h = lines_then output _ es (refl, (h, refl))
run_backup-Ends output (err text) es h = lines_then output _ es (refl, (h, refl))

module _ (cwd stack_location : Text) (path_text : NameError → Text)
    (sidecar_text : SidecarError → Text) where
  run_self-Ends :
      (op : Operation) (es : List Event)
      → only_ends es ≡ true
      → Ends (run_self cwd stack_location path_text sidecar_text op ++ es)
  unfolding run_self ends_first only_ends closes
  run_self-Ends op es h =
      elim (Result-cases (sanitize_stack_path cwd stack_location op.stack_name)) [
        | inr (e, refused) ↦
            rw (refused, run_self) (failure-Ends (codes "Invalid stack path: " ++ path_text e) es h)
        | inl (path, fine) ↦
            elim (Result-cases (validate_operation op.request.command op.request.options)) [
              | inr (e, refused) ↦ rw (fine, refused, run_self) (failure-Ends (sidecar_text e) es h)
              | inl (u, valid) ↦ rw (fine, valid, run_self) (refl, (h, refl))
            ]
      ]

  run_body-Ends :
      (world : World) (op : Operation) (es : List Event)
      → only_ends es ≡ true
      → Ends (run_body cwd stack_location path_text sidecar_text world op ++ es)
  unfolding run_body
  run_body-Ends world op es h =
      let archive =
        text_eq op.request.command (codes "create-archive")
        || text_eq op.request.command (codes "extract-archive") in
      let backup =
        text_eq op.request.command (codes "create-backup")
        || text_eq op.request.command (codes "restore-backup") in
      elim (Bool-cases op.is_self_op) [
        | inl self ↦ rw self (run_self-Ends op es h)
        | inr plain ↦ elim (Result-cases (sanitize_stack_path cwd stack_location op.stack_name)) [
          | inr (e, refused) ↦
              rw (plain, refused, run_body)
                (failure-Ends (codes "Invalid stack path: " ++ path_text e) es h)
          | inl (path, fine) ↦ elim (Bool-cases archive) [
            | inl a ↦
                rw (plain, fine, run_body, a)
                  (run_archive-Ends world.archive.output world.archive.result es h)
            | inr not_a ↦ elim (Bool-cases backup) [
              | inl b ↦
                  rw (plain, fine, run_body, not_a, b)
                    (run_backup-Ends world.backup.output world.backup.result es h)
              | inr not_b ↦
                  rw (plain, fine, run_body, not_a, not_b) (run_compose-Ends world op es h)
            ]
          ]
        ]
      ]

  pub run_operation-Ends :
      (world : World) (op : Operation)
      → Ends (run_operation cwd stack_location path_text sidecar_text world op)
  unfolding run_operation
  run_operation-Ends world op =
      run_body-Ends world op (unlock op.stack_name ∷ []) (unfold only_ends in refl)

frees_last : (stack : Text) (es : List Event) → frees stack (es ++ (unlock stack ∷ [])) ≡ true
unfolding frees
frees_last stack [] = rw (text_eq_refl stack) refl
frees_last stack (update status code ∷ es) = frees_last stack es
frees_last stack (say type text ∷ es) = frees_last stack es
frees_last stack (say_error text ∷ es) = frees_last stack es
frees_last stack (say_complete success code ∷ es) = frees_last stack es
frees_last stack (unlock name ∷ es) = ground (arith, frees_last stack es)

pub run_operation-frees :
    (cwd stack_location : Text) (path_text : NameError → Text) (sidecar_text : SidecarError → Text)
    (world : World) (op : Operation)
    → frees op.stack_name (run_operation cwd stack_location path_text sidecar_text world op) ≡ true
unfolding run_operation
run_operation-frees cwd stack_location path_text sidecar_text world op =
    frees_last op.stack_name (run_body cwd stack_location path_text sidecar_text world op)
