-- ===== src/Operations/Tracking.antt =====
-- internal/operations/service.go: the operations that the service knows, and which stack is busy with
-- which of them. Each function below holds the service's mutex from its first to its last step.
pub mod Running
pub mod Exclusive
pub mod Reachable
pub mod Starting
pub mod Settled
mod Tests
use berth_agent.Prelude.{
  ℕ, ◌-◌, Bool, true, false, not, ◌&&◌, ◌||◌, Option, none, some, List, [], ◌∷◌, Result, ok, err,
  ◌>>=◌, ◌>>◌, check, Text, codes, text_eq, if◌then◌else◌, ◌==◌, length,
}
use berth_agent.Prelude.Int.{ℤ}
use berth_agent.StackNames.{NameError, sanitize_stack_path}
use berth_agent.Operations.Request.{OperationRequest}
use berth_agent.Operations.Broadcaster.{Broadcaster, new_broadcaster}

pub record RegistryCredential : Type 0 where
  pub registry : Text
  pub username : Text
  pub password : Text

pub data Status : Type 0 where
  running completed failed : Status

-- An operation; the credentials of its request stand beside the other fields of it.
pub record Operation : Type 0 where
  pub stack_name : Text
  pub request : OperationRequest
  pub registry_credentials : List RegistryCredential
  pub start_time : ℕ
  pub status : Status
  pub exit_code : Option ℤ
  pub is_self_op : Bool
  pub broadcaster : Broadcaster

-- The maps `operations` and `activeOperations`.
pub record Service : Type 0 where
  pub operations : Text → Option Operation
  pub active_operations : Text → Option Text

pub data StartError : Type 0 where
  invalid_stack_path : NameError → StartError
  stack_not_found stack_wide : Text → StartError
  -- the operation that runs, and the stack
  already_running : Text → Text → StartError

-- `m[key] = value`, or `delete(m, key)`
abbrev pub put : {V : Type 0} → (Text → Option V) → Text → Option V → Text → Option V
put m key value other = if text_eq key other then value else m other

unfoldable pub new_service : Service
new_service = record { operations = λ id. none; active_operations = λ stack. none }

abbrev pub agent_stack : Text
agent_stack = codes "berth-agent"

-- len(services) == 1 and services[0] == "berth-agent"
unfoldable pub is_agent_alone : List Text → Bool
is_agent_alone [] = false
is_agent_alone (service ∷ []) = text_eq service agent_stack
is_agent_alone (service ∷ other ∷ services) = false

pub is_self_operation : Text → OperationRequest → Bool
unfolding is_agent_alone
is_self_operation stack_name req =
    text_eq stack_name agent_stack
    && ((text_eq req.command (codes "up") || text_eq req.command (codes "restart"))
        && is_agent_alone req.services)

abbrev pub new_operation : Text → OperationRequest → List RegistryCredential → ℕ → Operation
new_operation stack_name req credentials now = record {
  stack_name = stack_name;
  request = req;
  registry_credentials = credentials;
  start_time = now;
  status = running;
  exit_code = none;
  is_self_op = is_self_operation stack_name req;
  broadcaster = new_broadcaster;
}

abbrev is_stack_wide : Text → OperationRequest → Bool
is_stack_wide stack_name req = text_eq stack_name agent_stack && length req.services == 0

-- `missing` says whether os.Stat finds nothing at a path, `cwd` is the working directory, `id` the new
-- UUID and `now` the time.
module _ (cwd stack_location : Text) (missing : Text → Bool) where
  -- The part of `StartOperation` that holds the mutex.
  pub register :
      Text
      → ℕ
      → Text
      → OperationRequest
      → List RegistryCredential
      → Service
      → Service × Result StartError Text
  unfolding is_self_operation
  register id now stack_name req credentials s = elim (s.active_operations stack_name) [
    | some existing ↦ (s, err (already_running existing stack_name))
    | none ↦ (
      record s {
        operations = put s.operations id (some (new_operation stack_name req credentials now));
        active_operations = put s.active_operations stack_name (some id);
      },
      ok id,
    )
  ]

  -- The checks in front of it.
  pub startable : Text → OperationRequest → Result StartError (Unit {0})
  startable stack_name req = elim (sanitize_stack_path cwd stack_location stack_name) [
    | err e ↦ err (invalid_stack_path e)
    | ok path ↦ do
      check (not (missing path)) (stack_not_found stack_name)
      check (not (is_stack_wide stack_name req)) (stack_wide stack_name)
  ]

  pub start_operation :
      Text
      → ℕ
      → Text
      → OperationRequest
      → List RegistryCredential
      → Service
      → Service × Result StartError Text
  unfolding register startable
  start_operation id now stack_name req credentials s = elim (startable stack_name req) [
    | err e ↦ (s, err e)
    | ok _ ↦ register id now stack_name req credentials s
  ]

abbrev pub is_ended : Status → Bool
is_ended running = false
is_ended completed = true
is_ended failed = true

-- The operation after `updateOperationStatus`, which forgets the secrets of one that has ended.
abbrev pub with_status : Status → Option ℤ → Operation → Operation
with_status status exit_code op =
    let op' = record op { status = status; exit_code = exit_code } in
    if is_ended status
    then record op' {
      request = record op.request { backup_password = [] };
      registry_credentials = [];
    }
    else op'

unfoldable pub update_operation_status : Text → Status → Option ℤ → Service → Service
update_operation_status id status exit_code s = elim (s.operations id) [
  | none ↦ s
  | some op ↦ record s { operations = put s.operations id (some (with_status status exit_code op)) }
]

abbrev pub is_current : Text → Option Text → Bool
is_current id none = false
is_current id (some current) = text_eq current id

-- What `unlockStack` does, and `removeOperation` with the stack of the operation.
unfoldable pub unlock_stack : Text → Text → Service → Service
unlock_stack stack_name id s =
    if is_current id (s.active_operations stack_name)
    then record s { active_operations = put s.active_operations stack_name none }
    else s

pub remove_operation : Text → Service → Service
unfolding unlock_stack
remove_operation id s = elim (s.operations id) [
  | none ↦ s
  | some op ↦ unlock_stack op.stack_name id (record s { operations = put s.operations id none })
]

-- A call of a method of `operation.Broadcaster`. Once the operation is forgotten, no one can ask for its
-- messages.
unfoldable pub with_broadcaster : Text → (Broadcaster → Broadcaster) → Service → Service
with_broadcaster id f s = elim (s.operations id) [
  | none ↦ s
  | some op ↦ record s {
    operations = put s.operations id (some (record op { broadcaster = f op.broadcaster }));
  }
]
