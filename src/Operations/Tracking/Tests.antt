-- ===== src/Operations/Tracking/Tests.antt =====
-- internal/operations/service.go: runs at concrete inputs.
use berth_agent.Prelude.{
  contains, has_prefix, ℕ, ◌≡◌, refl, ap, Bool, false, none, some, List, [], ◌∷◌, ok, Text, codes,
  text_eq, if◌then◌else◌,
}
use berth_agent.Paths.{
  clean, elements, is_abs, kept, up, join_elements, join_paths, abs, elements_of, without_common,
  rel,
}
use berth_agent.StackNames.{
  sanitize_stack_path, validate_stack_name, matches_name, is_name_byte, is_alphanumeric, equal_fold,
  to_lower,
}
use berth_agent.Operations.Request.{OperationRequest}
use berth_agent.Operations.Broadcaster.{stdout}
use berth_agent.Operations.Tracking.{
  Operation, Service, new_service, new_operation, start_operation, startable, register,
}
use berth_agent.Operations.Tracking.Running.{Event, say, World, succeeded, run_operation}
use berth_agent.Operations.Tracking.Exclusive.{System}
use berth_agent.Operations.Tracking.Reachable.{
  initial, start, after, starting, Reach, registered, running-IsUnique,
}
use berth_agent.Operations.Tracking.Starting.{IsStartAnswer, start_operation-IsStartAnswer}
use berth_agent.Operations.Tracking.Settled.{steps_of, apply_trace, IsOver, run_operation-IsOver}

abbrev sample_request : OperationRequest
sample_request = record { command = codes "up"; options = []; services = []; backup_password = [] }

abbrev sample_world : World
sample_world = record {
  no_docker_config = none;
  login_failure = λ registry. none;
  command = succeeded ((stdout, codes "done") ∷ []);
  archive = record { output = []; result = ok tt };
  backup = record { output = []; result = ok tt };
}

abbrev sample_operation : Operation
sample_operation = new_operation (codes "web") sample_request [] 7

abbrev sample_stacks : Text
sample_stacks = codes "/srv"

abbrev none_missing : Text → Bool
none_missing path = false

abbrev no_text : {E : Type 0} → E → Text
no_text e = []

start_operation-IsStartAnswer_example :
    IsStartAnswer sample_stacks sample_stacks none_missing
      (codes "a")
      7
      (codes "web")
      sample_request
      []
      new_service
      (start_operation sample_stacks sample_stacks none_missing
        (codes "a")
        7
        (codes "web")
        sample_request
        []
        new_service)
start_operation-IsStartAnswer_example =
    start_operation-IsStartAnswer sample_stacks sample_stacks none_missing (codes "a") 7
      (codes "web") sample_request [] new_service

sample_startable :
    startable sample_stacks sample_stacks none_missing (codes "web") sample_request ≡ ok tt
unfolding startable sanitize_stack_path validate_stack_name matches_name is_name_byte
    is_alphanumeric equal_fold to_lower clean elements is_abs kept up join_elements join_paths abs
    elements_of without_common rel text_eq has_prefix contains
sample_startable = refl

sample_started :
    start_operation sample_stacks sample_stacks none_missing
      (codes "a")
      7
      (codes "web")
      sample_request
      []
      new_service
    ≡ (registered (codes "a") sample_operation new_service, ok (codes "a"))
unfolding start_operation register new_service
sample_started = rw (sample_startable, start_operation) refl

abbrev sample_service : Service
sample_service = registered (codes "a") sample_operation new_service

abbrev sample_system : System
sample_system = record {
  service = sample_service;
  tasks = λ other.
      if text_eq (codes "a") other
      then run_operation sample_stacks sample_stacks no_text no_text sample_world sample_operation
      else [];
}

sample_fresh : initial.service.operations (codes "a") ≡ none
unfolding initial
sample_fresh = refl

sample_reached : Reach sample_stacks sample_stacks none_missing no_text no_text sample_system
unfolding initial
sample_reached = after start (
    starting (codes "a") 7 (codes "web") sample_request [] sample_world sample_service sample_fresh
      sample_started)

sample_found : sample_service.operations (codes "a") ≡ some sample_operation
unfolding text_eq
sample_found = refl

running-IsUnique_example : codes "a" ≡ codes "a"
running-IsUnique_example =
    running-IsUnique sample_stacks sample_stacks none_missing no_text no_text sample_system
      (codes "a") (codes "a") sample_operation sample_operation sample_reached sample_found
      sample_found refl refl refl

-- The steps of the operation, behind one of another.
own_steps : List Event → List (Text × Event)
own_steps [] = []
own_steps (e ∷ es) = (codes "a", e) ∷ own_steps es

abbrev sample_trace : List (Text × Event)
sample_trace =
    (codes "b", say stdout (codes "x"))
    ∷ own_steps
        (run_operation sample_stacks sample_stacks no_text no_text sample_world sample_operation)

steps_of-own_steps : (es : List Event) → steps_of (codes "a") (own_steps es) ≡ es
unfolding own_steps steps_of text_eq
steps_of-own_steps [] = refl
steps_of-own_steps (e ∷ es) = ap (◌∷◌ e) (steps_of-own_steps es)

sample_steps :
    steps_of (codes "a") sample_trace
    ≡ run_operation sample_stacks sample_stacks no_text no_text sample_world sample_operation
unfolding steps_of text_eq
sample_steps =
    steps_of-own_steps
      (run_operation sample_stacks sample_stacks no_text no_text sample_world sample_operation)

abbrev sample_time : ℕ → ℕ
sample_time n = n

run_operation-IsOver_example :
    IsOver
      (codes "a")
      (codes "web")
      (apply_trace sample_time sample_time 0 sample_trace sample_service)
run_operation-IsOver_example =
    run_operation-IsOver sample_stacks sample_stacks no_text no_text sample_world sample_time
      sample_time (codes "a") sample_operation sample_trace sample_service sample_found sample_steps
