-- ===== src/StackNames/Tests.antt =====
-- internal/validation: runs at concrete inputs.
use berth_agent.Prelude.{◌≡◌, ◌↔◌, ok, codes}
use berth_agent.StackNames.{validate_stack_name}
use berth_agent.StackNames.Accepted.{IsStackName, validate_stack_name_iff}

validate_stack_name_iff_example :
    (validate_stack_name (codes "web-1.2") ≡ ok tt) ↔ IsStackName (codes "web-1.2")
validate_stack_name_iff_example = validate_stack_name_iff (codes "web-1.2")
