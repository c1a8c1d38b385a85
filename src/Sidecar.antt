-- ===== src/Sidecar.antt =====
-- internal/sidecar/supported.go: the operations by which the sidecar updates the agent.
pub mod Laws
mod Tests
use berth_agent.Prelude.{
  ◌+◌, ◌-◌, not, ◌||◌, Option, none, some, List, [], ◌∷◌, ◌++◌, Result, ok, err, ◌>>◌, check, Text,
  codes, text_eq, if◌then◌else◌,
}
use berth_agent.Prelude.{member}

pub data SidecarError : Type 0 where
  unsupported_command : Text → SidecarError
  unsupported_option : Text → SidecarError

abbrev pub agent_service_name : Text
agent_service_name = codes "berth-agent"

abbrev pub detach_options : List Text
detach_options = codes "-d" ∷ codes "--detach" ∷ []

abbrev pub supported_up_options : List Text
supported_up_options =
    codes "--build"
    ∷ codes "--force-recreate"
    ∷ codes "--no-recreate"
    ∷ codes "--remove-orphans"
    ∷ codes "--renew-anon-volumes"
    ∷ codes "-V"
    ∷ codes "--wait"
    ∷ codes "--no-deps"
    ∷ []

-- supportedOptions[command]
pub supported_options : Text → Option (List Text)
supported_options command =
    if text_eq command (codes "up")
    then some supported_up_options
    else if text_eq command (codes "restart")
    then some (codes "--no-deps" ∷ [])
    else none

-- The loop of `ValidateOperation`.
validate_each : List Text → List Text → Result SidecarError (Unit {0})
validate_each allowed [] = ok tt
validate_each allowed (option ∷ options) =
    check (member option detach_options || member option allowed) (unsupported_option option)
    >> validate_each allowed options

pub validate_operation : Text → List Text → Result SidecarError (Unit {0})
unfolding validate_each supported_options
validate_operation command options = elim (supported_options command) [
  | none ↦ err (unsupported_command command)
  | some allowed ↦ validate_each allowed options
]

-- The loop of `composeArgs`.
without_detach : List Text → List Text
without_detach [] = []
without_detach (option ∷ options) =
    let rest = without_detach options in
    if not (member option detach_options) then option ∷ rest else rest

pub compose_args : Text → List Text → List Text
unfolding without_detach
compose_args command options =
    (codes "compose" ∷ command ∷ [])
    ++ (without_detach options
        ++ (agent_service_name ∷ (if text_eq command (codes "up") then codes "-d" ∷ [] else [])))
