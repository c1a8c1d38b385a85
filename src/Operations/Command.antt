-- ===== src/Operations/Command.antt =====
-- internal/operations/service.go: the arguments that docker is called with.
pub mod Safe
use berth_agent.Prelude.{
  ◌+◌, ◌-◌, not, ◌&&◌, List, [], ◌∷◌, ◌++◌, Text, codes, text_eq, if◌then◌else◌,
}
use berth_agent.Operations.Request.{OperationRequest}

-- The loop of `buildCommand` over the options.
without_detach : List Text → List Text
without_detach [] = []
without_detach (option ∷ options) =
    let rest = without_detach options in
    if not (text_eq option (codes "-d")) && not (text_eq option (codes "--detach"))
    then option ∷ rest
    else rest

-- The arguments in `buildCommand`.
pub build_command : OperationRequest → List Text
unfolding without_detach
build_command req =
    codes "compose"
      ∷ req.command
      ∷ (without_detach req.options
          ++ (if text_eq req.command (codes "up") then codes "-d" ∷ [] else []))
    ++ req.services
