-- ===== src/Sidecar/Tests.antt =====
-- internal/sidecar: runs at concrete inputs.
use berth_agent.Prelude.{
  ◌≡◌, refl, some, List, [], ◌∷◌, ◌++◌, ok, Text, codes, text_eq, if◌then◌else◌, All,
}
use berth_agent.Prelude.{member}
use berth_agent.Sidecar.{supported_options, validate_operation, compose_args, agent_service_name}
use berth_agent.Sidecar.Laws.{IsFlagOf, IsKept, compose_args-validate_operation}

abbrev update : List Text
update = codes "--build" ∷ codes "-d" ∷ []

update_accepted : validate_operation (codes "up") update ≡ ok tt
unfolding validate_operation text_eq member
update_accepted = refl

compose_args-validate_operation_example :
    (allowed flags : List Text) × (supported_options (codes "up") ≡ some allowed)
    × IsKept update flags
    × All (IsFlagOf allowed) flags
    × (compose_args (codes "up") update
        ≡ (codes "compose" ∷ codes "up" ∷ [])
          ++ (flags
              ++ (agent_service_name
                  ∷ (if text_eq (codes "up") (codes "up") then codes "-d" ∷ [] else []))))
compose_args-validate_operation_example =
    compose_args-validate_operation (codes "up") update update_accepted
