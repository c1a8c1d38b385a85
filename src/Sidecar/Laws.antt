-- ===== src/Sidecar/Laws.antt =====
-- internal/sidecar: what docker compose is called with.
use berth_agent.Prelude.{
  check-bind-eq-ok, ◌≡◌, refl, inl, inr, true, false, ◌||◌, some, List, [], ◌∷◌, ◌++◌, arith, ok,
  Text, codes, text_eq, if◌then◌else◌, Bool-cases, Option-cases, All,
}
use berth_agent.Prelude.{member}
use berth_agent.Sidecar.{
  unsupported_option, detach_options, supported_options, validate_each, validate_operation,
  without_detach, compose_args, agent_service_name,
}

-- The flags of an accepted operation.
abbrev pub IsFlagOf : List Text → Text → Type 0
IsFlagOf allowed option = (member option allowed ≡ true) × (member option detach_options ≡ false)

flags_of_each :
    (allowed options : List Text)
    → validate_each allowed options ≡ ok tt
    → All (IsFlagOf allowed) (without_detach options)
unfolding validate_each without_detach
flags_of_each allowed [] h = tt
flags_of_each allowed (o ∷ options) h =
    let (known, more) =
      check-bind-eq-ok (member o detach_options || member o allowed) (unsupported_option o) _ h in
    let later = flags_of_each allowed options more in
    elim (Bool-cases (member o detach_options)) [
      | inl detach ↦ rw detach later
      | inr flag ↦ rw flag ((ground arith, flag), later)
    ]

-- The requested options without `-d` and `--detach`, in their order.
pub data IsKept : List Text → List Text → Type 0 where
  nothing : IsKept [] []
  dropped :
      {o : Text} {options flags : List Text}
      → member o detach_options ≡ true
      → IsKept options flags
      → IsKept (o ∷ options) flags
  kept :
      {o : Text} {options flags : List Text}
      → member o detach_options ≡ false
      → IsKept options flags
      → IsKept (o ∷ options) (o ∷ flags)

without_detach-IsKept : (options : List Text) → IsKept options (without_detach options)
unfolding without_detach
without_detach-IsKept [] = nothing
without_detach-IsKept (o ∷ options) = elim (Bool-cases (member o detach_options)) [
  | inl detach ↦ rw detach (dropped detach (without_detach-IsKept options))
  | inr flag ↦ rw flag (kept flag (without_detach-IsKept options))
]

-- docker compose is called with an accepted operation as `compose <command> <flags> berth-agent`,
-- and behind it `-d` exactly for `up`. The flags are the requested options in their order, each of them
-- but the detach options, and the sidecar supports every flag for the command.
pub compose_args-validate_operation :
    (command : Text) (options : List Text)
    → validate_operation command options ≡ ok tt
    → (allowed flags : List Text) × (supported_options command ≡ some allowed)
      × IsKept options flags
      × All (IsFlagOf allowed) flags
      × (compose_args command options
          ≡ (codes "compose" ∷ command ∷ [])
            ++ (flags
                ++ (agent_service_name
                    ∷ (if text_eq command (codes "up") then codes "-d" ∷ [] else []))))
unfolding validate_operation compose_args
compose_args-validate_operation command options h =
    elim (Option-cases (supported_options command)) [
      | inl unknown ↦ absurd (cc (rw (unknown, validate_operation) at h))
      | inr (allowed, known) ↦ (
        allowed,
        without_detach options,
        known,
        without_detach-IsKept options,
        flags_of_each allowed options (rw (known, validate_operation) at h),
        refl,
      )
    ]
