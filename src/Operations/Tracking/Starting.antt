-- ===== src/Operations/Tracking/Starting.antt =====
-- internal/operations/service.go: what StartOperation answers, and what the service knows afterwards.
use berth_agent.Prelude.{
  ◌<◌, ℕ, ◌≡◌, refl, ap, inl, inr, ◌⊎◌, Bool, true, false, none, some, List, [], ◌∷◌, Result, ok,
  err, Text, codes, text_eq, text_eq_iff, Bool-cases, Option-cases, arith, if◌then◌else◌,
}
use berth_agent.Prelude.{Option-cases, Result-cases, ◌↔◌, text_eq_refl, length}
use berth_agent.StackNames.{NameError, sanitize_stack_path}
use berth_agent.Operations.Request.{OperationRequest}
use berth_agent.Operations.Broadcaster.{new_broadcaster}
use berth_agent.Operations.Tracking.{
  RegistryCredential, running, Operation, Service, StartError, invalid_stack_path, stack_not_found,
  stack_wide, already_running, new_operation, start_operation, register, startable,
  is_self_operation, is_agent_alone, agent_stack, is_stack_wide,
}

-- The agent is asked to start or restart itself, and nothing else.
pub IsOwnUpdate : Text → OperationRequest → Type 0
IsOwnUpdate stack req =
    (stack ≡ agent_stack)
    × (((req.command ≡ codes "up") ⊎ (req.command ≡ codes "restart"))
        × (req.services ≡ agent_stack ∷ []))

is_agent_alone_iff :
    (services : List Text) → (is_agent_alone services ≡ true) ↔ (services ≡ agent_stack ∷ [])
unfolding is_agent_alone
is_agent_alone_iff [] = ((λ h. absurd (cc)), (λ h. absurd (cc)))
is_agent_alone_iff (a ∷ []) = (
  (λ h. ap (λ x. x ∷ []) ((text_eq_iff a agent_stack).0 h)),
  (λ h. (text_eq_iff a agent_stack).1 (cc)),
)
is_agent_alone_iff (a ∷ b ∷ services) = ((λ h. absurd (cc)), (λ h. absurd (cc)))

is_self_operation_iff :
    (stack : Text) (req : OperationRequest)
    → (is_self_operation stack req ≡ true) ↔ IsOwnUpdate stack req
unfolding is_self_operation IsOwnUpdate
is_self_operation_iff stack req = ground (
  arith,
  text_eq_iff stack agent_stack,
  text_eq_iff req.command (codes "up"),
  text_eq_iff req.command (codes "restart"),
  is_agent_alone_iff req.services,
)

length-cases :
    {A : Type 0} (l : List A) → ((l ≡ []) × (length l ≡ 0)) ⊎ (¬ (l ≡ []) × (0 < length l))
length-cases [] = inl (refl, refl)
length-cases (a ∷ l) = inr ((λ e. absurd (cc)), omega arith)

module _ (cwd stack_location : Text) (missing : Text → Bool) (id : Text) (now : ℕ) (stack : Text)
    (req : OperationRequest) (credentials : List RegistryCredential) (s : Service) where
  -- The service knows the operation of the request under its id, and the stack is busy with it.
  pub record IsBegun (s' : Service) : Type 0 where
    pub op : Operation
    pub known : s'.operations id ≡ some op
    pub of_stack : op.stack_name ≡ stack
    pub of_request : op.request ≡ req
    pub of_credentials : op.registry_credentials ≡ credentials
    pub since : op.start_time ≡ now
    pub runs : op.status ≡ running
    pub unfinished : op.exit_code ≡ none
    pub silent : op.broadcaster ≡ new_broadcaster
    pub own : (op.is_self_op ≡ true) ↔ IsOwnUpdate stack req
    pub holds : s'.active_operations stack ≡ some id
    pub other_operations :
        (other : Text)
        → s'.operations other ≡ (if text_eq id other then s'.operations id else s.operations other)
    pub other_stacks :
        (other : Text)
        → s'.active_operations other
          ≡ (if text_eq stack other then s'.active_operations stack else s.active_operations other)

  -- The stack is there, and the agent's own is not meant as a whole.
  pub record IsStartable (path : Text) : Type 0 where
    pub named : sanitize_stack_path cwd stack_location stack ≡ ok path
    pub present : missing path ≡ false
    pub targeted : ¬ ((stack ≡ agent_stack) × (req.services ≡ []))

  pub data IsStartAnswer : Service × Result StartError Text → Type 0 where
    misnamed :
        (e : NameError)
        → sanitize_stack_path cwd stack_location stack ≡ err e
        → IsStartAnswer (s, err (invalid_stack_path e))
    absent :
        (path : Text)
        → sanitize_stack_path cwd stack_location stack ≡ ok path
        → missing path ≡ true
        → IsStartAnswer (s, err (stack_not_found stack))
    untargeted :
        (path : Text)
        → sanitize_stack_path cwd stack_location stack ≡ ok path
        → missing path ≡ false
        → stack ≡ agent_stack
        → req.services ≡ []
        → IsStartAnswer (s, err (stack_wide stack))
    busy :
        (path existing : Text)
        → IsStartable path
        → s.active_operations stack ≡ some existing
        → IsStartAnswer (s, err (already_running existing stack))
    begun :
        (path : Text) (s' : Service)
        → IsStartable path
        → s.active_operations stack ≡ none
        → IsBegun s'
        → IsStartAnswer (s', ok id)

  register-IsStartAnswer :
      (path : Text)
      → IsStartable path
      → IsStartAnswer (register cwd stack_location missing id now stack req credentials s)
  unfolding register
  register-IsStartAnswer path fine = elim (Option-cases (s.active_operations stack)) [
    | inr (existing, held) ↦ rw (held, register) (busy path existing fine held)
    | inl free ↦
        rw (free, register)
          (begun path _ fine free (record {
            op = new_operation stack req credentials now;
            known = rw (text_eq_refl id) refl;
            of_stack = refl;
            of_request = refl;
            of_credentials = refl;
            since = refl;
            runs = refl;
            unfinished = refl;
            silent = refl;
            own = is_self_operation_iff stack req;
            holds = rw (text_eq_refl stack) refl;
            other_operations = λ other. rw (text_eq_refl id) (ground arith);
            other_stacks = λ other. rw (text_eq_refl stack) (ground arith);
          }))
  ]

  stack_wide_iff : (is_stack_wide stack req ≡ true) ↔ ((stack ≡ agent_stack) × (req.services ≡ []))
  stack_wide_iff = elim (length-cases req.services) [
    | inl (e, n) ↦ ground (arith, text_eq_iff stack agent_stack, e, n)
    | inr (e, n) ↦ ground (arith, text_eq_iff stack agent_stack, e, n)
  ]

  -- What a request to start an operation is answered. It fails, and leaves the service as it was, when
  -- the name of the stack is not accepted, when its directory is missing, when it is for the agent's
  -- own stack without services, and when an operation is busy with the stack, in this order. Else the
  -- new id names an operation that runs, has the stack, the request, the credentials and the time of
  -- the call, no exit code and an empty log, and is marked as the agent's own exactly for an `up` or a
  -- `restart` of the agent alone; the stack is busy with it, and what is known of all other ids and
  -- stacks is as before.
  pub start_operation-IsStartAnswer :
      IsStartAnswer (start_operation cwd stack_location missing id now stack req credentials s)
  unfolding start_operation startable
  start_operation-IsStartAnswer =
      elim (Result-cases (sanitize_stack_path cwd stack_location stack)) [
        | inr (e, bad) ↦ rw (bad, startable, start_operation) (misnamed e bad)
        | inl (path, named) ↦ elim (Bool-cases (missing path)) [
          | inl gone ↦ rw (named, gone, startable, start_operation) (absent path named gone)
          | inr present ↦ elim (Bool-cases (is_stack_wide stack req)) [
            | inl wide ↦
                let (own, whole) = stack_wide_iff.0 wide in
                rw (named, present, wide, startable, start_operation)
                  (untargeted path named present own whole)
            | inr narrow ↦
                let fine : IsStartable path = record {
                  named = named;
                  present = present;
                  targeted = λ h. absurd (cc (narrow, stack_wide_iff.1 h));
                } in
                rw (named, present, narrow, startable, start_operation)
                  (register-IsStartAnswer path fine)
          ]
        ]
      ]
