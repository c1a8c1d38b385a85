-- ===== src/Operations/Tracking/Reachable.antt =====
-- internal/operations/service.go: the states that the goroutines of the operations reach, in whatever
-- order they take the mutex.
use berth_agent.Prelude.{
  text_eq_refl, ℕ, ◌≡◌, refl, ap, sym, inl, inr, Bool, true, false, none, some, List, [], ◌∷◌, ok,
  Text, text_eq, text_eq_iff, Bool-cases, Option-cases,
}
use berth_agent.Prelude.{subst, Option-cases, Result-cases}
use berth_agent.StackNames.{NameError}
use berth_agent.Sidecar.{SidecarError}
use berth_agent.Operations.Request.{OperationRequest}
use berth_agent.Operations.Tracking.{
  RegistryCredential, running, Operation, Service, put, new_service, new_operation, start_operation,
  register, startable, is_ended, unlock_stack, remove_operation,
}
use berth_agent.Operations.Tracking.Running.{
  Event, update, say, say_error, say_complete, unlock, apply_event, World, run_operation,
}
use berth_agent.Operations.Tracking.Running.Ends.{ends_first, only_ends, Ends, run_operation-Ends}
use berth_agent.Operations.Tracking.Exclusive.{
  System, put_task, IsExclusive, updating, broadcasting, unlocking, still_ends, own-IsHeld,
  unlocked_other, unlocked_operations,
}

unfoldable pub initial : System
unfolding new_service
initial = record { service = new_service; tasks = λ id. [] }

module _ (cwd stack_location : Text) (missing : Text → Bool) (path_text : NameError → Text)
    (sidecar_text : SidecarError → Text) where
  -- A request that starts an operation with a new id, a step of a goroutine, and the timer that forgets an
  -- operation which has ended.
  pub data Step (sys : System) : System → Type 0 where
    starting :
        (id : Text) (now : ℕ) (stack : Text) (req : OperationRequest)
        (credentials : List RegistryCredential) (world : World) (service' : Service)
        → sys.service.operations id ≡ none
        → start_operation cwd stack_location missing id now stack req credentials sys.service
          ≡ (service', ok id)
        → Step sys (record {
          service = service';
          tasks = put_task sys.tasks id (
              run_operation cwd stack_location path_text sidecar_text world
                (new_operation stack req credentials now));
        })
    working :
        (id : Text) (now later : ℕ) (e : Event) (es : List Event)
        → sys.tasks id ≡ e ∷ es
        → Step sys (record {
          service = apply_event id now later e sys.service;
          tasks = put_task sys.tasks id es;
        })
    expiring :
        (id : Text) (op : Operation)
        → sys.service.operations id ≡ some op
        → is_ended op.status ≡ true
        → Step sys (record { service = remove_operation id sys.service; tasks = sys.tasks })

  pub data Reach : System → Type 0 where
    start : Reach initial
    after : {s t : System} → Reach s → Step s t → Reach t

-- What a request that starts an operation changes.
abbrev pub registered : Text → Operation → Service → Service
registered id op s = record s {
  operations = put s.operations id (some op);
  active_operations = put s.active_operations op.stack_name (some id);
}

started :
    (cwd stack_location : Text) (missing : Text → Bool) (id id' : Text) (now : ℕ) (stack : Text)
    (req : OperationRequest) (credentials : List RegistryCredential) (s s' : Service)
    → start_operation cwd stack_location missing id now stack req credentials s ≡ (s', ok id')
    → (s.active_operations stack ≡ none)
      × (registered id (new_operation stack req credentials now) s ≡ s')
unfolding start_operation register
started cwd stack_location missing id id' now stack req credentials s s' e =
    elim (Result-cases (startable cwd stack_location missing stack req)) [
      | inr (x, refused) ↦ absurd (cc (ap (λ p. p.1) (rw (refused, start_operation) at e)))
      | inl (u, fine) ↦ elim (Option-cases (s.active_operations stack)) [
        | inr (existing, busy) ↦
            absurd (cc (ap (λ p. p.1) (rw (fine, start_operation, busy, register) at e)))
        | inl free ↦ (free, ap (λ p. p.0) (rw (fine, start_operation, free, register) at e))
      ]
    ]

starting_lem :
    (s : Service) (tasks : Text → List Event) (id : Text) (op : Operation) (es : List Event)
    → Ends es
    → s.active_operations op.stack_name ≡ none
    → IsExclusive s tasks
    → IsExclusive (registered id op s) (put_task tasks id es)
starting_lem s tasks id op es (first, (only, closed)) free x = record {
  ending = still_ends s tasks id es only x;
  busy = λ other op' found run. elim (Bool-cases (text_eq id other)) [
    | inl same ↦
        let found' : some op ≡ some op' = rw same at found in
        let equal : op ≡ op' = cc in
        own-IsHeld (registered id op s) tasks id other es op' same
          (rw (sym equal, text_eq_refl op.stack_name) refl) first
    | inr differs ↦
        let (a, b) = x.busy other op' (rw differs at found) run in
        let apart : text_eq op.stack_name op'.stack_name ≡ false =
          elim (Bool-cases (text_eq op.stack_name op'.stack_name)) [
            | inl taken ↦
                let equal : op.stack_name ≡ op'.stack_name =
                  (text_eq_iff op.stack_name op'.stack_name).0 taken in
                absurd (cc)
            | inr no_clash ↦ no_clash
          ] in
        (rw apart a, rw differs b)
  ];
}

expiring_lem :
    (s : Service) (tasks : Text → List Event) (id : Text) (op : Operation)
    → s.operations id ≡ some op
    → IsExclusive s tasks
    → IsExclusive
        (unlock_stack op.stack_name id (record s { operations = put s.operations id none }))
        tasks
expiring_lem s tasks id op there x =
    let s' : Service = record s { operations = put s.operations id none } in
    record {
      ending = x.ending;
      busy = λ other op' found run.
          let found' : put s.operations id none other ≡ some op' =
            rw (unlocked_operations s' id op.stack_name) at found in
          elim (Bool-cases (text_eq id other)) [
            | inl same ↦ absurd (cc (rw same at found'))
            | inr differs ↦
                let (a, b) = x.busy other op' (rw differs at found') run in
                (unlocked_other s' id other op.stack_name op'.stack_name differs a, b)
          ];
    }

initial-IsExclusive : IsExclusive initial.service initial.tasks
unfolding initial only_ends
initial-IsExclusive = record { ending = λ id. refl; busy = λ id op found run. absurd (cc) }

removing_lem :
    (s : Service) (tasks : Text → List Event) (id : Text) (op : Operation)
    → s.operations id ≡ some op
    → IsExclusive s tasks
    → IsExclusive (remove_operation id s) tasks
unfolding remove_operation
removing_lem s tasks id op there x =
    rw (there, remove_operation) (expiring_lem s tasks id op there x)

apply_event-IsExclusive :
    (s : Service) (tasks : Text → List Event) (id : Text) (now later : ℕ) (e : Event)
    (es : List Event)
    → IsExclusive s tasks
    → tasks id ≡ e ∷ es
    → IsExclusive (apply_event id now later e s) (put_task tasks id es)
unfolding apply_event ends_first only_ends
apply_event-IsExclusive s tasks id now later (update status code) es x task =
    updating s tasks id status code es x task
apply_event-IsExclusive s tasks id now later (say type text) es x task =
    broadcasting s tasks id _ es x (rw task refl) (rw task at (x.ending id))
apply_event-IsExclusive s tasks id now later (say_error text) es x task =
    broadcasting s tasks id _ es x (rw task refl) (rw task at (x.ending id))
apply_event-IsExclusive s tasks id now later (say_complete success code) es x task =
    broadcasting s tasks id _ es x (rw task refl) (rw task at (x.ending id))
apply_event-IsExclusive s tasks id now later (unlock stack) es x task =
    unlocking s tasks id stack es x task

module _ (cwd stack_location : Text) (missing : Text → Bool) (path_text : NameError → Text)
    (sidecar_text : SidecarError → Text) where
  Step-IsExclusive :
      {sys next : System}
      → Step cwd stack_location missing path_text sidecar_text sys next
      → IsExclusive sys.service sys.tasks
      → IsExclusive next.service next.tasks
  Step-IsExclusive {sys} (starting id now stack req credentials world service' fresh done) x =
      let op = new_operation stack req credentials now in
      let es = run_operation cwd stack_location path_text sidecar_text world op in
      let (free, equal) =
        started cwd stack_location missing id id now stack req credentials sys.service service'
          done in
      subst (λ s. IsExclusive s (put_task sys.tasks id es)) equal
        (starting_lem sys.service sys.tasks id op es
          (run_operation-Ends cwd stack_location path_text sidecar_text world op) free x)
  Step-IsExclusive {sys} (working id now later e es task) x =
      apply_event-IsExclusive sys.service sys.tasks id now later e es x task
  Step-IsExclusive {sys} (expiring id op there ended) x =
      removing_lem sys.service sys.tasks id op there x

  Reach-IsExclusive :
      {sys : System}
      → Reach cwd stack_location missing path_text sidecar_text sys
      → IsExclusive sys.service sys.tasks
  Reach-IsExclusive start = initial-IsExclusive
  Reach-IsExclusive (after r step) = Step-IsExclusive step (Reach-IsExclusive r)

  -- However the requests, the goroutines of the operations and the timers that forget ended operations
  -- interleave, two operations that the service knows as running on one stack are the same.
  pub running-IsUnique :
      (sys : System) (id id' : Text) (op op' : Operation)
      → Reach cwd stack_location missing path_text sidecar_text sys
      → sys.service.operations id ≡ some op
      → sys.service.operations id' ≡ some op'
      → op.status ≡ running
      → op'.status ≡ running
      → op.stack_name ≡ op'.stack_name
      → id ≡ id'
  running-IsUnique sys id id' op op' r found found' run run' stack =
      let x = Reach-IsExclusive r in
      let a = (x.busy id op found run).0 in let b = (x.busy id' op' found' run').0 in cc
