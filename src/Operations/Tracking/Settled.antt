-- ===== src/Operations/Tracking/Settled.antt =====
-- internal/operations/service.go: an operation whose goroutine has done its steps is over.
use berth_agent.Prelude.{
  text_eq_refl, ℕ, suc, ◌≡◌, refl, sym, inl, inr, true, false, not, ◌||◌, Option, some, List, [],
  ◌∷◌, arith, Text, text_eq, text_eq_iff, if◌then◌else◌, Bool-cases, Option-cases,
}
use berth_agent.Prelude.{subst, Option-cases}
use berth_agent.StackNames.{NameError}
use berth_agent.Sidecar.{SidecarError}
use berth_agent.Operations.Broadcaster.{broadcast, broadcast_error, broadcast_complete, Broadcaster}
use berth_agent.Operations.Tracking.{
  is_current, ℤ, Status, running, completed, failed, Operation, Service, is_ended, with_status,
  update_operation_status, unlock_stack, with_broadcaster,
}
use berth_agent.Operations.Tracking.Running.{
  Event, update, say, say_error, say_complete, unlock, apply_event, World, run_operation,
}
use berth_agent.Operations.Tracking.{is_current}
use berth_agent.Operations.Broadcaster.Log.{
  completed-broadcast, completed-broadcast_error, completed-broadcast_complete,
}
use berth_agent.Operations.Tracking.Running.Ends.{
  ends_first, only_ends, closes, frees, run_operation-Ends, run_operation-frees,
}
use berth_agent.Operations.Tracking.Exclusive.{unlocked_operations}

-- The steps of the goroutines in the order in which they take the mutex, each with the id of its
-- operation; `now` and `later` are the times of the n-th.
pub apply_trace : (ℕ → ℕ) → (ℕ → ℕ) → ℕ → List (Text × Event) → Service → Service
unfolding apply_event
apply_trace now later n [] s = s
apply_trace now later n ((id, e) ∷ trace) s =
    apply_trace now later (suc n) trace (apply_event id (now n) (later n) e s)

-- The steps of one of them.
unfoldable pub steps_of : Text → List (Text × Event) → List Event
steps_of id [] = []
steps_of id ((other, e) ∷ trace) =
    let rest = steps_of id trace in if text_eq other id then e ∷ rest else rest

-- An operation that is over, or will be after these steps.
record IsSettling (id stack : Text) (s : Service) (es : List Event) : Type 0 where
  op : Operation
  found : s.operations id ≡ some op
  ended : is_ended op.status || ends_first es ≡ true
  closed : op.broadcaster.completed || closes es ≡ true
  freed : not (is_current id (s.active_operations stack)) || frees stack es ≡ true
  only : only_ends es ≡ true

-- The operation is known as ended, its log is completed, and the stack is not busy with it.
pub record IsOver (id stack : Text) (s : Service) : Type 0 where
  pub op : Operation
  pub found : s.operations id ≡ some op
  pub ended : is_ended op.status ≡ true
  pub closed : op.broadcaster.completed ≡ true
  pub freed : is_current id (s.active_operations stack) ≡ false

status_of :
    (status : Status) (code : Option ℤ) (op : Operation)
    → (with_status status code op).status ≡ status
status_of running code op = refl
status_of completed code op = refl
status_of failed code op = refl

log_of :
    (status : Status) (code : Option ℤ) (op : Operation)
    → (with_status status code op).broadcaster ≡ op.broadcaster
log_of running code op = refl
log_of completed code op = refl
log_of failed code op = refl

-- An unlocked stack is not busy with the operation, and an unlocking of any other makes none busy.
not_current :
    (id other stack name : Text) (s : Service)
    → is_current id (s.active_operations stack) ≡ false
    → is_current id ((unlock_stack name other s).active_operations stack) ≡ false
unfolding unlock_stack
not_current id other stack name s free =
    elim (Bool-cases (is_current other (s.active_operations name))) [
      | inr stale ↦ rw (unlock_stack, stale) free
      | inl current ↦ elim (Bool-cases (text_eq name stack)) [
        | inl same ↦ rw (unlock_stack, current, same) refl
        | inr apart ↦ rw (unlock_stack, current, apart) free
      ]
    ]

own_unlocked :
    (id stack : Text) (s : Service)
    → is_current id ((unlock_stack stack id s).active_operations stack) ≡ false
unfolding unlock_stack
own_unlocked id stack s = elim (Bool-cases (is_current id (s.active_operations stack))) [
  | inr stale ↦ rw (unlock_stack, stale) stale
  | inl current ↦ rw (unlock_stack, current, text_eq_refl stack) refl
]

own_unlock :
    (id stack name : Text) (s : Service) (es : List Event)
    → not (is_current id (s.active_operations stack)) || (text_eq name stack || frees stack es)
      ≡ true
    → not (is_current id ((unlock_stack name id s).active_operations stack)) || frees stack es
      ≡ true
own_unlock id stack name s es h = elim (Bool-cases (text_eq name stack)) [
  | inl same ↦
      let equal : name ≡ stack = (text_eq_iff name stack).0 same in
      rw (equal, own_unlocked id stack s) refl
  | inr apart ↦ elim (Bool-cases (is_current id (s.active_operations stack))) [
    | inl current ↦ ground arith
    | inr free ↦ rw (not_current id id stack name s free) refl
  ]
]

own_event :
    (id stack : Text) (now later : ℕ) (e : Event) (s : Service) (es : List Event)
    → IsSettling id stack s (e ∷ es)
    → IsSettling id stack (apply_event id now later e s) es
unfolding apply_event update_operation_status with_broadcaster ends_first only_ends closes frees
own_event id stack now later (update status code) s es x =
    rw (x.found, update_operation_status)
      (record {
        op = with_status status code x.op;
        found = rw (text_eq_refl id) refl;
        ended = rw (status_of status code x.op) (ground (arith, x.only));
        closed = rw (log_of status code x.op) x.closed;
        freed = x.freed;
        only = ground (arith, x.only);
      })
own_event id stack now later (say type text) s es x =
    rw (x.found, with_broadcaster)
      (record {
        op = record x.op { broadcaster = broadcast x.op.broadcaster now type text };
        found = rw (text_eq_refl id) refl;
        ended = x.ended;
        closed = rw (completed-broadcast x.op.broadcaster now type text) x.closed;
        freed = x.freed;
        only = x.only;
      })
own_event id stack now later (say_error text) s es x =
    rw (x.found, with_broadcaster)
      (record {
        op = record x.op { broadcaster = broadcast_error x.op.broadcaster now later text };
        found = rw (text_eq_refl id) refl;
        ended = x.ended;
        closed = rw (completed-broadcast_error x.op.broadcaster now later text) refl;
        freed = x.freed;
        only = x.only;
      })
own_event id stack now later (say_complete success code) s es x =
    rw (x.found, with_broadcaster)
      (record {
        op = record x.op { broadcaster = broadcast_complete x.op.broadcaster now success code };
        found = rw (text_eq_refl id) refl;
        ended = x.ended;
        closed = rw (completed-broadcast_complete x.op.broadcaster now success code) refl;
        freed = x.freed;
        only = x.only;
      })
own_event id stack now later (unlock name) s es x = record {
  op = x.op;
  found = rw (unlocked_operations s id name) x.found;
  ended = ground (arith, x.ended);
  closed = x.closed;
  freed = own_unlock id stack name s es x.freed;
  only = x.only;
}

foreign_word :
    (id other stack : Text) (f : Broadcaster → Broadcaster) (s : Service) (es : List Event)
    → text_eq other id ≡ false
    → IsSettling id stack s es
    → IsSettling id stack (with_broadcaster other f s) es
unfolding with_broadcaster
foreign_word id other stack f s es ne x = elim (Option-cases (s.operations other)) [
  | inl absent ↦ rw (absent, with_broadcaster) x
  | inr (op, there) ↦
      rw (there, with_broadcaster)
        (record {
          op = x.op;
          found = rw ne x.found;
          ended = x.ended;
          closed = x.closed;
          freed = x.freed;
          only = x.only;
        })
]

-- A step of another operation.
foreign_event :
    (id other stack : Text) (now later : ℕ) (e : Event) (s : Service) (es : List Event)
    → text_eq other id ≡ false
    → IsSettling id stack s es
    → IsSettling id stack (apply_event other now later e s) es
unfolding apply_event update_operation_status with_broadcaster
foreign_event id other stack now later (update status code) s es ne x =
    elim (Option-cases (s.operations other)) [
      | inl absent ↦ rw (absent, update_operation_status) x
      | inr (op, there) ↦
          rw (there, update_operation_status)
            (record {
              op = x.op;
              found = rw ne x.found;
              ended = x.ended;
              closed = x.closed;
              freed = x.freed;
              only = x.only;
            })
    ]
foreign_event id other stack now later (say type text) s es ne x =
    foreign_word id other stack _ s es ne x
foreign_event id other stack now later (say_error text) s es ne x =
    foreign_word id other stack _ s es ne x
foreign_event id other stack now later (say_complete success code) s es ne x =
    foreign_word id other stack _ s es ne x
foreign_event id other stack now later (unlock name) s es ne x = record {
  op = x.op;
  found = rw (unlocked_operations s other name) x.found;
  ended = x.ended;
  closed = x.closed;
  freed = ground (arith, x.freed, not_current id other stack name s);
  only = x.only;
}

trace_settles :
    (now later : ℕ → ℕ) (n : ℕ) (id stack : Text) (trace : List (Text × Event)) (s : Service)
    → IsSettling id stack s (steps_of id trace)
    → IsSettling id stack (apply_trace now later n trace s) []
unfolding apply_trace steps_of
trace_settles now later n id stack [] s x = x
trace_settles now later n id stack ((other, e) ∷ trace) s x = elim (Bool-cases (text_eq other id)) [
  | inl same ↦
      let equal : other ≡ id = (text_eq_iff other id).0 same in
      let first =
        own_event id stack (now n) (later n) e s (steps_of id trace)
          (subst (IsSettling id stack s) (rw same refl) x) in
      trace_settles now later (suc n) id stack trace (apply_event other (now n) (later n) e s) (
        subst (λ i. IsSettling id stack (apply_event i (now n) (later n) e s) (steps_of id trace))
          (sym equal) first)
  | inr differs ↦
      trace_settles now later (suc n) id stack trace (apply_event other (now n) (later n) e s) (
        foreign_event id other stack (now n) (later n) e s (steps_of id trace) differs
          (subst (IsSettling id stack s) (rw differs refl) x))
]

-- Once the goroutine of an operation has done all its steps, whatever docker, the archives and the backups
-- answered and however the steps of other operations come in between, the service knows the operation as
-- ended, its log is completed, and its stack is not busy with it.
pub run_operation-IsOver :
    (cwd stack_location : Text) (path_text : NameError → Text) (sidecar_text : SidecarError → Text)
    (world : World) (now later : ℕ → ℕ) (id : Text) (op : Operation) (trace : List (Text × Event))
    (s : Service)
    → s.operations id ≡ some op
    → steps_of id trace ≡ run_operation cwd stack_location path_text sidecar_text world op
    → IsOver id op.stack_name (apply_trace now later 0 trace s)
unfolding ends_first closes frees
run_operation-IsOver cwd stack_location path_text sidecar_text world now later id op trace s found
      steps =
    let (first, (only, closed)) =
      run_operation-Ends cwd stack_location path_text sidecar_text world op in
    let freed = run_operation-frees cwd stack_location path_text sidecar_text world op in
    let x = trace_settles now later 0 id op.stack_name trace s (record {
      op = op;
      found = found;
      ended = rw steps (ground (arith, first));
      closed = rw steps (ground (arith, closed));
      freed = rw steps (ground (arith, freed));
      only = rw steps only;
    }) in
    record {
      op = x.op;
      found = x.found;
      ended = ground (arith, x.ended);
      closed = ground (arith, x.closed);
      freed = ground (arith, x.freed);
    }
