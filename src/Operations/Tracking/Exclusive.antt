-- ===== src/Operations/Tracking/Exclusive.antt =====
-- internal/operations/service.go: a stack has at most one operation that runs, whatever the order in
-- which the goroutines of the operations take the mutex.
use berth_agent.Prelude.{
  ◌≡◌, ◌≢◌, refl, sym, ◌∙◌, inl, inr, true, false, ◌&&◌, Option, none, some, List, ◌∷◌, arith, Text,
  text_eq, text_eq_iff, if◌then◌else◌, Bool-cases, Option-cases,
}
use berth_agent.Prelude.{Option-cases}
use berth_agent.Operations.Broadcaster.{Broadcaster}
use berth_agent.Operations.Tracking.{
  is_current, ℤ, Status, running, completed, failed, Operation, Service, put, is_ended, with_status,
  update_operation_status, unlock_stack, with_broadcaster,
}
use berth_agent.Operations.Tracking.Running.{Event, update, unlock}
use berth_agent.Operations.Tracking.Running.Ends.{ends_first, only_ends}

-- The service, and the steps that the goroutine of each operation still has to do.
pub record System : Type 0 where
  pub service : Service
  pub tasks : Text → List Event

abbrev pub put_task : (Text → List Event) → Text → List Event → Text → List Event
put_task tasks id es other = if text_eq id other then es else tasks other

-- A running operation has its stack, and will end before it gives it up.
pub record IsExclusive (service : Service) (tasks : Text → List Event) : Type 0 where
  pub ending : (id : Text) → only_ends (tasks id) ≡ true
  pub busy :
      (id : Text) (op : Operation)
      → service.operations id ≡ some op
      → op.status ≡ running
      → (service.active_operations op.stack_name ≡ some id) × (ends_first (tasks id) ≡ true)

-- What is asked of an operation.
abbrev pub IsHeld : Service → (Text → List Event) → Text → Operation → Type 0
IsHeld s tasks id op =
    (s.active_operations op.stack_name ≡ some id) × (ends_first (tasks id) ≡ true)

-- The tasks of the others are as before.
pub other-IsHeld :
    (s : Service) (tasks : Text → List Event) (id other : Text) (es : List Event) (op : Operation)
    → text_eq id other ≡ false
    → IsHeld s tasks other op
    → IsHeld s (put_task tasks id es) other op
other-IsHeld s tasks id other es op differs (a, b) = (a, rw differs b)

pub own-IsHeld :
    (s : Service) (tasks : Text → List Event) (id other : Text) (es : List Event) (op : Operation)
    → text_eq id other ≡ true
    → s.active_operations op.stack_name ≡ some id
    → ends_first es ≡ true
    → IsHeld s (put_task tasks id es) other op
own-IsHeld s tasks id other es op same a b =
    ((rw (sym ((text_eq_iff id other).0 same)) a), rw same b)

pub still_ends :
    (s : Service) (tasks : Text → List Event) (id : Text) (es : List Event)
    → only_ends es ≡ true
    → IsExclusive s tasks
    → (other : Text) → only_ends (put_task tasks id es other) ≡ true
still_ends s tasks id es rest x other = elim (Bool-cases (text_eq id other)) [
  | inl same ↦ rw same rest
  | inr differs ↦ rw differs (x.ending other)
]

idle :
    (s : Service) (tasks : Text → List Event) (id : Text) (es : List Event)
    → s.operations id ≡ none
    → only_ends es ≡ true
    → IsExclusive s tasks
    → IsExclusive s (put_task tasks id es)
idle s tasks id es absent rest x = record {
  ending = still_ends s tasks id es rest x;
  busy = λ other op found run. elim (Bool-cases (text_eq id other)) [
    | inl same ↦ let equal : id ≡ other = (text_eq_iff id other).0 same in absurd (cc)
    | inr differs ↦ other-IsHeld s tasks id other es op differs (x.busy other op found run)
  ];
}

changing :
    (s : Service) (tasks : Text → List Event) (id : Text) (es : List Event) (before now : Operation)
    → s.operations id ≡ some before
    → now.stack_name ≡ before.stack_name
    → (now.status ≡ running → (before.status ≡ running) × (ends_first (tasks id) ≡ ends_first es))
    → only_ends es ≡ true
    → IsExclusive s tasks
    → IsExclusive (record s { operations = put s.operations id (some now) }) (put_task tasks id es)
changing s tasks id es before now there stack kept rest x = record {
  ending = still_ends s tasks id es rest x;
  busy = λ other op found run. elim (Bool-cases (text_eq id other)) [
    | inl same ↦
        let found' : some now ≡ some op = rw same at found in
        let equal : now ≡ op = cc in
        let run' : now.status ≡ running = rw equal run in
        let (r, e) = kept run' in
        let (a, b) = x.busy id before there r in
        own-IsHeld s tasks id other es op same (rw (sym equal, stack) a) (sym e ∙ b)
    | inr differs ↦
        other-IsHeld s tasks id other es op differs (x.busy other op (rw differs at found) run)
  ];
}

with_status_stack :
    (status : Status) (code : Option ℤ) (op : Operation)
    → (with_status status code op).stack_name ≡ op.stack_name
with_status_stack running code op = refl
with_status_stack completed code op = refl
with_status_stack failed code op = refl

with_status_running :
    (status : Status) (code : Option ℤ) (op : Operation)
    → is_ended status ≡ true
    → (with_status status code op).status ≢ running
with_status_running running code op e r = absurd (cc)
with_status_running completed code op e r = absurd (cc)
with_status_running failed code op e r = absurd (cc)

pub updating :
    (s : Service) (tasks : Text → List Event) (id : Text) (status : Status) (code : Option ℤ)
    (es : List Event)
    → IsExclusive s tasks
    → tasks id ≡ update status code ∷ es
    → IsExclusive (update_operation_status id status code s) (put_task tasks id es)
unfolding update_operation_status only_ends
updating s tasks id status code es x task =
    let own : is_ended status && only_ends es ≡ true = rw task at (x.ending id) in
    elim (Option-cases (s.operations id)) [
      | inl absent ↦
          rw (absent, update_operation_status) (idle s tasks id es absent (ground arith) x)
      | inr (op, there) ↦
          rw (there, update_operation_status)
            (changing s tasks id es op (with_status status code op) there
              (with_status_stack status code op)
              (λ r. absurd (with_status_running status code op (ground arith) r)) (ground arith) x)
    ]

pub broadcasting :
    (s : Service) (tasks : Text → List Event) (id : Text) (f : Broadcaster → Broadcaster)
    (es : List Event)
    → IsExclusive s tasks
    → ends_first (tasks id) ≡ ends_first es
    → only_ends es ≡ true
    → IsExclusive (with_broadcaster id f s) (put_task tasks id es)
unfolding with_broadcaster
broadcasting s tasks id f es x task rest = elim (Option-cases (s.operations id)) [
  | inl absent ↦ rw (absent, with_broadcaster) (idle s tasks id es absent rest x)
  | inr (op, there) ↦
      rw (there, with_broadcaster)
        (changing s tasks id es op (record op { broadcaster = f op.broadcaster }) there refl
          (λ r. (r, task)) rest x)
]

-- Only the entry of this operation is taken away.
pub unlocked_other :
    (s : Service) (id other stack name : Text)
    → text_eq id other ≡ false
    → s.active_operations name ≡ some other
    → (unlock_stack stack id s).active_operations name ≡ some other
unfolding unlock_stack
unlocked_other s id other stack name differs held = elim (Bool-cases (text_eq stack name)) [
  | inl same ↦
      let equal : stack ≡ name = (text_eq_iff stack name).0 same in
      let current : is_current id (s.active_operations stack) ≡ false =
        rw (equal, held) (ground (arith, text_eq_iff id other, text_eq_iff other id)) in
      rw (unlock_stack, current) held
  | inr apart ↦ elim (Bool-cases (is_current id (s.active_operations stack))) [
    | inl current ↦ rw (unlock_stack, current, apart) held
    | inr stale ↦ rw (unlock_stack, stale) held
  ]
]

pub unlocked_operations :
    (s : Service) (id stack : Text) → (unlock_stack stack id s).operations ≡ s.operations
unfolding unlock_stack
unlocked_operations s id stack = elim (Bool-cases (is_current id (s.active_operations stack))) [
  | inl current ↦ rw (unlock_stack, current) refl
  | inr stale ↦ rw (unlock_stack, stale) refl
]

pub unlocking :
    (s : Service) (tasks : Text → List Event) (id stack : Text) (es : List Event)
    → IsExclusive s tasks
    → tasks id ≡ unlock stack ∷ es
    → IsExclusive (unlock_stack stack id s) (put_task tasks id es)
unfolding ends_first only_ends
unlocking s tasks id stack es x task = record {
  ending = still_ends s tasks id es (rw task at (x.ending id)) x;
  busy = λ other op found run.
      let there : s.operations other ≡ some op = rw (unlocked_operations s id stack) at found in
      let (a, b) = x.busy other op there run in
      elim (Bool-cases (text_eq id other)) [
        | inl same ↦
            let equal : id ≡ other = (text_eq_iff id other).0 same in
            let never : ends_first (tasks id) ≡ true = rw equal b in absurd (cc (rw task at never))
        | inr differs ↦ (unlocked_other s id other stack op.stack_name differs a, rw differs b)
      ];
}
