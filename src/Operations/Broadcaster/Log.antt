-- ===== src/Operations/Broadcaster/Log.antt =====
-- internal/operations/broadcaster.go: what the publishers make of the log.
use berth_agent.Prelude.{
  Bool-cases, ℕ, ◌≡◌, refl, sym, inl, inr, ◌⊎◌, Bool, true, false, List, [], ◌∷◌, ◌++◌, Text, All,
}
use berth_agent.Prelude.{append_assoc, append-nil, All-append}
use berth_agent.Operations.Broadcaster.{
  MessageType, error, Message, Broadcaster, plain_message, complete_message, broadcast,
  append_locked, complete_locked, broadcast_complete, broadcast_error, is_complete,
}
use berth_agent.Prelude.Int.{ℤ, pos}

-- A call of a publisher, or a round of the subscriber.
pub data Step : Type 0 where
  publish : ℕ → MessageType → Text → Step
  finish : ℕ → Bool → ℤ → Step
  fail : ℕ → ℕ → Text → Step
  round : Step

-- The type of a message that `Broadcast` is called with is not `complete`.
unfoldable pub IsCall : Step → Type 0
IsCall (publish now type text) = is_complete type ≡ false
IsCall (finish now success exit_code) = Unit {0}
IsCall (fail now later text) = Unit {0}
IsCall round = Unit {0}

abbrev pub IsPlain : Message → Type 0
IsPlain m = is_complete m.type ≡ false

-- A log with one `complete` message, at its end.
pub record IsFinished (log : List Message) : Type 0 where
  pub front : List Message
  pub last : Message
  pub parts : log ≡ front ++ last ∷ []
  pub plain : All IsPlain front
  pub ending : is_complete last.type ≡ true

-- The log of an operation that has not completed holds no `complete` message, and that of one that
-- has holds one, at its end.
abbrev pub IsSound : Broadcaster → Type 0
IsSound b =
    (b.completed ≡ false) × All IsPlain b.message_log
    ⊎ (b.completed ≡ true) × IsFinished b.message_log

unfoldable pub publishing : Broadcaster → Step → Broadcaster
publishing b (publish now type text) = broadcast b now type text
publishing b (finish now success exit_code) = broadcast_complete b now success exit_code
publishing b (fail now later text) = broadcast_error b now later text
publishing b round = b

finished :
    (b : Broadcaster) (now : ℕ) (success : Bool) (exit_code : ℤ)
    → All IsPlain b.message_log
    → IsFinished (b.message_log ++ complete_message now success exit_code ∷ [])
finished b now success exit_code plain = record {
  front = b.message_log;
  last = complete_message now success exit_code;
  parts = refl;
  plain = plain;
  ending = refl;
}

broadcast-IsSound :
    (b : Broadcaster) (now : ℕ) (type : MessageType) (text : Text)
    → is_complete type ≡ false
    → IsSound b
    → IsSound (broadcast b now type text)
unfolding broadcast append_locked
broadcast-IsSound b now type text h (inl (open_, plain)) =
    rw (broadcast, open_) (inl (refl, All-append IsPlain b.message_log _ plain (h, tt)))
broadcast-IsSound b now type text h (inr (done, f)) = rw (broadcast, done) (inr (refl, f))

broadcast_complete-IsSound :
    (b : Broadcaster) (now : ℕ) (success : Bool) (exit_code : ℤ)
    → IsSound b
    → IsSound (broadcast_complete b now success exit_code)
unfolding broadcast_complete complete_locked append_locked
broadcast_complete-IsSound b now success exit_code (inl (open_, plain)) =
    rw (broadcast_complete, complete_locked, open_)
      (inr (refl, finished b now success exit_code plain))
broadcast_complete-IsSound b now success exit_code (inr (done, f)) =
    rw (broadcast_complete, complete_locked, done) (inr (refl, f))

broadcast_error-IsSound :
    (b : Broadcaster) (now later : ℕ) (text : Text)
    → IsSound b
    → IsSound (broadcast_error b now later text)
unfolding broadcast_error complete_locked append_locked
broadcast_error-IsSound b now later text (inl (open_, plain)) =
    rw (broadcast_error, complete_locked, open_, append_locked)
      (inr (
        refl,
        finished (append_locked b (plain_message now error text)) later false (pos 1)
            (All-append IsPlain b.message_log _ plain (refl, tt)),
      ))
broadcast_error-IsSound b now later text (inr (done, f)) =
    rw (broadcast_error, done) (inr (refl, f))

pub publishing-IsSound :
    (b : Broadcaster) (step : Step) → IsCall step → IsSound b → IsSound (publishing b step)
unfolding publishing IsCall
publishing-IsSound b (publish now type text) h s = broadcast-IsSound b now type text h s
publishing-IsSound b (finish now success exit_code) h s =
    broadcast_complete-IsSound b now success exit_code s
publishing-IsSound b (fail now later text) h s = broadcast_error-IsSound b now later text s
publishing-IsSound b round h s = s

-- A publisher changes nothing once the operation has completed.
pub publishing_completed :
    (b : Broadcaster) (step : Step) → b.completed ≡ true → publishing b step ≡ b
unfolding publishing broadcast broadcast_complete complete_locked broadcast_error
publishing_completed b (publish now type text) h = rw (broadcast, h) refl
publishing_completed b (finish now success exit_code) h =
    rw (broadcast_complete, complete_locked, h) refl
publishing_completed b (fail now later text) h = rw (broadcast_error, h) refl
publishing_completed b round h = refl

pub publishing_grows :
    (b : Broadcaster) (step : Step)
    → b.completed ≡ false
    → (more : List Message) × ((publishing b step).message_log ≡ b.message_log ++ more)
unfolding publishing broadcast broadcast_complete complete_locked broadcast_error append_locked
publishing_grows b (publish now type text) h =
    (plain_message now type text ∷ [], rw (broadcast, h) refl)
publishing_grows b (finish now success exit_code) h =
    (complete_message now success exit_code ∷ [], rw (broadcast_complete, complete_locked, h) refl)
publishing_grows b (fail now later text) h = (
  plain_message now error text ∷ complete_message later false (pos 1) ∷ [],
  rw (broadcast_error, complete_locked, append_locked, h) (append_assoc b.message_log _ _),
)
publishing_grows b round h = ([], sym (append-nil _))

-- Only the end of an operation, or an error, completes its log.
pub completed-broadcast :
    (b : Broadcaster) (now : ℕ) (type : MessageType) (text : Text)
    → (broadcast b now type text).completed ≡ b.completed
unfolding broadcast append_locked
completed-broadcast b now type text = elim (Bool-cases b.completed) [
  | inl over ↦ rw (broadcast, over) refl
  | inr going ↦ rw (broadcast, going) refl
]

pub completed-broadcast_complete :
    (b : Broadcaster) (now : ℕ) (success : Bool) (code : ℤ)
    → (broadcast_complete b now success code).completed ≡ true
unfolding broadcast_complete complete_locked append_locked
completed-broadcast_complete b now success code = elim (Bool-cases b.completed) [
  | inl over ↦ rw (broadcast_complete, over) refl
  | inr going ↦ rw (broadcast_complete, going) refl
]

pub completed-broadcast_error :
    (b : Broadcaster) (now later : ℕ) (text : Text)
    → (broadcast_error b now later text).completed ≡ true
unfolding broadcast_error complete_locked append_locked
completed-broadcast_error b now later text = elim (Bool-cases b.completed) [
  | inl over ↦ rw (broadcast_error, over) refl
  | inr going ↦ rw (broadcast_error, going) refl
]
