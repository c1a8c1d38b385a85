-- ===== src/Operations/Broadcaster.antt =====
-- internal/operations/broadcaster.go: the log of an operation's messages, and its subscribers. Every
-- operation below holds the broadcaster's lock from its first to its last step, and the channel
-- `notify` only says that a subscriber should look again.
pub mod Log
pub mod Delivery
use berth_agent.Prelude.{
  ℕ, ◌+◌, Bool, true, false, Option, none, some, List, [], ◌∷◌, ◌++◌, Text, codes, text_eq,
  if◌then◌else◌, length,
}
use berth_agent.Prelude.{drop}
use berth_agent.Prelude.Int.{ℤ, pos}

-- StreamMessageType
pub data MessageType : Type 0 where
  stdout stderr progress complete error : MessageType

pub record Message : Type 0 where
  pub type : MessageType
  pub text : Text
  pub timestamp : ℕ
  pub success : Option Bool
  pub exit_code : Option ℤ

pub record Broadcaster : Type 0 where
  pub message_log : List Message
  pub completed : Bool

unfoldable pub new_broadcaster : Broadcaster
new_broadcaster = record { message_log = []; completed = false }

-- A message without a result, at the time `now`.
abbrev pub plain_message : ℕ → MessageType → Text → Message
plain_message now type text = record {
  type = type;
  text = text;
  timestamp = now;
  success = none;
  exit_code = none;
}

abbrev pub complete_message : ℕ → Bool → ℤ → Message
complete_message now success exit_code = record {
  type = complete;
  text = [];
  timestamp = now;
  success = some success;
  exit_code = some exit_code;
}

append_locked : Broadcaster → Message → Broadcaster
append_locked b msg = record b { message_log = b.message_log ++ msg ∷ [] }

-- Broadcast
unfoldable pub broadcast : Broadcaster → ℕ → MessageType → Text → Broadcaster
unfolding append_locked
broadcast b now type text = if b.completed then b else append_locked b (plain_message now type text)

complete_locked : Broadcaster → ℕ → Bool → ℤ → Broadcaster
unfolding append_locked
complete_locked b now success exit_code =
    if b.completed
    then b
    else append_locked (record b { completed = true }) (complete_message now success exit_code)

-- BroadcastComplete
unfoldable pub broadcast_complete : Broadcaster → ℕ → Bool → ℤ → Broadcaster
unfolding complete_locked
broadcast_complete b now success exit_code = complete_locked b now success exit_code

-- BroadcastError, whose two messages are stamped one after the other
pub broadcast_error : Broadcaster → ℕ → ℕ → Text → Broadcaster
unfolding append_locked complete_locked
broadcast_error b now later text =
    if b.completed
    then b
    else complete_locked (append_locked b (plain_message now error text)) later false (pos 1)

-- BroadcasterProgressWriter.WriteMessage, which goes by the name of the type
pub write_message : Broadcaster → ℕ → ℕ → Text → Text → Broadcaster
unfolding broadcast broadcast_error
write_message b now later message_type text =
    if text_eq message_type (codes "stdout")
    then broadcast b now stdout text
    else if text_eq message_type (codes "stderr")
    then broadcast b now stderr text
    else if text_eq message_type (codes "progress")
    then broadcast b now progress text
    else if text_eq message_type (codes "error")
    then broadcast_error b now later text
    else broadcast b now progress text

abbrev pub is_complete : MessageType → Bool
is_complete complete = true
is_complete _ = false

-- The variables of `StreamTo`, with the messages whose frames were written, and whether it returned.
pub record Subscriber : Type 0 where
  pub cursor : ℕ
  pub delivered : List Message
  pub returned : Bool

pub new_subscriber : Subscriber
new_subscriber = record { cursor = 0; delivered = []; returned = false }

-- `accepts n` says whether `writeFrame` succeeds on the n-th message.
module _ (accepts : ℕ → Bool) where
  -- The loop over a batch.
  deliver : Subscriber → List Message → Subscriber
  deliver s [] = s
  deliver s (msg ∷ batch) =
      let s' = record s { delivered = s.delivered ++ msg ∷ [] } in
      let rest = deliver s' batch in
      if accepts (length s.delivered)
      then (if is_complete msg.type then record s' { returned = true } else rest)
      else record s { returned = true }

  -- One round of `StreamTo`, up to the wait for the next message; a subscriber whose context is done
  -- has no further round.
  pub poll : Subscriber → Broadcaster → Subscriber
  unfolding deliver
  poll s b =
      if s.returned
      then s
      else let s' =
          deliver (record s { cursor = length b.message_log }) (drop s.cursor b.message_log) in
        if b.completed then record s' { returned = true } else s'
