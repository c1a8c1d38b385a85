-- ===== src/WebSocketHub.antt =====
-- internal/websocket/hub.go: the hub's clients and their channels. A client is a number; `Run` takes
-- one request after the other, and a request is one step.
pub mod Channels
mod Tests
use berth_agent.Prelude.{
  ℕ, ◌+◌, Bool, true, false, List, [], ◌∷◌, ◌++◌, Text, ltb, if◌then◌else◌, ◌==◌, length,
}
use berth_agent.Prelude.{drop}

-- The capacity of `send`.
abbrev pub send_capacity : ℕ
send_capacity = 256

-- `clients` says which clients are in the map, `queue` what is in a client's `send` channel, and
-- `closed` whether that is closed. `next` is the first number that no client has. A send on a closed
-- channel, and a second close, panic.
pub record Hub : Type 0 where
  pub next : ℕ
  pub clients : ℕ → Bool
  pub queue : ℕ → List Text
  pub closed : ℕ → Bool
  pub panicked : Bool

-- NewHub
pub new_hub : Hub
new_hub = record {
  next = 0;
  clients = λ c. false;
  queue = λ c. [];
  closed = λ c. false;
  panicked = false;
}

pub update {ℓ} : {A : Type ℓ} → (ℕ → A) → ℕ → A → ℕ → A
update f c a d = if d == c then a else f d

-- close(client.send)
close_channel : Hub → ℕ → Hub
unfolding update
close_channel h c =
    if h.closed c
    then record h { panicked = true }
    else record h { closed = update h.closed c true }

-- delete(h.clients, client); close(client.send)
removed : Hub → ℕ → Hub
unfolding close_channel update
removed h c = close_channel (record h { clients = update h.clients c false }) c

-- `ServeWebSocket` makes a client, and the hub registers it.
pub connect : Hub → Hub
unfolding update
connect h = record h { next = h.next + 1; clients = update h.clients h.next true }

-- The case of `h.unregister`.
pub unregister : Hub → ℕ → Hub
unfolding removed
unregister h c = if h.clients c then removed h c else h

-- The `select` in the loop over the clients.
offer : Hub → Text → ℕ → Hub
unfolding update
offer h message c =
    if h.closed c
    then record h { panicked = true }
    else if ltb (length (h.queue c)) send_capacity
    then record h { queue = update h.queue c (h.queue c ++ message ∷ []) }
    else removed h c

-- The case of `h.broadcast`, with the clients in the order of the range loop, which passes over those
-- that are not in the map.
pub broadcast : Hub → Text → List ℕ → Hub
unfolding offer
broadcast h message [] = h
broadcast h message (c ∷ order) =
    broadcast (if h.clients c then offer h message c else h) message order

-- `writePump` receives a message.
pub receive : Hub → ℕ → Hub
unfolding update
receive h c = record h { queue = update h.queue c (drop 1 (h.queue c)) }
