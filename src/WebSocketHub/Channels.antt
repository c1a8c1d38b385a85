-- ===== src/WebSocketHub/Channels.antt =====
-- internal/websocket/hub.go: the channels of clients that come and go.
use berth_agent.Prelude.{
  length-append, ◌++◌, refl, inr, length-drop, inl, ◌==◌, Bool-cases, ℕ, ◌≤◌, ◌<◌, ◌≡◌, true, false,
  not, ◌&&◌, List, [], ◌∷◌, arith, Text, ltb, length,
}
use berth_agent.Prelude.{==_iff}
use berth_agent.WebSocketHub.{
  new_hub, offer, Hub, update, send_capacity, close_channel, removed, connect, unregister,
  broadcast, receive,
}

-- A request to the hub, or a receive of a client's writer.
pub data Request : Type 0 where
  connecting : Request
  leaving : ℕ → Request
  sending : Text → List ℕ → Request
  receiving : ℕ → Request

pub serve : Hub → Request → Hub
serve h connecting = connect h
serve h (leaving c) = unregister h c
serve h (sending message order) = broadcast h message order
serve h (receiving c) = receive h c

pub serve_all : Hub → List Request → Hub
unfolding serve
serve_all h [] = h
serve_all h (request ∷ requests) = serve_all (serve h request) requests

-- The channel of a client is open exactly as long as the client is in the map, and holds at most its
-- capacity; nothing has panicked.
pub record IsSound (h : Hub) : Type 0 where
  pub calm : h.panicked ≡ false
  pub known : (c : ℕ) → h.clients c ≡ true → c < h.next
  pub open_while_known : (c : ℕ) → h.closed c ≡ (ltb c h.next && not (h.clients c))
  pub bounded : (c : ℕ) → length (h.queue c) ≤ send_capacity

removed-IsSound : (h : Hub) (c : ℕ) → h.clients c ≡ true → IsSound h → IsSound (removed h c)
unfolding removed close_channel update
removed-IsSound h c e s =
    let before = s.known c e in
    let was_open : h.closed c ≡ false = ground (arith, s.open_while_known c) in
    rw (removed, close_channel, was_open)
      (record {
        calm = s.calm;
        known = λ d. ground (arith, s.known d, ==_iff d c);
        open_while_known = λ d. ground (arith, s.open_while_known d, ==_iff d c);
        bounded = s.bounded;
      })

connect-IsSound : (h : Hub) → IsSound h → IsSound (connect h)
unfolding connect update
connect-IsSound h s = record {
  calm = s.calm;
  known = λ d. ground (arith, s.known d, ==_iff d h.next);
  open_while_known = λ d. ground (arith, s.open_while_known d, s.known d, ==_iff d h.next);
  bounded = s.bounded;
}

unregister-IsSound : (h : Hub) (c : ℕ) → IsSound h → IsSound (unregister h c)
unfolding unregister
unregister-IsSound h c s = elim (Bool-cases (h.clients c)) [
  | inl e ↦ simp (unregister, e) (removed-IsSound h c e s)
  | inr e ↦ simp (unregister, e) s
]

offer-IsSound :
    (h : Hub) (message : Text) (c : ℕ)
    → h.clients c ≡ true
    → IsSound h
    → IsSound (offer h message c)
unfolding offer update
offer-IsSound h message c e s =
    let before = s.known c e in
    let was_open : h.closed c ≡ false = ground (arith, s.open_while_known c) in
    elim (Bool-cases (ltb (length (h.queue c)) send_capacity)) [
      | inl room ↦
          let longer = length-append (h.queue c) (message ∷ []) in
          let fits : length (h.queue c ++ message ∷ []) ≤ send_capacity = ground arith in
          rw (offer, was_open, room)
            (record {
              calm = s.calm;
              known = s.known;
              open_while_known = s.open_while_known;
              bounded = λ d. queue_bound d fits;
            })
      | inr full ↦ simp (offer, was_open, full) (removed-IsSound h c e s)
    ]
  where
    queue_bound :
        (d : ℕ)
        → length (h.queue c ++ message ∷ []) ≤ send_capacity
        → length (update h.queue c (h.queue c ++ message ∷ []) d) ≤ send_capacity
    queue_bound d fits = elim (Bool-cases (d == c)) [
      | inl same ↦ rw (update, same) fits
      | inr other ↦ rw (update, other) (s.bounded d)
    ]

broadcast-IsSound :
    (h : Hub) (message : Text) (order : List ℕ) → IsSound h → IsSound (broadcast h message order)
unfolding broadcast
broadcast-IsSound h message [] s = s
broadcast-IsSound h message (c ∷ order) s = elim (Bool-cases (h.clients c)) [
  | inl e ↦
      simp (broadcast, e)
        (broadcast-IsSound (offer h message c) message order (offer-IsSound h message c e s))
  | inr e ↦ simp (broadcast, e) (broadcast-IsSound h message order s)
]

receive-IsSound : (h : Hub) (c : ℕ) → IsSound h → IsSound (receive h c)
unfolding receive update
receive-IsSound h c s = record {
  calm = s.calm;
  known = s.known;
  open_while_known = s.open_while_known;
  bounded = λ d. elim (Bool-cases (d == c)) [
    | inl same ↦ rw (update, same) (omega (arith, length-drop 1 (h.queue c), s.bounded c))
    | inr other ↦ rw (update, other) (s.bounded d)
  ];
}

serve-IsSound : (h : Hub) (request : Request) → IsSound h → IsSound (serve h request)
unfolding serve
serve-IsSound h connecting s = connect-IsSound h s
serve-IsSound h (leaving c) s = unregister-IsSound h c s
serve-IsSound h (sending message order) s = broadcast-IsSound h message order s
serve-IsSound h (receiving c) s = receive-IsSound h c s

all-IsSound : (h : Hub) (requests : List Request) → IsSound h → IsSound (serve_all h requests)
unfolding serve_all
all-IsSound h [] s = s
all-IsSound h (request ∷ requests) s =
    all-IsSound (serve h request) requests (serve-IsSound h request s)

new_hub-IsSound : IsSound new_hub
unfolding new_hub
new_hub-IsSound = record {
  calm = refl;
  known = λ c e. absurd (cc);
  open_while_known = λ c. ground arith;
  bounded = λ c. omega arith;
}

-- Whatever clients connect, leave (also more than once) and receive, and whatever is broadcast in
-- whatever order of the clients: the hub never sends on a closed channel and closes none twice, a
-- client's channel is open exactly as long as the client is in the map, and no channel holds more
-- than its capacity.
pub serve_all-IsSound : (requests : List Request) → IsSound (serve_all new_hub requests)
serve_all-IsSound requests = all-IsSound new_hub requests new_hub-IsSound
