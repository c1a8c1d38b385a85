-- ===== src/Operations/Broadcaster/Delivery.antt =====
-- internal/operations/broadcaster.go: what a subscriber that joins at any moment is sent of the log.
use berth_agent.Prelude.{
  ℕ, ◌≡◌, refl, ap, sym, ◌∙◌, inl, inr, ◌⊎◌, Bool, true, false, List, [], ◌∷◌, ◌++◌, arith,
  Bool-cases, All, length,
}
use berth_agent.Prelude.{subst, append_assoc, append-nil, drop, drop-append}
use berth_agent.Operations.Broadcaster.{
  Message, Broadcaster, new_broadcaster, is_complete, Subscriber, new_subscriber, deliver, poll,
}
use berth_agent.Operations.Broadcaster.Log.{
  Step, publish, finish, fail, round, IsCall, IsPlain, IsFinished, IsSound, publishing,
  publishing-IsSound, publishing_completed, publishing_grows,
}

-- What may be left to send: nothing follows a `complete` message.
Closes : List Message → Type 0
Closes [] = Unit {0}
Closes (m ∷ rest) = (is_complete m.type ≡ true → rest ≡ []) × Closes rest

Closes-append_last :
    (log : List Message) (last : Message) → All IsPlain log → Closes (log ++ last ∷ [])
unfolding Closes
Closes-append_last [] last h = (λ e. refl, tt)
Closes-append_last (m ∷ log) last h = (λ e. cc (e, h.0), Closes-append_last log last h.1)

Closes-All : (log : List Message) → All IsPlain log → Closes log
unfolding Closes
Closes-All [] h = tt
Closes-All (m ∷ log) h = (λ e. cc (e, h.0), Closes-All log h.1)

Closes-append : (front rest : List Message) → Closes (front ++ rest) → Closes rest
unfolding Closes
Closes-append [] rest h = h
Closes-append (m ∷ front) rest h = Closes-append front rest h.1

All-append_right : (front rest : List Message) → All IsPlain (front ++ rest) → All IsPlain rest
All-append_right [] rest h = h
All-append_right (m ∷ front) rest h = All-append_right front rest h.1

-- A subscriber has sent a part of the log, up to its cursor; one that returned has sent all of it.
InStep : Broadcaster × Subscriber → Type 0
InStep (b, s) =
    (s.returned ≡ false)
      × (s.cursor ≡ length s.delivered)
      × ((rest : List Message) × (b.message_log ≡ s.delivered ++ rest))
    ⊎ (s.returned ≡ true) × (b.completed ≡ true) × (s.delivered ≡ b.message_log)

IsSound-Closes : (b : Broadcaster) → IsSound b → Closes b.message_log
IsSound-Closes b (inl (h, plain)) = Closes-All b.message_log plain
IsSound-Closes b (inr (h, f)) = rw (f.parts) (Closes-append_last f.front f.last f.plain)

publishing-InStep :
    (b : Broadcaster) (s : Subscriber) (step : Step) → InStep (b, s) → InStep (publishing b step, s)
unfolding InStep
publishing-InStep b s step (inr (r, d, e)) = rw (publishing_completed b step d) (inr (r, d, e))
publishing-InStep b s step (inl (r, c, (rest, e))) = elim (Bool-cases b.completed) [
  | inl h ↦ rw (publishing_completed b step h) (inl (r, c, (rest, e)))
  | inr h ↦
      let (more, g) = publishing_grows b step h in
      inl (r, c, (rest ++ more, g ∙ ap (λ l. l ++ more) e ∙ append_assoc s.delivered rest more))
]

-- The publishers and one subscriber, in any interleaving.
module _ (accepts : ℕ → Bool) where
  pub advance : Broadcaster × Subscriber → Step → Broadcaster × Subscriber
  unfolding poll
  advance (b, s) round = (b, poll accepts s b)
  advance (b, s) step = (publishing b step, s)

  unfoldable pub advance_all : Broadcaster × Subscriber → List Step → Broadcaster × Subscriber
  unfolding advance
  advance_all system [] = system
  advance_all system (step ∷ steps) = advance_all (advance system step) steps

module _ (accepts : ℕ → Bool) (writes : (n : ℕ) → accepts n ≡ true) where
  delivered-deliver :
      (s : Subscriber) (batch : List Message)
      → Closes batch
      → (deliver accepts s batch).delivered ≡ s.delivered ++ batch
  unfolding deliver Closes
  delivered-deliver s [] h = sym (append-nil s.delivered)
  delivered-deliver s (m ∷ batch) h = elim (Bool-cases (is_complete m.type)) [
    | inl e ↦ rw (deliver, writes (length s.delivered), e, h.0 e) refl
    | inr e ↦
        rw (deliver, writes (length s.delivered), e)
          (delivered-deliver (record s { delivered = s.delivered ++ m ∷ [] }) batch h.1
            ∙ append_assoc s.delivered (m ∷ []) batch)
  ]

  returned-deliver :
      (s : Subscriber) (batch : List Message)
      → All IsPlain batch
      → (deliver accepts s batch).returned ≡ s.returned
  unfolding deliver
  returned-deliver s [] h = refl
  returned-deliver s (m ∷ batch) h =
      rw (deliver, writes (length s.delivered), h.0)
        (returned-deliver (record s { delivered = s.delivered ++ m ∷ [] }) batch h.1)

  cursor-deliver :
      (s : Subscriber) (batch : List Message) → (deliver accepts s batch).cursor ≡ s.cursor
  unfolding deliver
  cursor-deliver s [] = refl
  cursor-deliver s (m ∷ batch) =
      ground (arith, cursor-deliver (record s { delivered = s.delivered ++ m ∷ [] }) batch)

  poll-InStep :
      (b : Broadcaster) (s : Subscriber) → IsSound b → InStep (b, s) → InStep (b, poll accepts s b)
  unfolding InStep poll
  poll-InStep b s sound (inr (r, d, e)) = rw (poll, r) (inr (refl, d, e))
  poll-InStep b s sound (inl (r, c, (rest, e))) = elim sound [
    | inl (open_, plain) ↦
        rw (poll, r, open_, left) (inl (still plain, at, ([], sym sent ∙ sym (append-nil _))))
    | inr (done, f) ↦ rw (poll, r, done, left) (inr (refl, refl, sent))
  ]
    where
      left : drop s.cursor b.message_log ≡ rest
      left = rw (c, e) (drop-append s.delivered rest)

      s1 : Subscriber
      s1 = record { cursor = length b.message_log; delivered = s.delivered; returned = false }

      sent : (deliver accepts s1 rest).delivered ≡ b.message_log
      sent =
          delivered-deliver s1 rest
            (Closes-append s.delivered rest (subst Closes e (IsSound-Closes b sound)))
          ∙ sym e

      still : All IsPlain b.message_log → (deliver accepts s1 rest).returned ≡ false
      still plain =
          returned-deliver s1 rest
            (All-append_right s.delivered rest (subst (λ l. All IsPlain l) e plain))

      at : (deliver accepts s1 rest).cursor ≡ length (deliver accepts s1 rest).delivered
      at = cursor-deliver s1 rest ∙ ap length (sym sent)

  advance_all-keeps :
      (b : Broadcaster) (s : Subscriber) (steps : List Step)
      → All IsCall steps
      → IsSound b
      → InStep (b, s)
      → IsSound (advance_all accepts (b, s) steps).0 × InStep (advance_all accepts (b, s) steps)
  unfolding advance_all advance
  advance_all-keeps b s [] h sound in_step = (sound, in_step)
  advance_all-keeps b s (publish now type text ∷ steps) h sound in_step =
      advance_all-keeps (publishing b (publish now type text)) s steps h.1
        (publishing-IsSound b (publish now type text) h.0 sound)
        (publishing-InStep b s (publish now type text) in_step)
  advance_all-keeps b s (finish now success exit_code ∷ steps) h sound in_step =
      advance_all-keeps (publishing b (finish now success exit_code)) s steps h.1
        (publishing-IsSound b (finish now success exit_code) h.0 sound)
        (publishing-InStep b s (finish now success exit_code) in_step)
  advance_all-keeps b s (fail now later text ∷ steps) h sound in_step =
      advance_all-keeps (publishing b (fail now later text)) s steps h.1
        (publishing-IsSound b (fail now later text) h.0 sound)
        (publishing-InStep b s (fail now later text) in_step)
  advance_all-keeps b s (round ∷ steps) h sound in_step =
      advance_all-keeps b (poll accepts s b) steps h.1 sound (poll-InStep b s sound in_step)

  starts : IsSound new_broadcaster × InStep (new_broadcaster, new_subscriber)
  unfolding new_broadcaster new_subscriber InStep
  starts = (inl (refl, tt), inl (refl, refl, ([], refl)))

  returned-poll :
      (b : Broadcaster) (s : Subscriber) → b.completed ≡ true → (poll accepts s b).returned ≡ true
  unfolding poll
  returned-poll b s done = elim (Bool-cases s.returned) [
    | inl e ↦ rw (poll, e) refl
    | inr e ↦ rw (poll, e, done) refl
  ]

  caught_up :
      (b : Broadcaster) (s : Subscriber)
      → (s.returned ≡ true)
      → InStep (b, s)
      → s.delivered ≡ b.message_log
  unfolding InStep
  caught_up b s back (inl (e, c, d)) = cc (e, back)
  caught_up b s back (inr (e, c, d)) = d

  -- Whatever calls the publishers make and whenever the subscriber looks at the log, if all its
  -- writes succeed and no caller broadcasts a `complete` message itself, then once the operation has
  -- completed one more round has sent the subscriber the log, each message once and in order, and
  -- returns; and that log holds one `complete` message, at its end.
  pub advance_all-delivers :
      (steps : List Step)
      → All IsCall steps
      → (advance_all accepts (new_broadcaster, new_subscriber) steps).0.completed ≡ true
      → let system = advance_all accepts (new_broadcaster, new_subscriber) steps in
        let s = poll accepts system.1 system.0 in
        (s.delivered ≡ system.0.message_log) × (s.returned ≡ true) × IsFinished system.0.message_log
  advance_all-delivers steps h done =
      let (sound, in_step) =
        advance_all-keeps new_broadcaster new_subscriber steps h starts.0 starts.1 in
      let (b, s) = advance_all accepts (new_broadcaster, new_subscriber) steps in
      let back = returned-poll b s done in
      (caught_up b (poll accepts s b) back (poll-InStep b s sound in_step), back, closed sound)
    where
      closed :
          IsSound (advance_all accepts (new_broadcaster, new_subscriber) steps).0
          → IsFinished (advance_all accepts (new_broadcaster, new_subscriber) steps).0.message_log
      closed (inl (e, plain)) = cc (e, done)
      closed (inr (e, f)) = f
