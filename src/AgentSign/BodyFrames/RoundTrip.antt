-- ===== src/AgentSign/BodyFrames/RoundTrip.antt =====
-- internal/agentsign/stream.go: a body that `Write` and `Close` sent is the body that is read.
use berth_agent.Prelude.{
  ℕ, suc, ◌+◌, ◌≡◌, ap, ◌∙◌, Bool, true, Option, none, some, List, [], ◌∷◌, ◌++◌, arith, Text,
  if◌then◌else◌, length,
}
use berth_agent.Prelude.{append_assoc, append-nil}
use berth_agent.AgentSign.Frames.{
  FrameReader, wrap_typed, new_frame_reader, direction_body_to_berth,
}
use berth_agent.AgentSign.Frames.Laws.{new-InSync, InSync}
use berth_agent.AgentSign.BodyFrames.{BodyWriter, Sink, new_body_writer, write, close, body_end}
use berth_agent.AgentSign.BodyFrames.Reading.{read_frames, prepend, on_wire, read_frame-on_wire}
use berth_agent.AgentSign.BodyFrames.Sending.{Sent, emit_lem, write-Sent}

-- A handler's writes, in order, and the close at the end; `none` if one of them fails.
module _ (accepts : ℕ → Bool) (hmac : Text → Text → Text) where
  pub send_all : BodyWriter → List Text → Option BodyWriter
  send_all w [] = let (w', closed) = close accepts hmac w in if closed then some w' else none
  send_all w (payload ∷ rest) = elim (write accepts hmac w payload) [
    | none ↦ none
    | some (w', _, sent) ↦ let later = send_all w' rest in if sent then later else none
  ]

abbrev pub joined : List Text → Text
joined [] = []
joined (payload ∷ rest) = payload ++ joined rest

module _ (hmac : Text → Text → Text) (length-hmac : (k m : Text) → length (hmac k m) ≡ 32)
    (accepts : ℕ → Bool) (all_accepted : (n : ℕ) → accepts n ≡ true) where
  -- What a body sent so far, with the end frame behind it, reads as.
  record ReadsToEnd (w w' : BodyWriter) (body : Text) : Type 0 where
    bytes : Text
    count : ℕ
    appended : w'.sink.written ≡ w.sink.written ++ bytes
    at :
        (r : FrameReader)
        → InSync w.frames r
        → (fuel : ℕ) → read_frames hmac (count + fuel) r bytes ≡ some body

  close-ReadsToEnd :
      (w : BodyWriter)
      → ((close accepts hmac w).1 ≡ true) × ReadsToEnd w (close accepts hmac w).0 []
  unfolding close
  close-ReadsToEnd w =
      let (sent, appended, frames) = emit_lem hmac length-hmac accepts all_accepted w body_end [] in
      let frame = (wrap_typed hmac w.frames body_end []).1 in
      (
        sent,
        record {
          bytes = on_wire frame;
          count = 1;
          appended = appended;
          at = λ r sync fuel.
              let (r', _, read) =
                read_frame-on_wire hmac length-hmac w.frames r body_end [] sync (omega arith) in
              let one : 1 + fuel ≡ suc fuel = omega arith in
              let bare : on_wire frame ++ [] ≡ on_wire frame = append-nil _ in
              rw (← bare) (rw one (unfold read_frames in rw (read [], read_frames)));
        },
      )

  Sent-ReadsToEnd :
      {u v w : BodyWriter} {a b : Text}
      → Sent hmac u v a
      → ReadsToEnd v w b
      → ReadsToEnd u w (a ++ b)
  Sent-ReadsToEnd {u = u} {a = a} p q = record {
    bytes = p.bytes ++ q.bytes;
    count = p.count + q.count;
    appended =
        q.appended
        ∙ ap (λ t. t ++ q.bytes) p.appended
        ∙ append_assoc u.sink.written p.bytes q.bytes;
    at = λ r sync fuel.
        let (r', sync', first) = p.reads.at r sync in
        let regroup : p.count + q.count + fuel ≡ p.count + (q.count + fuel) = omega arith in
        rw regroup (first (q.count + fuel) q.bytes ∙ ap (prepend a) (q.at r' sync' fuel));
  }

  send_all-ReadsToEnd :
      (w : BodyWriter) (payloads : List Text)
      → (w' : BodyWriter) × (send_all accepts hmac w payloads ≡ some w')
        × ReadsToEnd w w' (joined payloads)
  unfolding send_all
  send_all-ReadsToEnd w [] = let (closed, read) = close-ReadsToEnd w in (_, rw closed, read)
  send_all-ReadsToEnd w (payload ∷ rest) =
      let (w', ended, sent) = write-Sent hmac length-hmac accepts all_accepted w payload in
      let (w'', later, read) = send_all-ReadsToEnd w' rest in
      (w'', rw (ended, send_all) later, Sent-ReadsToEnd sent read)

abbrev pub empty_sink : Sink
empty_sink = record { written = []; calls = 0 }

-- A body sent in any pieces and closed is read back whole: if no call of the writer below fails,
-- every `Write` and the `Close` succeed, and a reader with the same key that is given the bytes sent,
-- and fuel for at least the frames, reads exactly the pieces joined. The function in place of the HMAC
-- has results of 32 bytes.
pub read_frames-send_all :
    (hmac : Text → Text → Text)
    → ((k m : Text) → length (hmac k m) ≡ 32)
    → (accepts : ℕ → Bool) → ((n : ℕ) → accepts n ≡ true)
    → (key : Text) (payloads : List Text)
    → (w : BodyWriter) × (frames : ℕ) × (send_all accepts hmac
          (new_body_writer empty_sink key)
          payloads
        ≡ some w)
      × ((fuel : ℕ)
          → read_frames hmac
              (frames + fuel)
              (new_frame_reader key direction_body_to_berth)
              w.sink.written
            ≡ some (joined payloads))
unfolding new_body_writer
read_frames-send_all hmac len accepts all_accepted key payloads =
    let (w, sent, read) =
      send_all-ReadsToEnd hmac len accepts all_accepted (new_body_writer empty_sink key) payloads in
    (
      w,
      read.count,
      sent,
      λ fuel. rw read.appended (
          read.at (new_frame_reader key direction_body_to_berth)
            (new-InSync key direction_body_to_berth) fuel),
    )
