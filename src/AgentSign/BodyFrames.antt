-- ===== src/AgentSign/BodyFrames.antt =====
-- internal/agentsign/stream.go: a response body as a sequence of frames.
pub mod Sending
pub mod RoundTrip
pub mod Reading
use berth_agent.Prelude.{
  ℕ, zero, suc, ◌+◌, Bool, true, false, Option, none, some, [], ◌∷◌, ◌++◌, Text, ltb, if◌then◌else◌,
  ◌==◌, length,
}
use berth_agent.Prelude.{take, drop}
use berth_agent.Encoding.BigEndian.{put_uint}
use berth_agent.AgentSign.Frames.{
  FrameWriter, new_frame_writer, wrap_typed, direction_body_to_berth, max_frame_bytes,
}

abbrev pub body_chunk : ℕ
body_chunk = 1

abbrev pub body_end : ℕ
body_end = 2

-- The io.Writer below: what it has taken, and how often it was called.
pub record Sink : Type 0 where
  pub written : Text
  pub calls : ℕ

pub record BodyWriter : Type 0 where
  pub sink : Sink
  pub frames : FrameWriter

-- NewBodyWriter
pub new_body_writer : Sink → Text → BodyWriter
new_body_writer sink key = record {
  sink = sink;
  frames = new_frame_writer key direction_body_to_berth;
}

-- `accepts n` says whether the n-th call of the writer below succeeds.
module _ (accepts : ℕ → Bool) where
  pub sink_write : Sink → Text → Sink × Bool
  sink_write s bytes =
      if accepts s.calls
      then (record { written = s.written ++ bytes; calls = s.calls + 1 }, true)
      else (record s { calls = s.calls + 1 }, false)

  module _ (hmac : Text → Text → Text) where
    -- The length of the frame goes first, cut to a uint32. The answer is whether there was no error.
    pub emit : BodyWriter → ℕ → Text → BodyWriter × Bool
    unfolding sink_write
    emit w kind payload =
        let (frames', frame) = wrap_typed hmac w.frames kind payload in
        let (after_length, sent) = sink_write w.sink (put_uint 4 (length frame)) in
        if sent
        then (let (after_frame, complete) = sink_write after_length frame in
            (record { sink = after_frame; frames = frames' }, complete))
        else (record { sink = after_length; frames = frames' }, false)

    -- The loop of `Write`, with fuel for each round; `rest` is payload[written:]. The answer is the
    -- writer, `written` and whether there was no error.
    write_chunks : ℕ → BodyWriter → Text → ℕ → Option (BodyWriter × ℕ × Bool)
    unfolding emit
    write_chunks zero w rest written = none
    write_chunks (suc fuel) w rest written =
        let chunk = if ltb max_frame_bytes (length rest) then take max_frame_bytes rest else rest in
        let (w', sent) = emit w body_chunk chunk in
        let later = write_chunks fuel w' (drop (length chunk) rest) (written + length chunk) in
        if sent
        then (if length rest == length chunk
            then some (w', written + length chunk, true)
            else later)
        else some (w', written, false)

    -- Write
    pub write : BodyWriter → Text → Option (BodyWriter × ℕ × Bool)
    unfolding write_chunks
    write w [] = some (w, 0, true)
    write w (b ∷ payload) = write_chunks (length (b ∷ payload)) w (b ∷ payload) 0

    -- Close
    pub close : BodyWriter → BodyWriter × Bool
    unfolding emit
    close w = emit w body_end []
