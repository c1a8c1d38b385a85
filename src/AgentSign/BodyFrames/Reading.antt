-- ===== src/AgentSign/BodyFrames/Reading.antt =====
-- A reader of a framed body, written from the format alone: the length of a frame as a uint32, the
-- frame, and in it a kind byte, which says that a chunk or nothing more follows. The program has only
-- the writing side (internal/agentsign/stream.go).
use berth_agent.Prelude.{
  ℕ, zero, suc, ◌+◌, ◌<◌, ◌≡◌, false, ◌||◌, Option, none, some, [], ◌++◌, arith, Result, ok, err,
  Text, ltb, if◌then◌else◌, ◌==◌, length,
}
use berth_agent.Prelude.{
  take, drop, take-append, drop-append, length-append, append_assoc, le→ltb, ◌^◌,
}
use berth_agent.Encoding.BigEndian.{uint, put_uint, uint-put_uint, length-put_uint}
use berth_agent.AgentSign.Frames.{FrameWriter, FrameReader, FrameError, wrap_typed, unwrap_typed}
use berth_agent.AgentSign.Frames.Laws.{
  InSync, length-wrap_typed, unwrap_typed-wrap_typed, take_of_length, drop_of_length,
}
use berth_agent.AgentSign.BodyFrames.{body_chunk, body_end}

-- What was received, with the bytes behind it.
abbrev pub received :
    Text → FrameReader × Result FrameError (ℕ × Text) → Option (FrameReader × ℕ × Text × Text)
received rest (r, ok (kind, payload)) = some (r, kind, payload, rest)
received rest (r, err e) = none

abbrev pub prepend : Text → Option Text → Option Text
prepend s none = none
prepend s (some t) = some (s ++ t)

module _ (hmac : Text → Text → Text) where
  pub read_frame : FrameReader → Text → Option (FrameReader × ℕ × Text × Text)
  read_frame r s =
      let n = uint (take 4 s) in
      let behind = drop 4 s in
      if ltb (length s) 4 || ltb (length behind) n
      then none
      else received (drop n behind) (unwrap_typed hmac r (take n behind))

  unfoldable pub read_frames : ℕ → FrameReader → Text → Option Text
  read_frames zero r s = none
  read_frames (suc fuel) r s = elim (read_frame r s) [
    | none ↦ none
    | some (r', kind, payload, rest) ↦
        let later = read_frames fuel r' rest in
        if kind == body_chunk
        then prepend payload later
        else if kind == body_end
        then some []
        else none
  ]

-- The bytes of one frame on the wire.
abbrev pub on_wire : Text → Text
on_wire frame = put_uint 4 (length frame) ++ frame

module _ (hmac : Text → Text → Text) (length-hmac : (k m : Text) → length (hmac k m) ≡ 32) where
  -- One frame, when its length prefix stands for its length and the frame opens.
  read_frame_of_parts :
      (r r' : FrameReader) (kind : ℕ) (payload frame rest : Text)
      → uint (put_uint 4 (length frame)) ≡ length frame
      → unwrap_typed hmac r frame ≡ (r', ok (kind, payload))
      → read_frame hmac r (on_wire frame ++ rest) ≡ some (r', kind, payload, rest)
  unfolding read_frame
  read_frame_of_parts r r' kind payload frame rest head delivered =
      let first : take 4 (on_wire frame ++ rest) ≡ put_uint 4 (length frame) =
        rw append_assoc
          (take_of_length 4 (put_uint 4 (length frame)) (frame ++ rest) (length-put_uint 4 _)) in
      let behind : drop 4 (on_wire frame ++ rest) ≡ frame ++ rest =
        rw append_assoc
          (drop_of_length 4 (put_uint 4 (length frame)) (frame ++ rest) (length-put_uint 4 _)) in
      let long : ltb (length (on_wire frame ++ rest)) 4 ≡ false = le→ltb _ _ (
        omega (
          arith,
          length-append (on_wire frame) rest,
          length-append (put_uint 4 (length frame)) frame,
          length-put_uint 4 (length frame),
        )) in
      let enough : ltb (length (frame ++ rest)) (length frame) ≡ false =
        le→ltb _ _ (omega (arith, length-append frame rest)) in
      rw (
        first,
        behind,
        head,
        long,
        enough,
        take-append frame rest,
        drop-append frame rest,
        delivered,
      )

  pub read_frame-on_wire :
      (w : FrameWriter) (r : FrameReader) (kind : ℕ) (payload : Text)
      → InSync w r
      → 41 + length payload < 2 ^ 32
      → (r' : FrameReader) × InSync (wrap_typed hmac w kind payload).0 r'
        × ((rest : Text)
            → read_frame hmac r (on_wire (wrap_typed hmac w kind payload).1 ++ rest)
              ≡ some (r', kind, payload, rest))
  read_frame-on_wire w r kind payload s fits =
      let (_, frame) = wrap_typed hmac w kind payload in
      let (r', next, delivered) = unwrap_typed-wrap_typed hmac length-hmac w r kind payload s in
      let len = length-wrap_typed hmac length-hmac w kind payload in
      let head : uint (put_uint 4 (length frame)) ≡ length frame =
        uint-put_uint 4 (length frame) (omega arith) in
      (r', next, λ rest. read_frame_of_parts r r' kind payload frame rest head delivered)
