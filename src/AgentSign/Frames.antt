-- ===== src/AgentSign/Frames.antt =====
-- internal/agentsign/stream.go: numbered and authenticated frames.
pub mod Laws
use berth_agent.Prelude.{
  ℕ, ◌+◌, ◌-◌, ◌*◌, [], ◌∷◌, ◌++◌, Result, ok, err, ◌>>=◌, ◌>>◌, Text, codes, text_eq, ltb,
  if◌then◌else◌, ◌==◌, length,
}
use berth_agent.Prelude.{take, drop, ◌^◌, ◌%◌}
use berth_agent.Encoding.BigEndian.{put_uint, uint}

abbrev pub stream_context : Text
stream_context = codes "berth-stream-v1"

abbrev pub direction_to_agent : Text
direction_to_agent = codes "to-agent"

abbrev pub direction_to_berth : Text
direction_to_berth = codes "to-berth"

abbrev pub direction_body_to_berth : Text
direction_body_to_berth = codes "body-to-berth"

abbrev pub frame_overhead : ℕ
frame_overhead = 40

abbrev pub max_frame_bytes : ℕ
max_frame_bytes = 256 * 1024

-- ErrFrameRejected
pub data FrameError : Type 0 where
  frame_rejected : FrameError

pub record FrameWriter : Type 0 where
  pub key : Text
  pub direction : Text
  pub sequence : ℕ

pub record FrameReader : Type 0 where
  pub key : Text
  pub direction : Text
  pub expected : ℕ

-- NewFrameWriter
pub new_frame_writer : Text → Text → FrameWriter
new_frame_writer key direction = record { key = key; direction = direction; sequence = 0 }

-- NewFrameReader
unfoldable pub new_frame_reader : Text → Text → FrameReader
new_frame_reader key direction = record { key = key; direction = direction; expected = 0 }

-- The tests and slices of `UnwrapTyped` after `Unwrap`.
abbrev split_kind : Text → Result FrameError (ℕ × Text)
split_kind [] = err frame_rejected
split_kind (kind ∷ payload) = ok (kind, payload)

-- `hmac key message` is the HMAC-SHA256 of crypto/hmac.
module _ (hmac : Text → Text → Text) where
  pub expand : Text → Text → Text
  expand shared salt = hmac (hmac salt shared) (stream_context ++ 1 ∷ [])

  pub frame_mac : Text → Text → ℕ → Text → Text
  frame_mac key direction sequence payload =
      hmac key (direction ++ (put_uint 8 sequence ++ payload))

  -- `wrapLocked`, and so `Wrap`. The sequence number is a uint64.
  pub wrap : FrameWriter → Text → FrameWriter × Text
  unfolding frame_mac
  wrap w payload = (
    record w { sequence = (w.sequence + 1) % 2 ^ 64 },
    put_uint 8 w.sequence ++ (frame_mac w.key w.direction w.sequence payload ++ payload),
  )

  -- `WrapTyped`, and what `SendTyped` hands to `deliver`
  pub wrap_typed : FrameWriter → ℕ → Text → FrameWriter × Text
  unfolding wrap
  wrap_typed w kind payload = wrap w (kind ∷ payload)

  pub unwrap : FrameReader → Text → FrameReader × Result FrameError Text
  unfolding frame_mac
  unwrap r frame =
      if ltb (length frame) frame_overhead
      then (r, err frame_rejected)
      else let sequence = uint (take 8 frame) in
        let payload = drop frame_overhead frame in
        if text_eq (take 32 (drop 8 frame)) (frame_mac r.key r.direction sequence payload)
        then (if sequence == r.expected
            then (record r { expected = (r.expected + 1) % 2 ^ 64 }, ok payload)
            else (r, err frame_rejected))
        else (r, err frame_rejected)

  pub unwrap_typed : FrameReader → Text → FrameReader × Result FrameError (ℕ × Text)
  unfolding unwrap
  unwrap_typed r frame = let (r', unwrapped) = unwrap r frame in (r', unwrapped >>= split_kind)
