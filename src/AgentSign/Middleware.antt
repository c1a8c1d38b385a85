-- ===== src/AgentSign/Middleware.antt =====
-- internal/agentsign/middleware.go: what stands before every handler.
pub mod Admission
use berth_agent.Prelude.{
  ℕ, Bool, Option, none, some, List, Result, ok, err, Text, codes, text_eq, if◌then◌else◌,
}
use berth_agent.AgentSign.Crypto.{Crypto}
use berth_agent.AgentSign.Verifier.{
  Request, Rejection, Verifier, verify_request, verify_body, header_nonce,
}
use berth_agent.AgentSign.Body.{BodyError, read_body}
use berth_agent.AgentSign.Frames.{
  FrameWriter, FrameReader, new_frame_writer, new_frame_reader, direction_to_agent,
  direction_to_berth,
}

-- The two frame ends that `SessionFor` makes of a session key that was agreed.
pub session_for : Text → Text → FrameWriter × FrameReader
session_for key direction =
    let opposite =
      if text_eq direction direction_to_berth then direction_to_agent else direction_to_berth in
    (new_frame_writer key direction, new_frame_reader key opposite)

module _ (crypto : Crypto) where
  open crypto use {Certificate}

  -- c.JSON with a status and an error, or the call of `next` with the peer and the nonce in the
  -- context and this body to read again.
  pub data Outcome : Type 0 where
    refused : ℕ → Text → Outcome
    passed : Certificate → Text → Text → Outcome

  -- What `Middleware` does with the answer of `ReadBody`.
  body_read : Request → Certificate → Option (Result BodyError Text) → Option Outcome
  body_read req peer none = none
  body_read req peer (some (err e)) = some (refused 413 (codes "Request too large"))
  body_read req peer (some (ok body)) = some (
      if verify_body crypto req body
      then passed peer (req.header header_nonce) body
      else refused 401 (codes "Invalid request signature"))

  -- And before that with the answer of `VerifyRequest`.
  request_verified :
      Request → Option (Result BodyError Text) → Result Rejection Certificate → Option Outcome
  unfolding body_read
  request_verified req body (err e) = some (refused 401 (codes "Invalid request signature"))
  request_verified req body (ok peer) = body_read req peer body

  -- `Middleware`, at the time `now`; `sizes k` is the room for the k-th read of the body.
  unfoldable pub middleware :
      (ℕ → ℕ)
      → Verifier crypto
      → ℕ
      → Request
      → Option (List Text × Bool)
      → ℕ
      → Verifier crypto × Option Outcome
  unfolding request_verified
  middleware sizes v now req body max_body_bytes =
      let (v', verified) = verify_request crypto v now req in
      (v', request_verified req (read_body sizes body max_body_bytes) verified)
