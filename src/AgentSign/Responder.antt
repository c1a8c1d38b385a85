-- ===== src/AgentSign/Responder.antt =====
-- internal/agentsign/responder.go: the response writer that signs what a handler answers. What the
-- client is sent is the heads, each with the digest that its signature covers, and the body below.
pub mod Phases
pub mod Heads
use berth_agent.Prelude.{
  ℕ, ◌+◌, ◌*◌, Bool, true, false, not, ◌&&◌, Option, none, some, List, [], ◌∷◌, ◌++◌, Text, codes,
  ltb, if◌then◌else◌, length,
}
use berth_agent.Encoding.Hex.{hex}
use berth_agent.AgentSign.Frames.{FrameWriter}
use berth_agent.AgentSign.BodyFrames.{Sink, sink_write, new_body_writer}
use berth_agent.AgentSign.BodyFrames

abbrev pub body_unsigned : Text
body_unsigned = codes "unsigned"

abbrev pub body_framed : Text
body_framed = codes "framed"

abbrev pub frame_body_beyond : ℕ
frame_body_beyond = 1024 * 1024

-- The fields that `sign` puts into the signed byte string, at `WriteHeader` of the writer below.
pub record Head : Type 0 where
  pub status : ℕ
  pub content_type : Text
  pub body_digest : Text

pub record SigningWriter : Type 0 where
  pub status : ℕ
  -- w.Header().Get("Content-Type")
  pub content_type : Text
  pub buffer : Text
  pub committed : Bool
  pub sealed : Bool
  pub frames : Option FrameWriter
  -- what was signed for a connection that is handed over, and is not sent by the writer itself
  pub upgrades : List Head
  -- what was written to the ResponseWriter below
  pub heads : List Head
  pub body : Sink

-- The writer that `SignResponses` makes, over a response that is still empty.
pub new_signing_writer : SigningWriter
new_signing_writer = record {
  status = 200;
  content_type = [];
  buffer = [];
  committed = false;
  sealed = false;
  frames = none;
  upgrades = [];
  heads = [];
  body = record { written = []; calls = 0 };
}

abbrev pub internal_error : Text
internal_error = codes "{\"error\":\"Internal server error\"}"

pub write_header : SigningWriter → ℕ → SigningWriter
write_header w status = if w.sealed then w else record w { status = status }

-- What the writer works over: whether the writer below can hand its connection over and which of its
-- calls succeed, the HMAC and the hash of
-- crypto/hmac and crypto/sha256, and the key that `sessionKey` agrees, if it does.
pub record Environment : Type 0 where
  pub hijackable : Bool
  pub accepts : ℕ → Bool
  pub hmac : Text → Text → Text
  pub sha256 : Text → Text
  pub session_key : Option Text

module _ (env : Environment) where
  open env use {hijackable, accepts, hmac, sha256, session_key}

  pub body_digest : Text → Text
  body_digest body = hex (sha256 body)

  pub commit : SigningWriter → Text → SigningWriter
  commit w digest = record w {
    buffer = [];
    committed = true;
    heads =
        w.heads
        ++ record { status = w.status; content_type = w.content_type; body_digest = digest } ∷ [];
    body = if ltb 0 (length w.buffer) then (sink_write accepts w.body w.buffer).0 else w.body;
  }

  -- `w.frames.Write(payload)`; the loop never runs out of fuel.
  pub frames_write : SigningWriter → FrameWriter → Text → SigningWriter
  frames_write w f payload =
      elim (BodyFrames.write accepts hmac (record { sink = w.body; frames = f }) payload) [
        | none ↦ w
        | some (b, _, _) ↦ record w { body = b.sink; frames = some b.frames }
      ]

  start_framing : SigningWriter → SigningWriter
  unfolding commit frames_write
  start_framing w = elim session_key [
    | none ↦ commit w body_unsigned
    | some key ↦
        let w' = commit (record w { buffer = [] }) body_framed in
        frames_write w' (new_body_writer w'.body key).frames w.buffer
  ]

  -- `Write` once the head is out.
  write_through : SigningWriter → Option FrameWriter → Text → SigningWriter
  unfolding frames_write
  write_through w (some f) payload = frames_write w f payload
  write_through w none payload = record w { body = (sink_write accepts w.body payload).0 }

  -- The second test of `Write`.
  framed_when_large : SigningWriter → Text → SigningWriter
  unfolding start_framing
  framed_when_large w payload =
      if not w.committed && ltb frame_body_beyond (length w.buffer + length payload)
      then start_framing w
      else w

  -- What `Write` does after it.
  write_on : SigningWriter → Text → SigningWriter
  unfolding write_through
  write_on w payload =
      if w.committed
      then write_through w w.frames payload
      else record w { buffer = w.buffer ++ payload }

  pub write : SigningWriter → Text → SigningWriter
  unfolding framed_when_large write_on
  write w payload = if w.sealed then w else write_on (framed_when_large w payload) payload

  pub flush : SigningWriter → SigningWriter
  unfolding commit
  flush w = if not w.committed then commit w body_unsigned else w

  -- `Hijack` up to the call of the same method below, which takes the connection out of reach.
  pub hijack : SigningWriter → SigningWriter
  hijack w =
      if hijackable && not w.committed
      then record w {
        committed = true;
        upgrades =
            w.upgrades
            ++ record { status = 101; content_type = []; body_digest = body_unsigned } ∷ [];
      }
      else w

  -- The answer that `failed` puts in place of what was buffered.
  internal_failure : SigningWriter → SigningWriter
  internal_failure w = record w {
    status = 500;
    buffer = internal_error;
    content_type = codes "application/json";
  }

  -- After a panic of the handler.
  pub failed : SigningWriter → SigningWriter
  unfolding commit body_digest internal_failure
  failed w =
      if w.committed
      then record w { sealed = true }
      else record (commit (internal_failure w) (body_digest internal_error)) { sealed = true }

  finish_frames : SigningWriter → FrameWriter → SigningWriter
  finish_frames w f =
      let (b, _) = BodyFrames.close accepts hmac (record { sink = w.body; frames = f }) in
      record w { body = b.sink; frames = some b.frames }

  -- `finish` on `w.frames`.
  finish_on : SigningWriter → Bool → Option FrameWriter → SigningWriter
  unfolding commit body_digest finish_frames
  finish_on w succeeded (some f) = if succeeded then finish_frames w f else w
  finish_on w succeeded none = if w.committed then w else commit w (body_digest w.buffer)

  -- `finish`, with whether the handler returned no error.
  pub finish : SigningWriter → Bool → SigningWriter
  unfolding finish_on
  finish w succeeded = finish_on w succeeded w.frames
