-- ===== src/AgentSign/Frames/Laws.antt =====
-- A stream delivers what was sent, in order, and no frame twice.
use berth_agent.Prelude.{
  map, append_assoc, le→ltb, text_eq_refl, ℕ, ◌+◌, ◌≤◌, ◌<◌, ◌≡◌, ◌≢◌, refl, ◌∙◌, inl, inr, ◌⊎◌,
  false, List, [], ◌∷◌, ◌++◌, arith, Result, ok, err, Text, text_eq, ltb, if◌then◌else◌, ◌==◌,
  length,
}
use berth_agent.Prelude.{take, drop, ◌^◌, ◌%◌, take-append, drop-append, length-append}
use berth_agent.Encoding.BigEndian.{uint, uint-put_uint, length-put_uint}
use berth_agent.AgentSign.Frames.{
  new_frame_writer, new_frame_reader, put_uint, unwrap_typed, wrap_typed, FrameWriter, FrameReader,
  FrameError, frame_rejected, frame_mac, wrap, unwrap,
}

-- The parts of a list of known length.
pub take_of_length {ℓ} :
    {A : Type ℓ} (n : ℕ) (xs ys : List A) → length xs ≡ n → take n (xs ++ ys) ≡ xs
take_of_length n xs ys h = rw (← h) (take-append xs ys)

pub drop_of_length {ℓ} :
    {A : Type ℓ} (n : ℕ) (xs ys : List A) → length xs ≡ n → drop n (xs ++ ys) ≡ ys
drop_of_length n xs ys h = rw (← h) (drop-append xs ys)

-- A writer and a reader of one stream that have come equally far.
pub record InSync (w : FrameWriter) (r : FrameReader) : Type 0 where
  pub key : w.key ≡ r.key
  pub direction : w.direction ≡ r.direction
  pub sequence : w.sequence ≡ r.expected
  pub fits : w.sequence < 2 ^ 64

-- What `unwrap` answers, given the three parts of a frame.
verdict :
    (Text → Text → Text) → FrameReader → Text → Text → Text → FrameReader × Result FrameError Text
verdict hmac r sequence mac payload =
    if text_eq mac (frame_mac hmac r.key r.direction (uint sequence) payload)
    then (if uint sequence == r.expected
        then (record r { expected = (r.expected + 1) % 2 ^ 64 }, ok payload)
        else (r, err frame_rejected))
    else (r, err frame_rejected)

unwrap_of_parts :
    (hmac : Text → Text → Text) (r : FrameReader) (sequence mac payload : Text)
    → length sequence ≡ 8
    → length mac ≡ 32
    → unwrap hmac r (sequence ++ (mac ++ payload)) ≡ verdict hmac r sequence mac payload
unfolding unwrap verdict
unwrap_of_parts hmac r sequence mac payload h k =
    let long : ltb (length (sequence ++ (mac ++ payload))) 40 ≡ false =
      le→ltb _ _
        (omega (arith, length-append sequence (mac ++ payload), length-append mac payload)) in
    let tail : drop 40 (sequence ++ (mac ++ payload)) ≡ payload =
      rw (← append_assoc)
        (drop_of_length 40 (sequence ++ mac) payload (omega (arith, length-append sequence mac))) in
    rw (
      long,
      take_of_length 8 sequence (mac ++ payload) h,
      drop_of_length 8 sequence (mac ++ payload) h,
      take_of_length 32 mac payload k,
      tail,
    )

-- Both sides of a new stream stand at the start.
pub new-InSync :
    (key direction : Text)
    → InSync (new_frame_writer key direction) (new_frame_reader key direction)
unfolding new_frame_writer new_frame_reader
new-InSync key direction = record {
  key = refl;
  direction = refl;
  sequence = refl;
  fits = omega arith;
}

module _ (hmac : Text → Text → Text) (length-hmac : (k m : Text) → length (hmac k m) ≡ 32) where
  unwrap-wrap_lem :
      (w : FrameWriter) (r : FrameReader) (payload : Text)
      → InSync w r
      → unwrap hmac r (wrap hmac w payload).1
        ≡ (record r { expected = (r.expected + 1) % 2 ^ 64 }, ok payload)
  unfolding wrap
  unwrap-wrap_lem w r payload s =
      unwrap_of_parts hmac r _ _ payload (length-put_uint 8 w.sequence)
        (unfold frame_mac in length-hmac _ _)
      ∙ (unfold verdict in
          rw (uint-put_uint 8 w.sequence s.fits, s.key, s.direction, s.sequence, text_eq_refl _)
            (ground arith))

  -- The next frame of the stream is accepted, gives its payload, and leaves both sides in step.
  pub unwrap-wrap :
      (w : FrameWriter) (r : FrameReader) (payload : Text)
      → InSync w r
      → ((unwrap hmac r (wrap hmac w payload).1).1 ≡ ok payload)
        × InSync (wrap hmac w payload).0 (unwrap hmac r (wrap hmac w payload).1).0
  unwrap-wrap w r payload s = rw (unwrap-wrap_lem w r payload s) (
    refl,
    unfold wrap in
        record {
          key = s.key;
          direction = s.direction;
          sequence = omega (arith, s.sequence);
          fits = omega arith;
        },
  )

  -- A frame's length: the kind byte, the overhead and the payload.
  pub length-wrap_typed :
      (w : FrameWriter) (kind : ℕ) (payload : Text)
      → length (wrap_typed hmac w kind payload).1 ≡ 41 + length payload
  unfolding wrap_typed
  length-wrap_typed w kind payload =
      let mac = frame_mac hmac w.key w.direction w.sequence (kind ∷ payload) in
      let len : length mac ≡ 32 = unfold frame_mac in length-hmac _ _ in
      omega (
        arith,
        length-append (put_uint 8 w.sequence) (mac ++ kind ∷ payload),
        length-append mac (kind ∷ payload),
        length-put_uint 8 w.sequence,
        len,
      )

  pub unwrap_typed-wrap_typed :
      (w : FrameWriter) (r : FrameReader) (kind : ℕ) (payload : Text)
      → InSync w r
      → (r' : FrameReader) × InSync (wrap_typed hmac w kind payload).0 r'
        × (unwrap_typed hmac r (wrap_typed hmac w kind payload).1 ≡ (r', ok (kind, payload)))
  unwrap_typed-wrap_typed w r kind payload s =
      let (delivered, next) = unwrap-wrap w r (kind ∷ payload) s in
      (
        (unwrap hmac r (wrap hmac w (kind ∷ payload)).1).0,
        unfold wrap_typed in next,
        unfold wrap_typed unwrap_typed in rw (unwrap-wrap_lem w r (kind ∷ payload) s),
      )

-- Consecutive calls of `Wrap` and of `Unwrap`.
module _ (hmac : Text → Text → Text) where
  pub wrap_all : FrameWriter → List Text → List Text
  wrap_all w [] = []
  wrap_all w (payload ∷ rest) = let (w', frame) = wrap hmac w payload in frame ∷ wrap_all w' rest

  pub unwrap_all : FrameReader → List Text → FrameReader × List (Result FrameError Text)
  unwrap_all r [] = (r, [])
  unwrap_all r (frame ∷ rest) =
      let (r', unwrapped) = unwrap hmac r frame in
      let (r'', later) = unwrap_all r' rest in (r'', unwrapped ∷ later)

-- A reader in step with a writer accepts the writer's frames and delivers the payloads in order,
-- however many are sent, for any function in place of the HMAC with results of 32 bytes.
pub unwrap_all-wrap_all :
    (hmac : Text → Text → Text)
    → ((k m : Text) → length (hmac k m) ≡ 32)
    → (w : FrameWriter) (r : FrameReader) (payloads : List Text) → InSync w r
    → (unwrap_all hmac r (wrap_all hmac w payloads)).1 ≡ map ok payloads
unfolding unwrap_all wrap_all
unwrap_all-wrap_all hmac len w r [] s = refl
unwrap_all-wrap_all hmac len w r (payload ∷ rest) s =
    let (accepted, next) = unwrap-wrap hmac len w r payload s in
    let ih =
      unwrap_all-wrap_all hmac len (wrap hmac w payload).0 (unwrap hmac r (wrap hmac w payload).1).0
        rest next in
    cc

module _ (hmac : Text → Text → Text) where
  accepted-eq-expected :
      (r : FrameReader) (frame : Text) {payload : Text}
      → (unwrap hmac r frame).1 ≡ ok payload
      → (uint (take 8 frame) ≡ r.expected)
        × ((unwrap hmac r frame).0.expected ≡ (r.expected + 1) % 2 ^ 64)
  unfolding unwrap
  accepted-eq-expected r frame h = ground arith

  rejected_of_ne :
      (r : FrameReader) (frame : Text)
      → uint (take 8 frame) ≢ r.expected
      → (unwrap hmac r frame).1 ≡ err frame_rejected
  unfolding unwrap
  rejected_of_ne r frame h = ground arith

  expected_step :
      (r : FrameReader) (frame : Text)
      → ((unwrap hmac r frame).0.expected ≡ r.expected)
        ⊎ ((unwrap hmac r frame).0.expected ≡ (r.expected + 1) % 2 ^ 64)
  unfolding unwrap
  expected_step r frame = ground arith

  -- After some frames the reader expects a number at most that far ahead.
  expected-unwrap_all :
      (e k : ℕ) (r : FrameReader) (frames : List Text)
      → r.expected ≡ (e + k) % 2 ^ 64
      → (k' : ℕ) × (k ≤ k')
        × (k' ≤ k + length frames)
        × ((unwrap_all hmac r frames).0.expected ≡ (e + k') % 2 ^ 64)
  unfolding unwrap_all
  expected-unwrap_all e k r [] h = (k, omega arith, omega arith, h)
  expected-unwrap_all e k r (frame ∷ rest) h = elim (expected_step r frame) [
    | inl same ↦
        let (k', a, b, c) = expected-unwrap_all e k (unwrap hmac r frame).0 rest (same ∙ h) in
        (k', a, omega arith, c)
    | inr more ↦
        let (k', a, b, c) =
          expected-unwrap_all e (k + 1) (unwrap hmac r frame).0 rest (omega arith) in
        (k', omega arith, omega arith, c)
  ]

  -- A frame that was accepted is rejected from then on, whatever other frames the reader sees, as
  -- long as these are fewer than 2^64 - 1 and the number that the reader expects fits into 64 bits.
  pub unwrap-refuses_replay :
      (r : FrameReader) (frame payload : Text) (between : List Text)
      → r.expected < 2 ^ 64
      → length between + 1 < 2 ^ 64
      → (unwrap hmac r frame).1 ≡ ok payload
      → (unwrap hmac (unwrap_all hmac (unwrap hmac r frame).0 between).0 frame).1
        ≡ err frame_rejected
  unwrap-refuses_replay r frame payload between small few accepted =
      let (number, moved) = accepted-eq-expected r frame accepted in
      let (k, a, b, now) = expected-unwrap_all r.expected 1 (unwrap hmac r frame).0 between moved in
      rejected_of_ne _ frame (λ e. omega arith)
