-- ===== src/AgentSign/BodyFrames/Sending.antt =====
-- internal/agentsign/stream.go: what `Write` and `Close` send is read back, when no call of the
-- writer below fails.
use berth_agent.Prelude.{
  ==_of_lt, ==_refl, tests, subst, ℕ, zero, suc, ◌+◌, ◌≤◌, ◌<◌, ◌≡◌, refl, ap, sym, ◌∙◌, inl, inr,
  Bool, true, Option, none, some, [], ◌∷◌, ◌++◌, arith, Text, ltb, Bool-cases, length,
}
use berth_agent.Prelude.{
  take, drop, append_assoc, append-nil, take-append-drop, length-drop, length-take, ◌^◌,
}
use berth_agent.AgentSign.Frames.{FrameWriter, FrameReader, wrap_typed, max_frame_bytes}
use berth_agent.AgentSign.Frames.Laws.{InSync}
use berth_agent.AgentSign.BodyFrames.{BodyWriter, sink_write, emit, write_chunks, write, body_chunk}
use berth_agent.AgentSign.BodyFrames.Reading.{read_frames, prepend, on_wire, read_frame-on_wire}

prepend-prepend : (s t : Text) (o : Option Text) → prepend s (prepend t o) ≡ prepend (s ++ t) o
prepend-prepend s t none = refl
prepend-prepend s t (some u) = rw append_assoc

prepend-nil : (o : Option Text) → prepend [] o ≡ o
prepend-nil none = refl
prepend-nil (some u) = refl

module _ (hmac : Text → Text → Text) where
  -- A reader in step reads the bytes `sent` as this part of the body, in `count` frames.
  pub record Reads (w w' : FrameWriter) (sent part : Text) (count : ℕ) : Type 0 where
    pub at :
        (r : FrameReader)
        → InSync w r
        → (r' : FrameReader) × InSync w' r'
          × ((fuel : ℕ) (rest : Text)
              → read_frames hmac (count + fuel) r (sent ++ rest)
                ≡ prepend part (read_frames hmac fuel r' rest))

  -- The writer has sent this part of the body.
  pub record Sent (w w' : BodyWriter) (part : Text) : Type 0 where
    pub bytes : Text
    pub count : ℕ
    pub appended : w'.sink.written ≡ w.sink.written ++ bytes
    pub reads : Reads w.frames w'.frames bytes part count

  Reads-trans :
      {u v w : FrameWriter} {s t a b : Text} {m n : ℕ}
      → Reads u v s a m
      → Reads v w t b n
      → Reads u w (s ++ t) (a ++ b) (m + n)
  Reads-trans {s = s} {t = t} {a = a} {b = b} {m = m} {n = n} p q = record {
    at = λ r sync.
        let (r', sync', first) = p.at r sync in
        let (r'', sync'', second) = q.at r' sync' in
        (
          r'',
          sync'',
          λ fuel rest.
              let regroup : m + n + fuel ≡ m + (n + fuel) = omega arith in
              rw (regroup, append_assoc)
                (first (n + fuel) (t ++ rest)
                  ∙ ap (prepend a) (second fuel rest)
                  ∙ prepend-prepend a b _),
        );
  }

  pub Sent-trans : {u v w : BodyWriter} {a b : Text} → Sent u v a → Sent v w b → Sent u w (a ++ b)
  Sent-trans {u = u} p q = record {
    bytes = p.bytes ++ q.bytes;
    count = p.count + q.count;
    appended =
        q.appended
        ∙ ap (λ t. t ++ q.bytes) p.appended
        ∙ append_assoc u.sink.written p.bytes q.bytes;
    reads = Reads-trans p.reads q.reads;
  }

  pub Sent-refl : (w : BodyWriter) → Sent w w []
  Sent-refl w = record {
    bytes = [];
    count = 0;
    appended = sym (append-nil _);
    reads = record {
      at = λ r sync. (
        r,
        sync,
        λ fuel rest. let e : 0 + fuel ≡ fuel = omega arith in rw e (sym (prepend-nil _)),
      );
    };
  }

module _ (hmac : Text → Text → Text) (length-hmac : (k m : Text) → length (hmac k m) ≡ 32)
    (accepts : ℕ → Bool) (all_accepted : (n : ℕ) → accepts n ≡ true) where
  -- One frame is sent whole.
  pub emit_lem :
      (w : BodyWriter) (kind : ℕ) (payload : Text)
      → let frame = wrap_typed hmac w.frames kind payload in
        ((emit accepts hmac w kind payload).1 ≡ true)
        × ((emit accepts hmac w kind payload).0.sink.written ≡ w.sink.written ++ on_wire frame.1)
        × ((emit accepts hmac w kind payload).0.frames ≡ frame.0)
  unfolding emit sink_write
  emit_lem w kind payload =
      let a = all_accepted w.sink.calls in
      let b = all_accepted (w.sink.calls + 1) in rw (a, b) (refl, simp append_assoc, refl)

  Reads-chunk :
      (w : FrameWriter) (chunk : Text)
      → 41 + length chunk < 2 ^ 32
      → Reads hmac w
          (wrap_typed hmac w body_chunk chunk).0
          (on_wire (wrap_typed hmac w body_chunk chunk).1)
          chunk
          1
  Reads-chunk w chunk fits = record {
    at = λ r sync.
        let (r', next, read) = read_frame-on_wire hmac length-hmac w r body_chunk chunk sync fits in
        (
          r',
          next,
          λ fuel rest.
              let one : 1 + fuel ≡ suc fuel = omega arith in
              unfold read_frames in rw (one, read rest, read_frames),
        );
  }

  emit-Sent :
      (w : BodyWriter) (chunk : Text)
      → 41 + length chunk < 2 ^ 32
      → Sent hmac w (emit accepts hmac w body_chunk chunk).0 chunk
  emit-Sent w chunk fits =
      let (sent, appended, frames) = emit_lem w body_chunk chunk in
      record {
        bytes = on_wire (wrap_typed hmac w.frames body_chunk chunk).1;
        count = 1;
        appended = appended;
        reads = rw frames (Reads-chunk w.frames chunk fits);
      }

  -- The loop of `Write` ends, reports every byte as written, and has sent them all.
  write_chunks-Sent :
      (fuel : ℕ) (w : BodyWriter) (rest : Text) (written : ℕ)
      → 0 < length rest
      → length rest ≤ fuel
      → (w' : BodyWriter) × (write_chunks accepts hmac fuel w rest written
          ≡ some (w', written + length rest, true))
        × Sent hmac w w' rest
  unfolding write_chunks
  write_chunks-Sent zero w rest written h k = absurd (omega arith)
  write_chunks-Sent (suc fuel) w rest written h k =
      elim (Bool-cases (ltb max_frame_bytes (length rest))) [
        | inl large ↦
            let chunk = take max_frame_bytes rest in
            let len : length chunk ≡ max_frame_bytes =
              length-take max_frame_bytes rest (omega tests) in
            let w' = (emit accepts hmac w body_chunk chunk).0 in
            let left = length-drop max_frame_bytes rest in
            let more : max_frame_bytes < length rest = omega tests in
            let (w'', later, sent) =
              write_chunks-Sent fuel w' (drop max_frame_bytes rest) (written + max_frame_bytes)
                (omega arith) (omega arith) in
            let (other, _) = ==_of_lt max_frame_bytes (length rest) more in
            (
              w'',
              rw (large, (emit_lem w body_chunk chunk).0, len, other, later)
                  (ap (λ n. some (w'', n, true)) (omega (arith, left))),
              subst (Sent hmac w w'') (take-append-drop max_frame_bytes rest)
                  (Sent-trans hmac (emit-Sent w chunk (omega arith)) sent),
            )
        | inr small ↦
            let same = ==_refl (length rest) in
            (
              (emit accepts hmac w body_chunk rest).0,
              rw (small, (emit_lem w body_chunk rest).0, same),
              emit-Sent w rest (omega tests),
            )
      ]

  -- `Write` ends without an error, reports the payload's length and has sent the payload.
  pub write-Sent :
      (w : BodyWriter) (payload : Text)
      → (w' : BodyWriter) × (write accepts hmac w payload ≡ some (w', length payload, true))
        × Sent hmac w w' payload
  unfolding write
  write-Sent w [] = (w, refl, Sent-refl hmac w)
  write-Sent w (b ∷ payload) =
      let (w', ended, sent) =
        write_chunks-Sent (length (b ∷ payload)) w (b ∷ payload) 0 (omega arith) (omega arith) in
      (w', ended ∙ ap (λ n. some (w', n, true)) (omega arith), sent)
