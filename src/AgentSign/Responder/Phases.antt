-- ===== src/AgentSign/Responder/Phases.antt =====
-- internal/agentsign/responder.go: what a handler may call, and that one head is signed.
use berth_agent.Prelude.{
  length-append, ℕ, ◌+◌, ◌≡◌, refl, ap, ◌∙◌, inl, inr, Bool, true, false, not, ◌&&◌, Option, none,
  some, List, [], ◌∷◌, arith, Text, ltb, if◌then◌else◌, Bool-cases, Option-cases, length,
}
use berth_agent.AgentSign.Frames.{FrameWriter}
use berth_agent.AgentSign.Responder.{
  Environment, SigningWriter, commit, write_header, frames_write, start_framing, write_through,
  finish_on, internal_failure, internal_error, body_digest, write_on, framed_when_large,
  frame_body_beyond, write, flush, hijack, failed, finish, body_unsigned, body_framed, body_digest,
}

-- The calls of a handler.
pub data Call : Type 0 where
  -- w.Header().Set("Content-Type", …)
  set_content_type : Text → Call
  set_status : ℕ → Call
  put : Text → Call
  flush_now : Call
  take_over : Call

abbrev pub is_take_over : Call → Bool
is_take_over take_over = true
is_take_over _ = false

-- What ends a response: the handler returns, with or without an error, or it panics.
pub data Ending : Type 0 where
  returned : Bool → Ending
  panicked : Ending

-- A head is signed when the writer is committed, and frames come after it.
pub record HasOneHead (w : SigningWriter) : Type 0 where
  pub heads : length w.heads + length w.upgrades ≡ (if w.committed then 1 else 0)
  pub frames : w.committed ≡ false → w.frames ≡ none

module _ (env : Environment) where
  unfoldable pub step : SigningWriter → Call → SigningWriter
  step w (set_content_type type) = record w { content_type = type }
  step w (set_status status) = write_header w status
  step w (put payload) = write env w payload
  step w flush_now = flush env w
  step w take_over = hijack env w

  unfoldable pub run : SigningWriter → List Call → SigningWriter
  run w [] = w
  run w (call ∷ calls) = run (step w call) calls

  commit-HasOneHead :
      (w : SigningWriter) (digest : Text)
      → HasOneHead w
      → w.committed ≡ false
      → HasOneHead (commit env w digest)
  unfolding commit
  commit-HasOneHead w digest h open_yet = record {
    heads = omega (
      arith,
      length-append w.heads
          (record { status = w.status; content_type = w.content_type; body_digest = digest } ∷ []),
      nothing,
    );
    frames = λ e. cc;
  }
    where
      nothing : length w.heads + length w.upgrades ≡ 0
      nothing = rw open_yet at h.heads

  pub heads-frames_write :
      (w : SigningWriter) (f : FrameWriter) (payload : Text)
      → ((frames_write env w f payload).heads ≡ w.heads)
        × ((frames_write env w f payload).upgrades ≡ w.upgrades)
        × ((frames_write env w f payload).committed ≡ w.committed)
  unfolding frames_write
  heads-frames_write w f payload = ground arith

  frames_write-HasOneHead :
      (w : SigningWriter) (f : FrameWriter) (payload : Text)
      → HasOneHead w
      → w.committed ≡ true
      → HasOneHead (frames_write env w f payload)
  frames_write-HasOneHead w f payload h c =
      let (heads, upgrades, committed) = heads-frames_write w f payload in
      record { heads = rw (heads, upgrades, committed) h.heads; frames = λ e. cc }

  start_framing-HasOneHead :
      (w : SigningWriter) → HasOneHead w → w.committed ≡ false → HasOneHead (start_framing env w)
  start_framing-HasOneHead w h c = elim (Option-cases env.session_key) [
    | inl unagreed ↦
        unfold start_framing in rw (unagreed, start_framing) (commit-HasOneHead w body_unsigned h c)
    | inr (key, agreed) ↦
        let w₀ = record w { buffer = [] } in
        let h₀ : HasOneHead w₀ = record { heads = h.heads; frames = h.frames } in
        unfold start_framing in
        rw (agreed, start_framing)
          (frames_write-HasOneHead (commit env w₀ body_framed) _ w.buffer
            (commit-HasOneHead w₀ body_framed h₀ c) (unfold commit in refl))
  ]

  framed_when_large-HasOneHead :
      (w : SigningWriter) (payload : Text)
      → HasOneHead w
      → HasOneHead (framed_when_large env w payload)
  framed_when_large-HasOneHead w payload h =
      elim (Bool-cases
        (not w.committed && ltb frame_body_beyond (length w.buffer + length payload))) [
          | inl large ↦
              unfold framed_when_large in rw large (start_framing-HasOneHead w h (ground arith))
          | inr small ↦ unfold framed_when_large in rw small h
        ]

  write_through-HasOneHead :
      (w : SigningWriter) (frames : Option FrameWriter) (payload : Text)
      → HasOneHead w
      → w.committed ≡ true
      → HasOneHead (write_through env w frames payload)
  unfolding write_through
  write_through-HasOneHead w (some f) payload h c = frames_write-HasOneHead w f payload h c
  write_through-HasOneHead w none payload h c = record { heads = h.heads; frames = h.frames }

  write-HasOneHead :
      (w : SigningWriter) (payload : Text) → HasOneHead w → HasOneHead (write env w payload)
  write-HasOneHead w payload h = elim (Bool-cases w.sealed) [
    | inl sealed ↦ unfold write in simp sealed h
    | inr live ↦
        unfold write in
        simp live (on (framed_when_large env w payload) (framed_when_large-HasOneHead w payload h))
  ]
    where
      on : (w' : SigningWriter) → HasOneHead w' → HasOneHead (write_on env w' payload)
      on w' h' = elim (Bool-cases w'.committed) [
        | inl c ↦ unfold write_on in simp c (write_through-HasOneHead w' w'.frames payload h' c)
        | inr c ↦
            unfold write_on in
            simp c (record {
              heads = h'.heads ∙ ap (λ (b : Bool). if b then 1 else 0) c;
              frames = λ e. h'.frames c;
            })
      ]

  step-HasOneHead : (w : SigningWriter) (call : Call) → HasOneHead w → HasOneHead (step w call)
  step-HasOneHead w (set_content_type type) h =
      unfold step in record { heads = h.heads; frames = h.frames }
  step-HasOneHead w (set_status status) h = elim (Bool-cases w.sealed) [
    | inl sealed ↦ unfold step write_header in simp sealed h
    | inr live ↦
        unfold step write_header in simp live (record { heads = h.heads; frames = h.frames })
  ]
  step-HasOneHead w (put payload) h = unfold step in write-HasOneHead w payload h
  step-HasOneHead w flush_now h = elim (Bool-cases w.committed) [
    | inl c ↦ unfold step flush in simp c h
    | inr c ↦ unfold step flush in simp c (commit-HasOneHead w body_unsigned h c)
  ]
  step-HasOneHead w take_over h = elim (Bool-cases (env.hijackable && not w.committed)) [
    | inl taken ↦
        unfold step hijack in
        simp taken (record {
          heads = omega (
            arith,
            length-append w.upgrades
                (record { status = 101; content_type = []; body_digest = body_unsigned } ∷ []),
            nothing_yet taken,
          );
          frames = λ e. cc;
        })
    | inr kept ↦ unfold step hijack in simp kept h
  ]
    where
      nothing_yet :
          env.hijackable && not w.committed ≡ true → length w.heads + length w.upgrades ≡ 0
      nothing_yet taken =
          (let c : w.committed ≡ false = ground arith in
            h.heads ∙ ap (λ (b : Bool). if b then 1 else 0) c)

  pub run-HasOneHead :
      (w : SigningWriter) (calls : List Call) → HasOneHead w → HasOneHead (run w calls)
  unfolding run
  run-HasOneHead w [] h = h
  run-HasOneHead w (call ∷ calls) h = run-HasOneHead (step w call) calls (step-HasOneHead w call h)

  unfoldable pub ended : SigningWriter → Ending → SigningWriter
  ended w (returned succeeded) = finish env w succeeded
  ended w panicked = failed env w

  committed_of_frames :
      (w : SigningWriter) (f : FrameWriter) → HasOneHead w → w.frames ≡ some f → w.committed ≡ true
  committed_of_frames w f h e = elim (Bool-cases w.committed) [
    | inl c ↦ c
    | inr c ↦ cc (h.frames c)
  ]

  heads_of_committed :
      (w : SigningWriter)
      → HasOneHead w
      → w.committed ≡ true
      → length w.heads + length w.upgrades ≡ 1
  heads_of_committed w h c = h.heads ∙ ap (λ (b : Bool). if b then 1 else 0) c

  finish_on-HasOneHead :
      (w : SigningWriter) (succeeded : Bool) (frames : Option FrameWriter)
      → HasOneHead w
      → w.frames ≡ frames
      → length (finish_on env w succeeded frames).heads
          + length (finish_on env w succeeded frames).upgrades
        ≡ 1
  finish_on-HasOneHead w true (some f) h e =
      unfold finish_on in heads_of_committed w h (committed_of_frames w f h e)
  finish_on-HasOneHead w false (some f) h e =
      unfold finish_on in heads_of_committed w h (committed_of_frames w f h e)
  finish_on-HasOneHead w succeeded none h e = elim (Bool-cases w.committed) [
    | inl c ↦ unfold finish_on in simp c (heads_of_committed w h c)
    | inr c ↦
        unfold finish_on in
        simp c (
          heads_of_committed (commit env w (body_digest env w.buffer))
            (commit-HasOneHead w (body_digest env w.buffer) h c) (unfold commit in refl))
  ]

  failed-HasOneHead :
      (w : SigningWriter)
      → HasOneHead w
      → length (failed env w).heads + length (failed env w).upgrades ≡ 1
  failed-HasOneHead w h = elim (Bool-cases w.committed) [
    | inl c ↦ unfold failed in simp c (heads_of_committed w h c)
    | inr c ↦
        let failure = internal_failure env w in
        let digest = body_digest env internal_error in
        let h' : HasOneHead failure =
          unfold internal_failure in record { heads = h.heads; frames = h.frames } in
        let c' : failure.committed ≡ false = unfold internal_failure in c in
        unfold failed in
        simp c (
          heads_of_committed (commit env failure digest) (commit-HasOneHead failure digest h' c')
            (unfold commit in refl))
  ]

  pub heads-ended :
      (w : SigningWriter) (e : Ending)
      → HasOneHead w
      → length (ended w e).heads + length (ended w e).upgrades ≡ 1
  heads-ended w (returned succeeded) h =
      unfold ended finish in finish_on-HasOneHead w succeeded w.frames h refl
  heads-ended w panicked h = unfold ended in failed-HasOneHead w h
