-- ===== src/AgentSign/Tests/Streams.antt =====
-- internal/agentsign: streams and responses at concrete inputs.
use berth_agent.Prelude.{
  ℕ, ◌+◌, ◌≡◌, refl, Bool, true, some, List, [], ◌∷◌, ◌++◌, arith, ok, err, Text, codes, length,
}
use berth_agent.Prelude.{map}
use berth_agent.Encoding.BigEndian.{put_uint, uint, length-put_uint}
use berth_agent.AgentSign.Frames.{
  new_frame_writer, new_frame_reader, direction_to_agent, direction_body_to_berth, wrap, unwrap,
  frame_rejected,
}
use berth_agent.AgentSign.Frames.Laws.{
  new-InSync, unwrap-wrap, wrap_all, unwrap_all, unwrap_all-wrap_all, unwrap-refuses_replay,
}
use berth_agent.AgentSign.BodyFrames.{BodyWriter, new_body_writer}
use berth_agent.AgentSign.BodyFrames.Reading.{read_frames}
use berth_agent.AgentSign.BodyFrames.RoundTrip.{send_all, joined, empty_sink, read_frames-send_all}
use berth_agent.AgentSign.Responder.{Environment}
use berth_agent.AgentSign.Responder.Phases.{Call, set_status, put, take_over}

abbrev two_fields : List Text
two_fields = codes "GET" ∷ codes "/api" ∷ []

-- Some function with results of 32 bytes.
abbrev sample_hmac : Text → Text → Text
sample_hmac key message = put_uint 32 (uint (key ++ message))

length-sample_hmac : (k m : Text) → length (sample_hmac k m) ≡ 32
length-sample_hmac k m = length-put_uint 32 (uint (k ++ m))

abbrev sample_key : Text
sample_key = codes "key"

unwrap_all-wrap_all_example :
    (unwrap_all sample_hmac
      (new_frame_reader sample_key direction_to_agent)
      (wrap_all sample_hmac (new_frame_writer sample_key direction_to_agent) two_fields)).1
    ≡ map ok two_fields
unwrap_all-wrap_all_example =
    unwrap_all-wrap_all sample_hmac length-sample_hmac
      (new_frame_writer sample_key direction_to_agent)
      (new_frame_reader sample_key direction_to_agent) two_fields
      (new-InSync sample_key direction_to_agent)

abbrev first_frame : Text
first_frame = (wrap sample_hmac (new_frame_writer sample_key direction_to_agent) (codes "ls")).1

first_accepted :
    (unwrap sample_hmac (new_frame_reader sample_key direction_to_agent) first_frame).1
    ≡ ok (codes "ls")
first_accepted =
    (unwrap-wrap sample_hmac length-sample_hmac (new_frame_writer sample_key direction_to_agent)
      (new_frame_reader sample_key direction_to_agent) (codes "ls")
      (new-InSync sample_key direction_to_agent)).0

unwrap-refuses_replay_example :
    let r = new_frame_reader sample_key direction_to_agent in
    (unwrap sample_hmac
      (unwrap_all sample_hmac (unwrap sample_hmac r first_frame).0 (first_frame ∷ [])).0
      first_frame).1
    ≡ err frame_rejected
unfolding new_frame_reader
unwrap-refuses_replay_example =
    unwrap-refuses_replay sample_hmac (new_frame_reader sample_key direction_to_agent) first_frame
      (codes "ls") (first_frame ∷ []) (omega arith) (omega arith) first_accepted

abbrev always : ℕ → Bool
always n = true

read_frames-send_all_example :
    (w : BodyWriter) × (frames : ℕ) × (send_all always sample_hmac
        (new_body_writer empty_sink sample_key)
        two_fields
      ≡ some w)
    × ((fuel : ℕ)
        → read_frames sample_hmac
            (frames + fuel)
            (new_frame_reader sample_key direction_body_to_berth)
            w.sink.written
          ≡ some (joined two_fields))
read_frames-send_all_example =
    read_frames-send_all sample_hmac length-sample_hmac always (λ n. refl) sample_key two_fields

abbrev sample_environment : Environment
sample_environment = record {
  hijackable = true;
  accepts = always;
  hmac = sample_hmac;
  sha256 = λ s. s;
  session_key = some sample_key;
}

abbrev sample_calls : List Call
sample_calls = set_status 404 ∷ put (codes "no") ∷ take_over ∷ []
