-- ===== src/AgentSign/Tests.antt =====
-- internal/agentsign: runs at concrete inputs.
mod Streams
use berth_agent.Prelude.{
  ℕ, ◌-◌, ◌≡◌, ◌≢◌, refl, Bool, true, false, Option, some, List, [], ◌∷◌, arith, ok, err, Text,
  codes, text_eq, if◌then◌else◌, All,
}
use berth_agent.Prelude.Int.{pos}
use berth_agent.Encoding.BigEndian.{put_uint}
use berth_agent.Encoding.Decimal.{parse_int, format_int}
use berth_agent.AgentSign.Canonical.{
  request_base, response_base, canonical, request_fields, response_fields,
}
use berth_agent.AgentSign.Canonical.Laws.{
  FitsLength, canonical-injective, request_base-injective, request_base-ne-response_base,
}
use berth_agent.AgentSign.Crypto.{Crypto}
use berth_agent.AgentSign.Nonces.{admit}
use berth_agent.AgentSign.Verifier.{
  body_digest, Request, Verifier, authenticate, verify_request, rejected, header_timestamp,
  header_signature, header_body_digest, verify_body,
}
use berth_agent.AgentSign.Verifier.Authentic.{IsAuthentic, verify_request-IsAuthentic}
use berth_agent.AgentSign.Verifier.Replay.{serve, verify_request-refuses_replay}
use berth_agent.Encoding.Hex.{hex}
use berth_agent.AgentSign.Body.{read_body, limited_read}
use berth_agent.AgentSign.Body.Limits.{verdict, breaks_off, whole_body, read_body_lem}
use berth_agent.AgentSign.Middleware.{Outcome, middleware, passed}
use berth_agent.AgentSign.Middleware.Admission.{
  IsAdmitted, middleware-IsAdmitted, IsAnswered, middleware-IsAnswered,
}

-- A hash that keeps its input, and signatures that are the digest itself; the authority issued every
-- certificate to berth.
abbrev trusting : Crypto
trusting = record {
  CertPool = Unit {0};
  Certificate = Text;
  PublicKey = Unit {0};
  decode_base64 = λ s. some s;
  parse_certificate = λ s. some s;
  chain_verifies = λ roots now certificate. true;
  hostname_verifies = λ certificate name. true;
  ecdsa_key = λ certificate. some tt;
  sha256 = λ s. s;
  verify_asn1 = λ key digest signature. text_eq digest signature;
}

abbrev sample_signature : Text
sample_signature =
    request_base (codes "agent-1") (codes "GET") (codes "/api/stacks") (codes "abc") (codes "6869")
      (pos 5) (codes "abc")

abbrev sample_headers : Text → Text
sample_headers name =
    if text_eq name header_timestamp
    then codes "5"
    else if text_eq name header_signature
    then sample_signature
    else if text_eq name header_body_digest
    then codes "6869"
    else codes "abc"

abbrev sample_request : Request
sample_request = record {
  method = codes "GET";
  target = codes "/api/stacks";
  header = sample_headers;
}

abbrev sample_verifier : Verifier trusting
sample_verifier = record {
  authority = tt;
  identity = codes "agent-1";
  skew = 1_000_000_000;
  nonces = record { seen = []; retain = 2_000_000_000; swept = 0 };
}

sample_accepted :
    (verify_request trusting sample_verifier 5_000_000_000 sample_request).1 ≡ ok (codes "abc")
unfolding verify_request authenticate parse_int request_base canonical admit text_eq put_uint
    format_int
sample_accepted = refl

verify_request-IsAuthentic_example :
    IsAuthentic trusting sample_verifier 5_000_000_000 sample_request (codes "abc")
verify_request-IsAuthentic_example =
    verify_request-IsAuthentic trusting sample_verifier 5_000_000_000 sample_request (codes "abc")
      sample_accepted

verify_request-refuses_replay_example :
    (verify_request trusting
      (serve trusting
        (verify_request trusting sample_verifier 5_000_000_000 sample_request).0
        ((5_500_000_000, sample_request) ∷ []))
      6_000_000_000
      sample_request).1
    ≡ err rejected
verify_request-refuses_replay_example =
    verify_request-refuses_replay trusting sample_verifier 5_000_000_000 sample_request
      (codes "abc") ((5_500_000_000, sample_request) ∷ []) 6_000_000_000 sample_request refl
      sample_accepted (omega arith, tt) refl refl

-- The body comes in two pieces.
abbrev sample_body : Option (List Text × Bool)
sample_body = some (codes "h" ∷ codes "i" ∷ [], false)

abbrev buffer_room : ℕ → ℕ
buffer_room k = 512

sample_passed :
    (middleware trusting buffer_room sample_verifier 5_000_000_000 sample_request sample_body
      1024).1
    ≡ some (passed (codes "abc") (codes "abc") (codes "hi"))
unfolding middleware body_digest verify_body verify_request authenticate parse_int request_base
    canonical admit text_eq put_uint format_int hex read_body limited_read
sample_passed = refl

middleware-IsAdmitted_example :
    IsAdmitted trusting sample_verifier 5_000_000_000 sample_request sample_body 1024
      (codes "abc")
      (codes "abc")
      (codes "hi")
middleware-IsAdmitted_example =
    middleware-IsAdmitted trusting buffer_room (λ k. omega arith) sample_verifier 5_000_000_000
      sample_request sample_body 1024 (codes "abc") (codes "abc") (codes "hi") sample_passed

middleware-IsAnswered_example :
    (outcome : Outcome trusting) × ((middleware trusting buffer_room sample_verifier 0
        sample_request sample_body 1).1
      ≡ some outcome)
    × IsAnswered trusting sample_verifier 0 sample_request sample_body 1 outcome
middleware-IsAnswered_example =
    middleware-IsAnswered trusting buffer_room (λ k. omega arith) sample_verifier 0 sample_request
      sample_body 1

read_body_lem_example :
    read_body buffer_room sample_body 1
    ≡ some (verdict 1 (breaks_off sample_body) (whole_body sample_body))
read_body_lem_example = read_body_lem buffer_room (λ k. omega arith) sample_body 1

abbrev two_fields : List Text
two_fields = codes "GET" ∷ codes "/api" ∷ []

canonical-injective_example : two_fields ≡ two_fields
canonical-injective_example =
    canonical-injective two_fields two_fields (omega arith, (omega arith, tt))
      (omega arith, (omega arith, tt)) refl

abbrev sample_fields : List Text
sample_fields =
    request_fields (codes "agent-1") (codes "GET") (codes "/api") [] (codes "ab") (pos 5)
      (codes "n1")

sample_fits : All FitsLength sample_fields
unfolding format_int
sample_fits = (
  omega arith,
  (
    omega arith,
    (omega arith, (omega arith, (omega arith, (omega arith, (omega arith, (omega arith, tt)))))),
  ),
)

sample_response_fits : All FitsLength (response_fields (codes "n1") 200 [] (codes "ab") (pos 5))
unfolding format_int
sample_response_fits =
    (omega arith, (omega arith, (omega arith, (omega arith, (omega arith, (omega arith, tt))))))

request_base-injective_example :
    (codes "agent-1" ≡ codes "agent-1")
    × (codes "GET" ≡ codes "GET")
    × (codes "/api" ≡ codes "/api")
    × (◌≡◌ {A = Text} [] [])
    × (codes "ab" ≡ codes "ab")
    × (pos 5 ≡ pos 5)
    × (codes "n1" ≡ codes "n1")
request_base-injective_example =
    request_base-injective (codes "agent-1") (codes "agent-1") (codes "GET") (codes "GET")
      (codes "/api") (codes "/api") [] [] (codes "ab") (codes "ab") (pos 5) (pos 5) (codes "n1")
      (codes "n1") sample_fits sample_fits (omega arith) (omega arith) refl

request_base-ne-response_base_example :
    request_base (codes "agent-1") (codes "GET") (codes "/api") [] (codes "ab") (pos 5) (codes "n1")
    ≢ response_base (codes "n1") 200 [] (codes "ab") (pos 5)
request_base-ne-response_base_example =
    request_base-ne-response_base (codes "agent-1") (codes "GET") (codes "/api") [] (codes "ab")
      (pos 5) (codes "n1") (codes "n1") 200 [] (codes "ab") (pos 5) sample_fits sample_response_fits
