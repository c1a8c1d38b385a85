-- ===== src/AgentSign/Canonical.antt =====
-- internal/agentsign/agentsign.go: the byte strings that are signed.
pub mod Laws
use berth_agent.Prelude.{ℕ, ◌%◌, ◌^◌, List, [], ◌∷◌, ◌++◌, Text, codes, length}
use berth_agent.Prelude.Int.{ℤ, pos}
use berth_agent.Encoding.BigEndian.{put_uint}
use berth_agent.Encoding.Decimal.{format_int}

abbrev pub request_context : Text
request_context = codes "berth-request-v1"

abbrev pub response_context : Text
response_context = codes "berth-response-v1"

-- The loop of `Canonical`: each field behind its length, cut to a uint32.
unfoldable pub canonical : List Text → Text
canonical [] = []
canonical (field ∷ fields) = put_uint 4 (length field % 2 ^ 32) ++ (field ++ canonical fields)

-- The arguments that `RequestBase` passes on to `Canonical`.
abbrev pub request_fields : Text → Text → Text → Text → Text → ℤ → Text → List Text
request_fields audience method target content_type body_digest timestamp nonce =
    request_context
    ∷ audience
    ∷ method
    ∷ target
    ∷ content_type
    ∷ body_digest
    ∷ format_int timestamp
    ∷ nonce
    ∷ []

unfoldable pub request_base : Text → Text → Text → Text → Text → ℤ → Text → Text
request_base audience method target content_type body_digest timestamp nonce =
    canonical (request_fields audience method target content_type body_digest timestamp nonce)

-- The arguments that `ResponseBase` passes on; an HTTP status is not negative.
abbrev pub response_fields : Text → ℕ → Text → Text → ℤ → List Text
response_fields request_nonce status content_type body_digest timestamp =
    response_context
    ∷ request_nonce
    ∷ format_int (pos status)
    ∷ content_type
    ∷ body_digest
    ∷ format_int timestamp
    ∷ []

pub response_base : Text → ℕ → Text → Text → ℤ → Text
response_base request_nonce status content_type body_digest timestamp =
    canonical (response_fields request_nonce status content_type body_digest timestamp)
