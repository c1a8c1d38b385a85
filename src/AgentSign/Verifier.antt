-- ===== src/AgentSign/Verifier.antt =====
-- internal/agentsign/agentsign.go: whether a request is one that berth signed, once.
pub mod Authentic
pub mod Replay
use berth_agent.Prelude.{
  ℕ, ◌+◌, ◌*◌, Bool, not, ◌&&◌, Option, none, some, [], ◌∷◌, Text, codes, text_eq, leb,
  if◌then◌else◌, Result, ok, err, ◌>>=◌, ◌>>◌, check, suc,
}
use berth_agent.Prelude.Int.{ℤ, pos, negsuc}
use berth_agent.Encoding.Decimal.{parse_int}
use berth_agent.Encoding.Hex.{hex}
use berth_agent.AgentSign.Canonical.{request_base}
use berth_agent.AgentSign.Nonces.{NonceCache, new_nonce_cache, admit}
use berth_agent.AgentSign.Crypto.{Crypto}

abbrev pub header_signature : Text
header_signature = codes "X-Berth-Signature"

abbrev pub header_certificate : Text
header_certificate = codes "X-Berth-Certificate"

abbrev pub header_timestamp : Text
header_timestamp = codes "X-Berth-Timestamp"

abbrev pub header_nonce : Text
header_nonce = codes "X-Berth-Nonce"

abbrev pub header_body_digest : Text
header_body_digest = codes "X-Berth-Body-Digest"

abbrev pub server_identity : Text
server_identity = codes "berth-server"

abbrev pub content_type : Text
content_type = codes "Content-Type"

-- What is read of an *http.Request.
pub record Request : Type 0 where
  pub method : Text
  -- req.URL.RequestURI()
  pub target : Text
  -- req.Header.Get
  pub header : Text → Text

-- ErrRejected
pub data Rejection : Type 0 where
  rejected : Rejection

or_rejected {ℓ} : {A : Type ℓ} → Option A → Result Rejection A
or_rejected none = err rejected
or_rejected (some a) = ok a

-- `err != nil || len(decoded) == 0`
nonempty : Option Text → Result Rejection Text
nonempty none = err rejected
nonempty (some []) = err rejected
nonempty (some (b ∷ s)) = ok (b ∷ s)

abbrev second : ℕ
second = 1_000_000_000

-- Not `difference > v.skew || difference < -v.skew`, for the difference of `now` and
-- `time.Unix(timestamp, 0)`.
pub within_skew : ℕ → ℕ → ℤ → Bool
within_skew skew now (pos t) = leb now (t * second + skew) && leb (t * second) (now + skew)
within_skew skew now (negsuc n) = leb (now + suc n * second) skew

module _ (crypto : Crypto) where
  open crypto use {
    CertPool, Certificate, decode_base64, parse_certificate, chain_verifies, hostname_verifies,
    ecdsa_key, sha256, verify_asn1,
  }

  pub record Verifier : Type 0 where
    pub authority : CertPool
    pub identity : Text
    pub skew : ℕ
    pub nonces : NonceCache

  -- NewVerifier, with the certificates of the authority file if it holds any.
  pub new_verifier : Option CertPool → Text → ℕ → ℕ → Option Verifier
  new_verifier none identity skew now = none
  new_verifier (some authority) identity skew now =
      if text_eq identity []
      then none
      else some (record {
        authority = authority;
        identity = identity;
        skew = skew;
        nonces = new_nonce_cache (2 * skew) now;
      })

  -- `VerifyRequest` up to the nonce cache, at the time `now`.
  unfoldable pub authenticate : Verifier → ℕ → Request → Result Rejection Certificate
  unfolding or_rejected nonempty within_skew
  authenticate v now req = do
    signature ← nonempty (decode_base64 (req.header header_signature))
    certificate_der ← nonempty (decode_base64 (req.header header_certificate))
    let nonce = req.header header_nonce
    check (not (text_eq nonce [])) rejected
    timestamp ← or_rejected (parse_int (req.header header_timestamp))
    check (within_skew v.skew now timestamp) rejected
    certificate ← or_rejected (parse_certificate certificate_der)
    check (chain_verifies v.authority now certificate) rejected
    check (hostname_verifies certificate server_identity) rejected
    public_key ← or_rejected (ecdsa_key certificate)
    let base =
        request_base v.identity req.method req.target (req.header content_type)
          (req.header header_body_digest) timestamp nonce
    check (verify_asn1 public_key (sha256 base) signature) rejected
    ok certificate

  -- What `VerifyRequest` does with the answer of the nonce cache.
  settle : Verifier → Certificate → NonceCache × Bool → Verifier × Result Rejection Certificate
  settle v certificate (nonces, fresh) =
      (record v { nonces = nonces }, if fresh then ok certificate else err rejected)

  unfoldable pub verify_request : Verifier → ℕ → Request → Verifier × Result Rejection Certificate
  unfolding settle
  verify_request v now req = elim (authenticate v now req) [
    | ok certificate ↦ settle v certificate (admit v.nonces (req.header header_nonce) now)
    | err e ↦ (v, err e)
  ]

  unfoldable pub body_digest : Text → Text
  body_digest body = hex (sha256 body)

  -- `VerifyBody`: no error.
  unfoldable pub verify_body : Request → Text → Bool
  verify_body req body = text_eq (body_digest body) (req.header header_body_digest)
