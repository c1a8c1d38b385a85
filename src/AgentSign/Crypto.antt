-- ===== src/AgentSign/Crypto.antt =====
-- The primitives of crypto/x509, crypto/ecdsa, crypto/sha256, crypto/hmac and encoding/base64 that
-- internal/agentsign calls.
use berth_agent.Prelude.{ℕ, Bool, Option, Text}

pub record Crypto : Type 1 where
  pub CertPool : Type 0
  pub Certificate : Type 0
  pub PublicKey : Type 0
  -- base64.StdEncoding.DecodeString; `none` is an error
  pub decode_base64 : Text → Option Text
  -- x509.ParseCertificate
  pub parse_certificate : Text → Option Certificate
  -- certificate.Verify, with these roots and for client authentication, at a time
  pub chain_verifies : CertPool → ℕ → Certificate → Bool
  -- certificate.VerifyHostname
  pub hostname_verifies : Certificate → Text → Bool
  -- certificate.PublicKey, if it is an *ecdsa.PublicKey
  pub ecdsa_key : Certificate → Option PublicKey
  pub sha256 : Text → Text
  -- ecdsa.VerifyASN1, of a key, a digest and a signature
  pub verify_asn1 : PublicKey → Text → Text → Bool
