-- ===== src/AgentSign/Verifier/Authentic.antt =====
-- What an accepted request has shown.
use berth_agent.Prelude.{
  ◌↔◌, subst, ℕ, ◌≡◌, ◌≢◌, ap, ◌∙◌, true, not, Option, none, some, [], ◌∷◌, arith, ok, Text,
  text_eq, text_eq_iff,
}
use berth_agent.Prelude.{bind-eq-ok, check-bind-eq-ok}
use berth_agent.Prelude.Int.{ℤ}
use berth_agent.Encoding.Decimal.{parse_int}
use berth_agent.AgentSign.Canonical.{request_base}
use berth_agent.AgentSign.Crypto.{Crypto}
use berth_agent.AgentSign.Verifier.{
  body_digest, verify_body, Request, or_rejected, nonempty, within_skew, Verifier, authenticate,
  settle, verify_request, header_signature, header_certificate, header_timestamp, header_nonce,
  header_body_digest, server_identity, content_type,
}

or_rejected-eq-ok {ℓ} : {A : Type ℓ} (o : Option A) {a : A} → or_rejected o ≡ ok a → o ≡ some a
unfolding or_rejected
or_rejected-eq-ok none h = cc
or_rejected-eq-ok (some a) h = cc

nonempty-eq-ok : (o : Option Text) {s : Text} → nonempty o ≡ ok s → (o ≡ some s) × (s ≢ [])
unfolding nonempty
nonempty-eq-ok none h = cc
nonempty-eq-ok (some []) h = cc
nonempty-eq-ok (some (b ∷ s)) h = (cc, cc)

ne-nil_of_test : (s : Text) → not (text_eq s []) ≡ true → s ≢ []
ne-nil_of_test s h e = ground (arith, text_eq_iff s [])

module _ (crypto : Crypto) where
  open crypto use {
    Certificate, PublicKey, decode_base64, parse_certificate, chain_verifies, hostname_verifies,
    ecdsa_key, sha256, verify_asn1,
  }

  -- What a request must show to be authenticated by this certificate.
  pub record IsAuthentic (v : Verifier crypto) (now : ℕ) (req : Request) (certificate : Certificate)
      : Type 0 where
    pub signature : Text
    pub certificate_der : Text
    pub timestamp : ℤ
    pub public_key : PublicKey
    pub signed : decode_base64 (req.header header_signature) ≡ some signature
    pub presented : decode_base64 (req.header header_certificate) ≡ some certificate_der
    pub nonce_given : req.header header_nonce ≢ []
    pub timed : parse_int (req.header header_timestamp) ≡ some timestamp
    pub timely : within_skew v.skew now timestamp ≡ true
    pub parsed : parse_certificate certificate_der ≡ some certificate
    pub chained : chain_verifies v.authority now certificate ≡ true
    pub named : hostname_verifies certificate server_identity ≡ true
    pub keyed : ecdsa_key certificate ≡ some public_key
    pub verified :
        verify_asn1 public_key
          (sha256 (
            request_base v.identity req.method req.target
              (req.header content_type)
              (req.header header_body_digest)
              timestamp
              (req.header header_nonce)))
          signature
        ≡ true

  -- `VerifyBody` returns no error exactly for a body with the digest that the header gives.
  pub verify_body_iff :
      (req : Request) (body : Text)
      → (verify_body crypto req body ≡ true)
        ↔ (body_digest crypto body ≡ req.header header_body_digest)
  unfolding verify_body
  verify_body_iff req body = text_eq_iff _ _

  pub authenticate-IsAuthentic :
      (v : Verifier crypto) (now : ℕ) (req : Request) (certificate : Certificate)
      → authenticate crypto v now req ≡ ok certificate
      → IsAuthentic v now req certificate
  unfolding authenticate
  authenticate-IsAuthentic v now req certificate e =
      let (signature, a, e₁) =
        bind-eq-ok (nonempty (decode_base64 (req.header header_signature))) _ e in
      let (certificate_der, b, e₂) =
        bind-eq-ok (nonempty (decode_base64 (req.header header_certificate))) _ e₁ in
      let (c, e₃) = check-bind-eq-ok (not (text_eq (req.header header_nonce) [])) _ _ e₂ in
      let (timestamp, d, e₄) =
        bind-eq-ok (or_rejected (parse_int (req.header header_timestamp))) _ e₃ in
      let (f, e₅) = check-bind-eq-ok (within_skew v.skew now timestamp) _ _ e₄ in
      let (found, g, e₆) = bind-eq-ok (or_rejected (parse_certificate certificate_der)) _ e₅ in
      let (h, e₇) = check-bind-eq-ok (chain_verifies v.authority now found) _ _ e₆ in
      let (i, e₈) = check-bind-eq-ok (hostname_verifies found server_identity) _ _ e₇ in
      let (public_key, j, e₉) = bind-eq-ok (or_rejected (ecdsa_key found)) _ e₈ in
      let base =
        request_base v.identity req.method req.target (req.header content_type)
          (req.header header_body_digest) timestamp (req.header header_nonce) in
      let (k, last) = check-bind-eq-ok (verify_asn1 public_key (sha256 base) signature) _ _ e₉ in
      let same : found ≡ certificate = cc in
      record {
        signature = signature;
        certificate_der = certificate_der;
        timestamp = timestamp;
        public_key = public_key;
        signed = (nonempty-eq-ok _ a).0;
        presented = (nonempty-eq-ok _ b).0;
        nonce_given = ne-nil_of_test (req.header header_nonce) c;
        timed = or_rejected-eq-ok _ d;
        timely = f;
        parsed = or_rejected-eq-ok _ g ∙ ap some same;
        chained = subst (λ c. chain_verifies v.authority now c ≡ true) same h;
        named = subst (λ c. hostname_verifies c server_identity ≡ true) same i;
        keyed = subst (λ c. ecdsa_key c ≡ some public_key) same (or_rejected-eq-ok _ j);
        verified = k;
      }

  pub accepted_by :
      (v : Verifier crypto) (now : ℕ) (req : Request) {certificate : Certificate}
      → (verify_request crypto v now req).1 ≡ ok certificate
      → authenticate crypto v now req ≡ ok certificate
  unfolding verify_request settle
  accepted_by v now req e = ground arith

  -- A request that is accepted at a time was authentic at that time: it carried a nonce, a
  -- timestamp within the skew, and a signature of its own signed byte string by the key of a
  -- certificate that the authority issued to berth.
  pub verify_request-IsAuthentic :
      (v : Verifier crypto) (now : ℕ) (req : Request) (certificate : Certificate)
      → (verify_request crypto v now req).1 ≡ ok certificate
      → IsAuthentic v now req certificate
  verify_request-IsAuthentic v now req certificate e =
      authenticate-IsAuthentic v now req certificate (accepted_by v now req e)
