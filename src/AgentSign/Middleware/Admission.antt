-- ===== src/AgentSign/Middleware/Admission.antt =====
-- internal/agentsign/middleware.go: which requests reach a handler.
use berth_agent.Prelude.{
  subst, ℕ, ◌≤◌, ◌<◌, ◌≡◌, refl, ap, ◌∙◌, inl, inr, Bool, true, false, Option, some, List, arith,
  Result, ok, err, Text, Bool-cases, length,
}
use berth_agent.Prelude.{Result-cases}
use berth_agent.AgentSign.Crypto.{Crypto}
use berth_agent.AgentSign.Verifier.{
  Request, Rejection, Verifier, verify_request, verify_body, body_digest, header_nonce,
  header_body_digest,
}
use berth_agent.AgentSign.Verifier.Authentic.{
  verify_body_iff, IsAuthentic, verify_request-IsAuthentic,
}
use berth_agent.AgentSign.Body.{BodyError}
use berth_agent.AgentSign.Body.Limits.{verdict, whole_body, breaks_off, read_body_lem}
use berth_agent.Prelude.{◌⊎◌, codes, err}
use berth_agent.AgentSign.Middleware.{
  Outcome, refused, passed, middleware, request_verified, body_read,
}

module _ (crypto : Crypto) where
  open crypto use {Certificate}

  -- What a request shows whose handler is called with this peer, nonce and body.
  pub record IsAdmitted (v : Verifier crypto) (now : ℕ) (req : Request)
      (sent : Option (List Text × Bool)) (limit : ℕ) (peer : Certificate) (nonce body : Text)
      : Type 0 where
    pub authentic : IsAuthentic crypto v now req peer
    pub same_nonce : nonce ≡ req.header header_nonce
    pub same_body : body ≡ whole_body sent
    pub complete : breaks_off sent ≡ false
    pub short : length body ≤ limit
    pub digested : body_digest crypto body ≡ req.header header_body_digest

  -- What the last two answers of the middleware have shown.
  record Passes (req : Request) (r : Result BodyError Text) (peer peer' : Certificate)
      (nonce body : Text) : Type 0 where
    read : r ≡ ok body
    checked : verify_body crypto req body ≡ true
    peer_kept : peer ≡ peer'
    nonce_kept : nonce ≡ req.header header_nonce

  Passes-body_read :
      (req : Request) (r : Result BodyError Text) (peer peer' : Certificate) (nonce body : Text)
      → body_read crypto req peer (some r) ≡ some (passed peer' nonce body)
      → Passes req r peer peer' nonce body
  unfolding body_read
  Passes-body_read req (err e) peer peer' nonce body h = absurd (cc)
  Passes-body_read req (ok b) peer peer' nonce body h =
      elim (Bool-cases (verify_body crypto req b)) [
        | inl good ↦
            let k : some (passed peer (req.header header_nonce) b)
                ≡ some (passed peer' nonce body) =
              rw (good, body_read) at h in
            let same : b ≡ body = cc in
            record {
              read = ap ok same;
              checked = subst (λ t. verify_body crypto req t ≡ true) same good;
              peer_kept = cc;
              nonce_kept = cc;
            }
        | inr bad ↦ absurd (cc (rw (bad, body_read) at h))
      ]

  verdict_ok :
      (limit : ℕ) (broken : Bool) (w body : Text)
      → verdict limit broken w ≡ ok body
      → (body ≡ w) × (broken ≡ false) × (length w ≤ limit)
  verdict_ok limit broken w body h = ground arith

  module _ (v : Verifier crypto) (now : ℕ) (req : Request) (sent : Option (List Text × Bool))
      (limit : ℕ) where
    -- The answers of the middleware, with what a request shows that gets them.
    pub data IsAnswered : Outcome crypto → Type 0 where
      unauthentic :
          (rejection : Rejection)
          → (verify_request crypto v now req).1 ≡ err rejection
          → IsAnswered (refused 401 (codes "Invalid request signature"))
      unread :
          (peer : Certificate)
          → (verify_request crypto v now req).1 ≡ ok peer
          → (breaks_off sent ≡ true) ⊎ (limit < length (whole_body sent))
          → IsAnswered (refused 413 (codes "Request too large"))
      altered :
          (peer : Certificate)
          → (verify_request crypto v now req).1 ≡ ok peer
          → breaks_off sent ≡ false
          → length (whole_body sent) ≤ limit
          → ¬ (body_digest crypto (whole_body sent) ≡ req.header header_body_digest)
          → IsAnswered (refused 401 (codes "Invalid request signature"))
      accepted :
          (peer : Certificate)
          → (verify_request crypto v now req).1 ≡ ok peer
          → breaks_off sent ≡ false
          → length (whole_body sent) ≤ limit
          → body_digest crypto (whole_body sent) ≡ req.header header_body_digest
          → IsAnswered (passed peer (req.header header_nonce) (whole_body sent))

  module _ (sizes : ℕ → ℕ) (room : (k : ℕ) → 0 < sizes k) (v : Verifier crypto) (now : ℕ)
      (req : Request) (sent : Option (List Text × Bool)) (limit : ℕ) where
    body_read-IsAdmitted :
        (found : Certificate) (peer : Certificate) (nonce body : Text)
        → (verify_request crypto v now req).1 ≡ ok found
        → body_read crypto req found (some (verdict limit (breaks_off sent) (whole_body sent)))
          ≡ some (passed peer nonce body)
        → IsAdmitted v now req sent limit peer nonce body
    body_read-IsAdmitted found peer nonce body e h =
        let p = Passes-body_read req _ found peer nonce body h in
        let (same, unbroken, short) =
          verdict_ok limit (breaks_off sent) (whole_body sent) body p.read in
        record {
          authentic = verify_request-IsAuthentic crypto v now req peer (e ∙ ap ok p.peer_kept);
          same_nonce = p.nonce_kept;
          same_body = same;
          complete = unbroken;
          short = rw same short;
          digested = (verify_body_iff crypto req body).0 p.checked;
        }

    -- A handler is called only for a request that is authentic, with the certificate and the nonce of
    -- that request, and with the body that was sent, whole, within the limit, and of the digest that
    -- the request's signature covers; each read of the body has room for at least one byte.
    pub middleware-IsAdmitted :
        (peer : Certificate) (nonce body : Text)
        → (middleware crypto sizes v now req sent limit).1 ≡ some (passed peer nonce body)
        → IsAdmitted v now req sent limit peer nonce body
    unfolding middleware
    middleware-IsAdmitted peer nonce body h =
        let k = rw (read_body_lem sizes room sent limit, middleware) at h in
        elim (Result-cases (verify_request crypto v now req).1) [
          | inl (found, e) ↦
              body_read-IsAdmitted found peer nonce body e (rw (e, request_verified) at k)
          | inr (r, e) ↦ absurd (cc (rw (e, request_verified) at k))
        ]

    middleware_lem :
        (middleware crypto sizes v now req sent limit).1
        ≡ request_verified crypto req
            (some (verdict limit (breaks_off sent) (whole_body sent)))
            (verify_request crypto v now req).1
    unfolding middleware
    middleware_lem =
        ap (λ r. request_verified crypto req r (verify_request crypto v now req).1)
          (read_body_lem sizes room sent limit)

    verdict-cases :
        (broken : Bool) (w : Text)
        → ((broken ≡ false) × (length w ≤ limit) × (verdict limit broken w ≡ ok w))
          ⊎ (((broken ≡ true) ⊎ (limit < length w))
              × (e : BodyError) × (verdict limit broken w ≡ err e))
    verdict-cases broken w = ground arith

    body_read-IsAnswered :
        (peer : Certificate)
        → (verify_request crypto v now req).1 ≡ ok peer
        → (outcome : Outcome crypto) × (body_read crypto req peer
              (some (verdict limit (breaks_off sent) (whole_body sent)))
            ≡ some outcome)
          × IsAnswered v now req sent limit outcome
    unfolding body_read
    body_read-IsAnswered peer found = elim (verdict-cases (breaks_off sent) (whole_body sent)) [
      | inl (whole, short, read) ↦ elim (Bool-cases (verify_body crypto req (whole_body sent))) [
        | inl good ↦ (
          _,
          rw (read, good, body_read) refl,
          accepted peer found whole short ((verify_body_iff crypto req (whole_body sent)).0 good),
        )
        | inr bad ↦ (
          _,
          rw (read, bad, body_read) refl,
          altered peer found whole short
              (λ same. absurd (cc (bad, (verify_body_iff crypto req (whole_body sent)).1 same))),
        )
      ]
      | inr (why, e, read) ↦ (_, rw (read, body_read) refl, unread peer found why)
    ]

    -- Every request gets an answer, and the answer that it deserves: 401 if `VerifyRequest` rejects it,
    -- else 413 if its body breaks off or is longer than the limit, else 401 if the digest of the whole
    -- body is not the one that the signature covers; else the handler is called with the peer's
    -- certificate, the nonce of the request and the whole body. Each read of the body has room for at
    -- least one byte.
    pub middleware-IsAnswered :
        (outcome : Outcome crypto) × ((middleware crypto sizes v now req sent limit).1
          ≡ some outcome)
        × IsAnswered v now req sent limit outcome
    unfolding request_verified
    middleware-IsAnswered = elim (Result-cases (verify_request crypto v now req).1) [
      | inl (peer, found) ↦
          let (outcome, read, answered) = body_read-IsAnswered peer found in
          (outcome, middleware_lem ∙ rw (found, request_verified) read, answered)
      | inr (e, found) ↦
          (_, middleware_lem ∙ rw (found, request_verified) refl, unauthentic e found)
    ]
