-- ===== src/AgentSign/Verifier/Replay.antt =====
-- An accepted request is accepted once.
use mathlib.Core.Path.{subst₂}
use berth_agent.Prelude.{
  subst, subst, ℕ, ◌+◌, ◌*◌, ◌≤◌, ◌≡◌, refl, ap, sym, ◌∙◌, inl, inr, true, some, List, [], ◌∷◌,
  arith, ok, err, Text, All,
}
use berth_agent.Prelude.{Result-cases}
use berth_agent.Prelude.Int.{ℤ, pos, negsuc}
use berth_agent.AgentSign.Nonces.{admit, seen_at}
use berth_agent.AgentSign.Nonces.Laws.{
  admit-refuses, seen_at-admit, seen_at-admit_fresh, retain-admit,
}
use berth_agent.AgentSign.Verifier.Authentic.{verify_request-IsAuthentic}
use berth_agent.AgentSign.Crypto.{Crypto}
use berth_agent.AgentSign.Verifier.{
  Request, Rejection, rejected, within_skew, Verifier, authenticate, settle, verify_request,
  header_timestamp, header_nonce,
}

-- Two times at which one timestamp is accepted are at most twice the skew apart.
within_skew_window :
    (skew now now' : ℕ) (z : ℤ)
    → within_skew skew now z ≡ true
    → within_skew skew now' z ≡ true
    → now' ≤ now + 2 * skew
unfolding within_skew
within_skew_window skew now now' (pos t) h h' = ground arith
within_skew_window skew now now' (negsuc n) h h' = ground arith

module _ (crypto : Crypto) where
  open crypto use {Certificate}

  pub serve : Verifier crypto → List (ℕ × Request) → Verifier crypto
  serve v [] = v
  serve v ((now, req) ∷ rest) = serve (verify_request crypto v now req).0 rest

  record Knows (nonce : Text) (at skew : ℕ) (v : Verifier crypto) : Type 0 where
    known : seen_at nonce v.nonces.seen ≡ some at
    kept : v.nonces.retain ≡ 2 * skew
    skewed : v.skew ≡ skew

  settle-Knows :
      (nonce other : Text) (at skew now : ℕ) (v : Verifier crypto) (certificate : Certificate)
      → now ≤ at + 2 * skew
      → Knows nonce at skew v
      → Knows nonce at skew (settle crypto v certificate (admit v.nonces other now)).0
  unfolding settle
  settle-Knows nonce other at skew now v certificate h k = record {
    known = seen_at-admit v.nonces nonce at k.known other now (omega (arith, k.kept));
    kept = retain-admit v.nonces other now ∙ k.kept;
    skewed = k.skewed;
  }

  verify_request-Knows :
      (nonce : Text) (at skew now : ℕ) (v : Verifier crypto) (req : Request)
      → now ≤ at + 2 * skew
      → Knows nonce at skew v
      → Knows nonce at skew (verify_request crypto v now req).0
  unfolding verify_request
  verify_request-Knows nonce at skew now v req h k =
      elim (Result-cases (authenticate crypto v now req)) [
        | inl (certificate, e) ↦
            rw (e, verify_request) (settle-Knows nonce _ at skew now v certificate h k)
        | inr (r, e) ↦ rw (e, verify_request) k
      ]

  serve-Knows :
      (nonce : Text) (at skew : ℕ) (v : Verifier crypto) (requests : List (ℕ × Request))
      → All (λ r. r.0 ≤ at + 2 * skew) requests
      → Knows nonce at skew v
      → Knows nonce at skew (serve v requests)
  unfolding serve
  serve-Knows nonce at skew v [] h k = k
  serve-Knows nonce at skew v ((now, req) ∷ rest) h k =
      serve-Knows nonce at skew (verify_request crypto v now req).0 rest h.1
        (verify_request-Knows nonce at skew now v req h.0 k)

  accepted_fresh :
      (v : Verifier crypto) (now : ℕ) (req : Request) {certificate : Certificate}
      → (verify_request crypto v now req).1 ≡ ok certificate
      → (admit v.nonces (req.header header_nonce) now).1 ≡ true
  unfolding verify_request settle
  accepted_fresh v now req e = ground arith

  nonces-accepted :
      (v : Verifier crypto) (now : ℕ) (req : Request) {certificate : Certificate}
      → (verify_request crypto v now req).1 ≡ ok certificate
      → (verify_request crypto v now req).0
        ≡ record v { nonces = (admit v.nonces (req.header header_nonce) now).0 }
  unfolding verify_request settle
  nonces-accepted v now req e = ground arith

  accepted-Knows :
      (v : Verifier crypto) (now : ℕ) (req : Request) {certificate : Certificate}
      → v.nonces.retain ≡ 2 * v.skew
      → (verify_request crypto v now req).1 ≡ ok certificate
      → Knows (req.header header_nonce) now v.skew (verify_request crypto v now req).0
  accepted-Knows v now req fits e = rw (nonces-accepted v now req e) (record {
    known = seen_at-admit_fresh v.nonces _ now (accepted_fresh v now req e);
    kept = retain-admit v.nonces _ now ∙ fits;
    skewed = refl;
  })

  refuses_known :
      (v : Verifier crypto) (now : ℕ) (req : Request) (at skew : ℕ)
      → Knows (req.header header_nonce) at skew v
      → now ≤ at + 2 * skew
      → (verify_request crypto v now req).1 ≡ err rejected
  unfolding verify_request settle
  refuses_known v now req at skew k h = ground (
    arith,
    admit-refuses v.nonces (req.header header_nonce) at k.known now (omega (arith, k.kept)),
  )

  skew-verify_request :
      (v : Verifier crypto) (now : ℕ) (req : Request)
      → (verify_request crypto v now req).0.skew ≡ v.skew
  unfolding verify_request settle
  skew-verify_request v now req = ground arith

  skew-serve :
      (v : Verifier crypto) (requests : List (ℕ × Request)) → (serve v requests).skew ≡ v.skew
  unfolding serve
  skew-serve v [] = refl
  skew-serve v ((now, req) ∷ rest) =
      skew-serve (verify_request crypto v now req).0 rest ∙ skew-verify_request v now req

  All-le_trans :
      (a b : ℕ) (requests : List (ℕ × Request))
      → a ≤ b
      → All (λ r. r.0 ≤ a) requests
      → All (λ r. r.0 ≤ b) requests
  All-le_trans a b [] h k = tt
  All-le_trans a b (r ∷ rest) h k = (omega arith, All-le_trans a b rest h k.1)

  rejected_only : (r : Rejection) → r ≡ rejected
  rejected_only rejected = refl

  -- A request that was accepted once is not accepted again: after any requests that arrive in
  -- between, one with the same nonce and the same timestamp is rejected, whatever else it holds. The
  -- conditions are that the cache retains nonces for twice the skew, as `NewVerifier` sets it, and
  -- that no request in between is handled at a later time.
  pub verify_request-refuses_replay :
      (v : Verifier crypto) (now : ℕ) (req : Request) (certificate : Certificate)
      (between : List (ℕ × Request)) (now' : ℕ) (req' : Request)
      → v.nonces.retain ≡ 2 * v.skew
      → (verify_request crypto v now req).1 ≡ ok certificate
      → All (λ r. r.0 ≤ now') between
      → req'.header header_nonce ≡ req.header header_nonce
      → req'.header header_timestamp ≡ req.header header_timestamp
      → (verify_request crypto (serve (verify_request crypto v now req).0 between) now' req').1
        ≡ err rejected
  verify_request-refuses_replay v now req certificate between now' req' fits e earlier same same' =
      elim (Result-cases (verify_request crypto w now' req').1) [
        | inr (r, refused) ↦ refused ∙ ap err (rejected_only r)
        | inl (c, again) ↦ absurd (never c again)
      ]
    where
      w : Verifier crypto
      w = serve (verify_request crypto v now req).0 between

      skewed : w.skew ≡ v.skew
      skewed =
          skew-serve (verify_request crypto v now req).0 between ∙ skew-verify_request v now req

      never : (c : Certificate) → (verify_request crypto w now' req').1 ≡ ok c → ⊥
      never c again =
          let first = verify_request-IsAuthentic crypto v now req certificate e in
          let second = verify_request-IsAuthentic crypto w now' req' c again in
          let one : second.timestamp ≡ first.timestamp = cc (first.timed, second.timed) in
          let timely : within_skew v.skew now' first.timestamp ≡ true =
            subst₂ (λ k z. within_skew k now' z ≡ true) skewed one second.timely in
          let near = within_skew_window v.skew now now' first.timestamp first.timely timely in
          let knows =
            serve-Knows (req.header header_nonce) now v.skew _ between
              (All-le_trans now' (now + 2 * v.skew) between near earlier)
              (accepted-Knows v now req fits e) in
          let knows' = subst (λ n. Knows n now v.skew w) (sym same) knows in
          cc (refuses_known w now' req' now v.skew knows' near, again)
