-- ===== src/AgentSign/Canonical/Laws.antt =====
-- Signed byte strings determine the fields that they were made of.
use berth_agent.Prelude.{
  length-append, ◌≢◌, ◌≢◌, ℕ, ◌%◌, ◌^◌, ◌<◌, ◌≡◌, refl, ap, sym, ◌∙◌, List, [], ◌∷◌, ◌++◌, arith,
  Text, length, All,
}
use berth_agent.Prelude.Int.{ℤ}
use berth_agent.Encoding.BigEndian.{put_uint, length-put_uint, put_uint-injective}
use berth_agent.Encoding.Decimal.{format_int, parse_int, IsInt64, parse_int-format_int}
use berth_agent.AgentSign.Canonical.{
  canonical, request_fields, request_base, response_fields, response_base,
}

-- A field whose length a uint32 holds.
abbrev pub FitsLength : Text → Type 0
FitsLength field = length field < 2 ^ 32

append-injective {ℓ} :
    {A : Type ℓ} (xs ys us vs : List A)
    → length xs ≡ length ys
    → xs ++ us ≡ ys ++ vs
    → (xs ≡ ys) × (us ≡ vs)
append-injective [] [] us vs h e = (refl, e)
append-injective [] (y ∷ ys) us vs h e = absurd (omega arith)
append-injective (x ∷ xs) [] us vs h e = absurd (omega arith)
append-injective (x ∷ xs) (y ∷ ys) us vs h e =
    let (p, q) = append-injective xs ys us vs (omega arith) (cc) in (cc, q)

canonical-ne-nil : (f : Text) (fs : List Text) → canonical (f ∷ fs) ≢ []
unfolding canonical
canonical-ne-nil f fs e = omega (
  arith,
  ap length e,
  length-append (put_uint 4 (length f % 2 ^ 32)) (f ++ canonical fs),
  length-put_uint 4 (length f % 2 ^ 32),
)

-- Two lists of fields with one encoding are the same list, if every field of both is shorter than
-- 2^32 bytes, so that its length is not cut off: no byte moves from one field to the next.
pub canonical-injective :
    (fs gs : List Text)
    → All FitsLength fs
    → All FitsLength gs
    → canonical fs ≡ canonical gs
    → fs ≡ gs
unfolding canonical
canonical-injective [] [] hf hg e = refl
canonical-injective [] (g ∷ gs) hf hg e = absurd (canonical-ne-nil g gs (sym e))
canonical-injective (f ∷ fs) [] hf hg e = absurd (canonical-ne-nil f fs e)
canonical-injective (f ∷ fs) (g ∷ gs) hf hg e =
    let (p, q) =
      append-injective (put_uint 4 (length f % 2 ^ 32)) (put_uint 4 (length g % 2 ^ 32)) _ _
        (length-put_uint 4 _ ∙ sym (length-put_uint 4 _)) e in
    let same : length f % 2 ^ 32 ≡ length g % 2 ^ 32 =
      put_uint-injective 4 _ _ (omega arith) (omega arith) p in
    let (r, s) = append-injective f g _ _ (omega arith) q in
    let t = canonical-injective fs gs hf.1 hg.1 s in cc

-- A decimal timestamp determines the int64.
format_int-injective : (x y : ℤ) → IsInt64 x → IsInt64 y → format_int x ≡ format_int y → x ≡ y
format_int-injective x y hx hy e =
    cc (parse_int-format_int x hx, parse_int-format_int y hy, ap parse_int e)

-- Two requests with one signed byte string have the same audience, method, target, content type,
-- body digest, timestamp and nonce, if every field's length fits into a uint32 and the timestamps
-- are int64 values.
pub request_base-injective :
    (audience audience' method method' target target' content_type content_type' : Text)
    (body_digest body_digest' : Text) (timestamp timestamp' : ℤ) (nonce nonce' : Text)
    → All FitsLength
        (request_fields audience method target content_type body_digest timestamp nonce)
    → All FitsLength
        (request_fields audience' method' target' content_type' body_digest' timestamp' nonce')
    → IsInt64 timestamp
    → IsInt64 timestamp'
    → request_base audience method target content_type body_digest timestamp nonce
      ≡ request_base audience' method' target' content_type' body_digest' timestamp' nonce'
    → (audience ≡ audience')
      × (method ≡ method')
      × (target ≡ target')
      × (content_type ≡ content_type')
      × (body_digest ≡ body_digest')
      × (timestamp ≡ timestamp')
      × (nonce ≡ nonce')
unfolding request_base
request_base-injective audience audience' method method' target target' content_type content_type'
      body_digest body_digest' timestamp timestamp' nonce nonce' fits fits' int int' e =
    let same = canonical-injective _ _ fits fits' e in
    (cc, cc, cc, cc, cc, format_int-injective timestamp timestamp' int int' (cc), cc)

-- No request is signed by the byte string of a response, whatever either of them holds, if every
-- field's length fits into a uint32.
pub request_base-ne-response_base :
    (audience method target content_type body_digest : Text) (timestamp : ℤ) (nonce : Text)
    (request_nonce : Text) (status : ℕ) (content_type' body_digest' : Text) (timestamp' : ℤ)
    → All FitsLength
        (request_fields audience method target content_type body_digest timestamp nonce)
    → All FitsLength (response_fields request_nonce status content_type' body_digest' timestamp')
    → request_base audience method target content_type body_digest timestamp nonce
      ≢ response_base request_nonce status content_type' body_digest' timestamp'
unfolding request_base response_base
request_base-ne-response_base audience method target content_type body_digest timestamp nonce
      request_nonce status content_type' body_digest' timestamp' fits fits' e =
    let same = canonical-injective _ _ fits fits' e in ground arith
