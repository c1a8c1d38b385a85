-- ===== src/AgentSign/Body/Limits.antt =====
-- internal/agentsign: what `readLimited` returns.
use berth_agent.Prelude.{
  none, ℕ, zero, suc, ◌+◌, ◌-◌, ◌≤◌, ◌<◌, ◌≡◌, refl, ap, sym, ◌∙◌, inl, inr, Bool, true, false,
  ◌&&◌, some, List, [], ◌∷◌, ◌++◌, arith, Result, ok, err, Text, ltb, leb, if◌then◌else◌, ◌==◌,
  Bool-cases, length,
}
use berth_agent.Prelude.{
  take, drop, length-append, length-take, length-drop, append_assoc, append-nil, take-append-drop,
}
use berth_agent.AgentSign.Body.{
  Option, read_limited, within_limit, body_too_large, LimitedReader, left, read_body, end_of_file,
  read_failure, BodyError, body_unreadable, got, limited_read, source_read, end_of_file,
  read_failure, read_from,
}

-- All the bytes that a body delivers.
pub whole : List Text → Text
whole [] = []
whole (piece ∷ pieces) = piece ++ whole pieces

-- What one read of a body does, with room for at least one byte.
record Took (size : ℕ) (pieces : List Text) (broken : Bool) : Type 0 where
  rest : List Text
  bytes : Text
  read : source_read size pieces broken ≡ (rest, got bytes)
  parts : whole pieces ≡ bytes ++ whole rest
  room : length bytes ≤ size
  shorter : left rest < left pieces

took :
    (size : ℕ) (piece : Text) (pieces : List Text) (broken : Bool)
    → 0 < size
    → Took size (piece ∷ pieces) broken
unfolding source_read whole left
took size piece pieces broken h = elim (Bool-cases (leb (length piece) size)) [
  | inl fits ↦ record {
    rest = pieces;
    bytes = piece;
    read = rw (source_read, fits) refl;
    parts = refl;
    room = ground arith;
    shorter = omega arith;
  }
  | inr long ↦
      let over : size < length piece = ground arith in
      record {
        rest = drop size piece ∷ pieces;
        bytes = take size piece;
        read = rw (source_read, long) refl;
        parts =
            ap (λ t. t ++ whole pieces) (sym (take-append-drop size piece))
            ∙ append_assoc (take size piece) (drop size piece) (whole pieces);
        room = omega (arith, length-take size piece (omega arith));
        shorter = omega (arith, length-drop size piece);
      }
]

take_past :
    (n : ℕ) (bytes w : Text)
    → length bytes ≤ n
    → take n (bytes ++ w) ≡ bytes ++ take (n - length bytes) w
take_past n [] w h = ap (λ m. take m w) (omega arith)
take_past zero (b ∷ bytes) w h = absurd (omega arith)
take_past (suc n) (b ∷ bytes) w h =
    let e : suc n - length (b ∷ bytes) ≡ n - length bytes = omega arith in
    rw e (ap (◌∷◌ b) (take_past n bytes w (omega arith)))

-- What the reads come to, with this much of the limit left and these bytes to come.
abbrev outcome : Bool → ℕ → Text → Text → Result BodyError Text
outcome broken remaining w collected =
    if broken && ltb (length w) remaining
    then err body_unreadable
    else ok (collected ++ take remaining w)

outcome_step :
    (broken : Bool) (remaining : ℕ) (bytes w collected : Text)
    → length bytes ≤ remaining
    → outcome broken (remaining - length bytes) w (collected ++ bytes)
      ≡ outcome broken remaining (bytes ++ w) collected
outcome_step broken remaining bytes w collected h =
    let same : ltb (length w) (remaining - length bytes) ≡ ltb (length (bytes ++ w)) remaining =
      ground (arith, length-append bytes w) in
    rw (same, take_past remaining bytes w h, append_assoc)

read_nothing :
    (size : ℕ) (broken : Bool) (r : ℕ)
    → (limited_read size (record { pieces = []; broken = broken; remaining = suc r })).1
      ≡ (if broken then read_failure else end_of_file)
unfolding limited_read
read_nothing size true r = ground arith
read_nothing size false r = ground arith

read_some :
    (size : ℕ) (piece : Text) (pieces : List Text) (broken : Bool) (r : ℕ)
    (t : Took (if ltb (suc r) size then suc r else size) (piece ∷ pieces) broken)
    → limited_read size (record { pieces = piece ∷ pieces; broken = broken; remaining = suc r }) ≡ (
      record { pieces = t.rest; broken = broken; remaining = suc r - length t.bytes },
      got t.bytes,
    )
unfolding limited_read
read_some size piece pieces broken r t =
    let live : (suc r == 0) ≡ false = ground arith in rw (limited_read, live, t.read) refl

read_from_got :
    (sizes : ℕ → ℕ) (fuel k : ℕ) (l l' : LimitedReader) (bytes collected : Text)
    → limited_read (sizes k) l ≡ (l', got bytes)
    → read_from sizes (suc fuel) k l collected
      ≡ read_from sizes fuel (k + 1) l' (collected ++ bytes)
unfolding read_from
read_from_got sizes fuel k l l' bytes collected e = rw (read_from, e, e)

module _ (sizes : ℕ → ℕ) (room : (k : ℕ) → 0 < sizes k) where
  read_from_lem :
      (fuel k : ℕ) (pieces : List Text) (broken : Bool) (remaining : ℕ) (collected : Text)
      → left pieces < fuel
      → read_from sizes fuel k
          (record { pieces = pieces; broken = broken; remaining = remaining })
          collected
        ≡ some (outcome broken remaining (whole pieces) collected)
  unfolding read_from
  read_from_lem zero k pieces broken remaining collected h = absurd (omega arith)
  read_from_lem (suc fuel) k pieces broken zero collected h =
      unfold limited_read in ground (arith, append-nil collected)
  read_from_lem (suc fuel) k [] true (suc r) collected h =
      rw (read_from, read_nothing (sizes k) true r) (unfold whole in ground arith)
  read_from_lem (suc fuel) k [] false (suc r) collected h =
      rw (read_from, read_nothing (sizes k) false r)
        (unfold whole in ap (λ t. some (ok t)) (sym (append-nil collected)))
  read_from_lem (suc fuel) k (piece ∷ pieces) broken (suc r) collected h =
      let size = if ltb (suc r) (sizes k) then suc r else sizes k in
      let some_room : 0 < size = ground (arith, room k) in
      let fits : size ≤ suc r = ground arith in
      let t = took size piece pieces broken some_room in
      read_from_got sizes fuel k _ _ t.bytes collected (read_some (sizes k) piece pieces broken r t)
      ∙ read_from_lem fuel (k + 1) t.rest broken (suc r - length t.bytes) (collected ++ t.bytes)
          (omega (arith, t.shorter))
      ∙ ap some
          (outcome_step broken (suc r) t.bytes (whole t.rest) collected (omega (arith, t.room)))
      ∙ ap (λ w. some (outcome broken (suc r) w collected)) (sym t.parts)

take_all : (n : ℕ) (w : Text) → length w ≤ n → take n w ≡ w
take_all zero [] h = refl
take_all (suc n) [] h = refl
take_all zero (c ∷ w) h = absurd (omega arith)
take_all (suc n) (c ∷ w) h = ap (◌∷◌ c) (take_all n w (omega arith))

-- What a body with a limit comes to.
abbrev pub verdict : ℕ → Bool → Text → Result BodyError Text
verdict limit broken w =
    if ltb limit (length w)
    then err body_too_large
    else if broken
    then err body_unreadable
    else ok w

within_limit_lem :
    (limit : ℕ) (broken : Bool) (w : Text)
    → within_limit limit (outcome broken (limit + 1) w []) ≡ verdict limit broken w
unfolding within_limit
within_limit_lem limit broken w = elim (Bool-cases (ltb limit (length w))) [
  | inl large ↦
      let cut = length-take (limit + 1) w (ground arith) in
      let whole_cut : ltb (length w) (limit + 1) ≡ false = ground arith in
      let over : ltb limit (length (take (limit + 1) w)) ≡ true = ground (arith, cut) in
      elim (Bool-cases broken) [
        | inl b ↦ rw (b, large, whole_cut, over) refl
        | inr b ↦ rw (b, large, over) refl
      ]
  | inr small ↦
      let same = take_all (limit + 1) w (ground arith) in
      let ended : ltb (length w) (limit + 1) ≡ true = ground arith in
      elim (Bool-cases broken) [
        | inl b ↦ rw (b, small, ended) refl
        | inr b ↦ rw (b, small, same, small) refl
      ]
]

-- All that the body of a request delivers.
pub whole_body : Option (List Text × Bool) → Text
whole_body none = []
whole_body (some (pieces, broken)) = whole pieces

pub breaks_off : Option (List Text × Bool) → Bool
breaks_off none = false
breaks_off (some (pieces, broken)) = broken

-- Reading a body always ends, if there is room for at least one byte in each read. It gives the
-- whole body if that is within the limit and did not break off, in whatever pieces it comes; a longer
-- body is refused whether it breaks off or not.
pub read_body_lem :
    (sizes : ℕ → ℕ)
    → ((k : ℕ) → 0 < sizes k)
    → (body : Option (List Text × Bool)) (limit : ℕ)
    → read_body sizes body limit ≡ some (verdict limit (breaks_off body) (whole_body body))
unfolding read_body read_limited whole_body breaks_off
read_body_lem sizes room none limit = ground arith
read_body_lem sizes room (some (pieces, broken)) limit =
    let e =
      read_from_lem sizes room (1 + left pieces) 0 pieces broken (limit + 1) [] (omega arith) in
    rw (read_limited, e) (ap some (within_limit_lem limit broken (whole pieces)))
