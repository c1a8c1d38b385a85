-- ===== src/AgentSign/Body.antt =====
-- internal/agentsign/body.go, and ReadBody of internal/agentsign/agentsign.go: a request's body, read
-- up to a limit.
pub mod Limits
use berth_agent.Prelude.{
  ℕ, zero, suc, ◌+◌, ◌-◌, Bool, Option, none, some, List, [], ◌∷◌, ◌++◌, Result, ok, err, Text, ltb,
  leb, if◌then◌else◌, ◌==◌, length,
}
use berth_agent.Prelude.{take, drop}

-- What a Read returns.
pub data ReadResult : Type 0 where
  got : Text → ReadResult
  end_of_file : ReadResult
  read_failure : ReadResult

pub data BodyError : Type 0 where
  body_unreadable body_too_large : BodyError

-- `limitedReader`, over a body that delivers these pieces, one read after the other, and then fails
-- or ends.
pub record LimitedReader : Type 0 where
  pub pieces : List Text
  pub broken : Bool
  pub remaining : ℕ

-- A read of the body into `size` bytes; what does not fit is left for the next read.
source_read : ℕ → List Text → Bool → List Text × ReadResult
source_read size [] broken = ([], if broken then read_failure else end_of_file)
source_read size (piece ∷ pieces) broken =
    if leb (length piece) size
    then (pieces, got piece)
    else (drop size piece ∷ pieces, got (take size piece))

-- `l.remaining -= int64(read)`
taken_from : LimitedReader → List Text × ReadResult → LimitedReader × ReadResult
taken_from l (pieces, got bytes) =
    (record l { pieces = pieces; remaining = l.remaining - length bytes }, got bytes)
taken_from l (pieces, other) = (record l { pieces = pieces }, other)

-- `limitedReader.Read` into `size` bytes.
unfoldable pub limited_read : ℕ → LimitedReader → LimitedReader × ReadResult
unfolding source_read taken_from
limited_read size l =
    if l.remaining == 0
    then (l, end_of_file)
    else taken_from l
        (source_read (if ltb l.remaining size then l.remaining else size) l.pieces l.broken)

-- The test of `readLimited` behind it.
within_limit : ℕ → Result BodyError Text → Result BodyError Text
within_limit limit (err e) = err e
within_limit limit (ok collected) =
    if ltb limit (length collected) then err body_too_large else ok collected

-- `sizes k` is the room that bytes.Buffer has for the k-th read.
module _ (sizes : ℕ → ℕ) where
  -- `collected.ReadFrom`, `none` if the fuel runs out.
  pub read_from : ℕ → ℕ → LimitedReader → Text → Option (Result BodyError Text)
  read_from zero k l collected = none
  read_from (suc fuel) k l collected =
      let (l', result) = limited_read (sizes k) l in
      elim result [
        | got bytes ↦ read_from fuel (k + 1) l' (collected ++ bytes)
        | end_of_file ↦ some (ok collected)
        | read_failure ↦ some (err body_unreadable)
      ]

  -- `readLimited`, of a body with these pieces.
  pub read_limited : ℕ → List Text → Bool → ℕ → Option (Result BodyError Text)
  unfolding read_from within_limit
  read_limited fuel pieces broken limit =
      elim (read_from fuel 0 (record { pieces = pieces; broken = broken; remaining = limit + 1 })
        []) [ none ↦ none | some r ↦ some (within_limit limit r) ]

-- Bounds the number of reads: each takes a piece, or at least one byte of it.
pub left : List Text → ℕ
left [] = 0
left (piece ∷ pieces) = 1 + length piece + left pieces

-- `ReadBody`, of a request with no body or with one that delivers these pieces and then fails or ends.
unfoldable pub read_body : (ℕ → ℕ) → Option (List Text × Bool) → ℕ → Option (Result BodyError Text)
unfolding read_limited left
read_body sizes none limit = some (ok [])
read_body sizes (some (pieces, broken)) limit =
    read_limited sizes (1 + left pieces) pieces broken limit
