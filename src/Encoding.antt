-- ===== src/Encoding.antt =====
-- The encodings of Go's standard library that the agent signs and frames with: big-endian words of
-- encoding/binary, and decimal integers of strconv.
pub mod BigEndian
pub mod Decimal
pub mod Hex
