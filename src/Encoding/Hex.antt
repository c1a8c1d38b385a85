-- ===== src/Encoding/Hex.antt =====
-- encoding/hex: two lower-case digits for each byte.
use berth_agent.Prelude.{ℕ, ◌+◌, ◌/◌, ◌%◌, [], ◌∷◌, Text, ltb, if◌then◌else◌}

-- hextable
hex_digit : ℕ → ℕ
hex_digit n = if ltb n 10 then b'0' + n else b'W' + n

-- hex.EncodeToString
unfoldable pub hex : Text → Text
unfolding hex_digit
hex [] = []
hex (b ∷ s) = hex_digit (b / 16) ∷ hex_digit (b % 16) ∷ hex s
