-- ===== src/Encoding/BigEndian.antt =====
-- encoding/binary: big-endian words of k bytes.
use native.Mathlib.Nat.{pow-suc}
use berth_agent.Prelude.{
  ℕ, zero, suc, ◌+◌, ◌*◌, ◌/◌, ◌%◌, ◌^◌, ◌<◌, ◌≡◌, refl, ap, sym, ◌∙◌, [], ◌∷◌, ◌++◌, arith, length,
  length-append, Text,
}

-- The k bytes of x, the most significant first; what does not fit is cut off.
unfoldable pub put_uint : ℕ → ℕ → Text
put_uint zero x = []
put_uint (suc k) x = put_uint k (x / 256) ++ (x % 256) ∷ []

uint_from : ℕ → Text → ℕ
uint_from acc [] = acc
uint_from acc (b ∷ s) = uint_from (acc * 256 + b) s

-- The word that big-endian bytes stand for.
unfoldable pub uint : Text → ℕ
unfolding uint_from
uint s = uint_from 0 s

uint_from-append : (acc : ℕ) (s t : Text) → uint_from acc (s ++ t) ≡ uint_from (uint_from acc s) t
unfolding uint_from
uint_from-append acc [] t = refl
uint_from-append acc (b ∷ s) t = uint_from-append (acc * 256 + b) s t

uint-append : (s : Text) (b : ℕ) → uint (s ++ b ∷ []) ≡ uint s * 256 + b
unfolding uint
uint-append s b = uint_from-append 0 s (b ∷ [])

pub length-put_uint : (k x : ℕ) → length (put_uint k x) ≡ k
unfolding put_uint
length-put_uint zero x = refl
length-put_uint (suc k) x =
    omega
      (arith, length-append (put_uint k (x / 256)) ((x % 256) ∷ []), length-put_uint k (x / 256))

-- A word that fits into k bytes is read back from them.
pub uint-put_uint : (k x : ℕ) → x < 256 ^ k → uint (put_uint k x) ≡ x
unfolding put_uint
uint-put_uint zero x h = unfold uint in omega arith
uint-put_uint (suc k) x h =
    let fits : x < 256 ^ k * 256 = subst_pow k x h in
    omega
      (arith, uint-append (put_uint k (x / 256)) (x % 256), uint-put_uint k (x / 256) (omega arith))
  where
    subst_pow : (k x : ℕ) → x < 256 ^ suc k → x < 256 ^ k * 256
    subst_pow k x h = rw pow-suc at h

pub put_uint-injective :
    (k x y : ℕ) → x < 256 ^ k → y < 256 ^ k → put_uint k x ≡ put_uint k y → x ≡ y
put_uint-injective k x y hx hy e = sym (uint-put_uint k x hx) ∙ ap uint e ∙ uint-put_uint k y hy
