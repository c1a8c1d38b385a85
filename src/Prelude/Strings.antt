-- ===== src/Prelude/Strings.antt =====
-- Go strings as lists of bytes, with the functions of package `strings` that the agent calls.
use Prim.Native.Nat.{ℕ}
use Prim.Native.Char.{code}
use Prim.Native.String.{String}
use mathlib.Core.Path.{◌≡◌, refl, sym, subst}
use mathlib.Core.Logic.{◌↔◌, inl, inr}
use mathlib.Core.Bool.{Bool, true, false, ◌&&◌, ◌||◌}
use mathlib.Core.List.{List, [], ◌∷◌, ◌++◌}
use native.Mathlib.Omega.{arith}
use berth_agent.Prelude.Tests.{Bool-cases, ◌==◌}
use berth_agent.Prelude.Lists.{All}

abbrev pub Text : Type 0
Text = List ℕ

-- The bytes of a text literal, which is ASCII everywhere in this library.
abbrev pub codes : String → Text
codes String.[] = []
codes (String.◌∷◌ c s) = code c ∷ codes s

unfoldable pub text_eq : Text → Text → Bool
text_eq [] [] = true
text_eq [] (_ ∷ _) = false
text_eq (_ ∷ _) [] = false
text_eq (a ∷ s) (b ∷ t) = a == b && text_eq s t

pub text_eq_iff : (s t : Text) → (text_eq s t ≡ true) ↔ (s ≡ t)
unfolding text_eq
text_eq_iff [] [] = ground arith
text_eq_iff [] (b ∷ t) = ground arith
text_eq_iff (a ∷ s) [] = ground arith
text_eq_iff (a ∷ s) (b ∷ t) = ground (arith, text_eq_iff s t)

pub text_eq_refl : (s : Text) → text_eq s s ≡ true
text_eq_refl s = (text_eq_iff s s).1 refl

-- strings.HasPrefix(s, p)
unfoldable pub has_prefix : Text → Text → Bool
has_prefix s [] = true
has_prefix [] (_ ∷ _) = false
has_prefix (a ∷ s) (b ∷ p) = a == b && has_prefix s p

pub has_prefix_iff : (s p : Text) → (has_prefix s p ≡ true) ↔ ((r : Text) × (s ≡ p ++ r))
unfolding has_prefix
has_prefix_iff s [] = ((λ _. (s, refl)), (λ _. refl))
has_prefix_iff [] (b ∷ p) = ((λ h. cc), (λ h. let (r, e) = h in cc))
has_prefix_iff (a ∷ s) (b ∷ p) = (
  (λ h. let (r, e) = (has_prefix_iff s p).0 (ground arith) in (r, ground arith)),
  (λ h. ground (arith, (has_prefix_iff s p).1 (h.0, ground arith))),
)

-- strings.Contains(s, p)
unfoldable pub contains : Text → Text → Bool
contains [] p = has_prefix [] p
contains (a ∷ s) p = has_prefix (a ∷ s) p || contains s p

-- slices.Contains(l, s), and a lookup in a set that is a map to true
unfoldable pub member : Text → List Text → Bool
member s [] = false
member s (t ∷ l) = text_eq s t || member s l

-- What holds of each listed text holds of a member.
pub member_elim {ℓ} :
    (P : Text → Type ℓ) (s : Text) (l : List Text) → All P l → member s l ≡ true → P s
unfolding member
member_elim P s [] h m = absurd (cc)
member_elim P s (t ∷ l) (here, there) m = elim (Bool-cases (text_eq s t)) [
  | inl same ↦ subst P (sym ((text_eq_iff s t).0 same)) here
  | inr other ↦ member_elim P s l there (rw other at m)
]
