-- ===== src/Paths/Normal.antt =====
-- path/filepath on Unix: the elements of an absolute path that is cleaned.
use berth_agent.Prelude.{
  ◌≡◌, refl, ap, sym, ◌∙◌, inl, inr, Bool, true, false, List, [], ◌∷◌, ◌++◌, arith, Text, codes,
  text_eq, Bool-cases, ◌||◌, All, All-append, reverse,
}
use mathlib.Core.List.{reverse-cons}
use berth_agent.Paths.{elements, is_abs, up, kept, join_elements, clean, slash}
use berth_agent.Paths.Joined.{elements_total, elements-append}

-- An element of a path.
abbrev pub IsUnslashed : Text → Type 0
IsUnslashed e = All (λ c. slash c ≡ false) e

-- An element that `Clean` keeps.
abbrev pub IsName : Text → Type 0
IsName e =
    (text_eq e [] || text_eq e (codes ".") ≡ false)
    × ((text_eq e (codes "..") ≡ false) × IsUnslashed e)

pub elements-IsUnslashed : (s : Text) → All IsUnslashed (elements s)
unfolding elements
elements-IsUnslashed [] = (tt, tt)
elements-IsUnslashed (c ∷ s) =
    let (e, es, h) = elements_total s in
    let (first, more) = rw h at (elements-IsUnslashed s) in
    elim (Bool-cases (slash c)) [
      | inl sep ↦ rw sep (tt, elements-IsUnslashed s)
      | inr inside ↦ rw (inside, h) ((inside, first), more)
    ]

up-IsName : (before : List Text) → All IsName before → All IsName (up true before)
unfolding up
up-IsName [] h = tt
up-IsName (e ∷ before) ((plain, (level, whole)), more) = rw level more

pub kept-IsName :
    (before es : List Text)
    → All IsUnslashed es
    → All IsName before
    → All IsName (kept true before es)
unfolding kept
kept-IsName before [] h b = b
kept-IsName before (e ∷ es) (whole, h) b =
    elim (Bool-cases (text_eq e [] || text_eq e (codes "."))) [
      | inl skipped ↦ rw skipped (kept-IsName before es h b)
      | inr plain ↦ elim (Bool-cases (text_eq e (codes ".."))) [
        | inl upwards ↦ rw (plain, upwards) (kept-IsName (up true before) es h (up-IsName before b))
        | inr level ↦ rw (plain, level) (kept-IsName (e ∷ before) es h ((plain, (level, whole)), b))
      ]
    ]

pub kept-append :
    (rooted : Bool) (before es fs : List Text)
    → kept rooted before (es ++ fs) ≡ kept rooted (kept rooted before es) fs
unfolding kept
kept-append rooted before [] fs = refl
kept-append rooted before (e ∷ es) fs = ground (
  arith,
  kept-append rooted before es fs,
  kept-append rooted (up rooted before) es fs,
  kept-append rooted (e ∷ before) es fs,
)

-- What is kept once is kept.
pub kept-reverse : (es : List Text) → All IsName es → kept true [] (reverse es) ≡ es
unfolding kept
kept-reverse [] h = refl
kept-reverse (e ∷ es) ((plain, (level, whole)), h) =
    rw
      (
        reverse-cons e es,
        kept-append true [] (reverse es) (e ∷ []),
        kept-reverse es h,
        plain,
        level,
      )
      refl

elements_of_name : (e : Text) → IsUnslashed e → elements e ≡ e ∷ []
unfolding elements
elements_of_name [] h = refl
elements_of_name (c ∷ e) (inside, h) = rw (inside, elements_of_name e h) refl

elements-join_elements :
    (e : Text) (es : List Text)
    → All IsUnslashed (e ∷ es)
    → elements (join_elements (e ∷ es)) ≡ e ∷ es
unfolding join_elements
elements-join_elements e [] (whole, h) = elements_of_name e whole
elements-join_elements e (f ∷ es) (whole, h) =
    elements-append e (join_elements (f ∷ es))
    ∙ rw (elements_of_name e whole, elements-join_elements f es h) refl

unslashed : (es : List Text) → All IsName es → All IsUnslashed es
unslashed [] h = tt
unslashed (e ∷ es) ((_, (_, whole)), h) = (whole, unslashed es h)

All-reverse : (es : List Text) → All IsName es → All IsName (reverse es)
All-reverse [] h = tt
All-reverse (e ∷ es) (n, h) =
    rw (reverse-cons e es) (All-append IsName (reverse es) (e ∷ []) (All-reverse es h) (n, tt))

kept_joined :
    (es : List Text) → All IsName es → kept true [] (elements (join_elements es)) ≡ kept true [] es
kept_joined [] h = unfold join_elements elements kept text_eq in refl
kept_joined (e ∷ es) h = ap (kept true []) (elements-join_elements e es (unslashed (e ∷ es) h))

-- The elements of an absolute path, the last one first.
unfoldable pub stack_of : Text → List Text
stack_of path = kept true [] (elements path)

pub stack_of-IsName : (path : Text) → All IsName (stack_of path)
unfolding stack_of
stack_of-IsName path = kept-IsName [] (elements path) (elements-IsUnslashed path) tt

pub clean_lem :
    (path : Text) → is_abs path ≡ true → clean path ≡ b'/' ∷ join_elements (reverse (stack_of path))
unfolding clean stack_of
clean_lem path abs = rw (abs, clean) refl

-- A path that is cleaned stays so.
pub clean_idempotent : (path : Text) → is_abs path ≡ true → clean (clean path) ≡ clean path
unfolding is_abs
clean_idempotent path abs =
    let es = stack_of path in
    let named = stack_of-IsName path in
    let again : stack_of (b'/' ∷ join_elements (reverse es)) ≡ es =
      unfold stack_of elements kept text_eq in
      kept_joined (reverse es) (All-reverse es named) ∙ kept-reverse es named in
    ap clean (clean_lem path abs)
    ∙ (clean_lem (b'/' ∷ join_elements (reverse es)) refl
        ∙ (ap (λ l. b'/' ∷ join_elements (reverse l)) again ∙ sym (clean_lem path abs)))
