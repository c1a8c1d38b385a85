-- ===== src/Paths/Joined.antt =====
-- path/filepath on Unix: a path that is joined with ".".
use berth_agent.Prelude.{
  ℕ, ◌≡◌, refl, inl, inr, Bool, List, [], ◌∷◌, ◌++◌, Text, codes, text_eq, Bool-cases,
}
use berth_agent.Paths.{elements, is_abs, up, kept, join_elements, clean, join_paths, slash}

-- A path has an element.
pub elements_total : (s : Text) → (e : Text) × (es : List Text) × (elements s ≡ e ∷ es)
unfolding elements
elements_total [] = ([], [], refl)
elements_total (c ∷ s) =
    let (e, es, h) = elements_total s in
    elim (Bool-cases (slash c)) [
      | inl sep ↦ ([], elements s, simp sep refl)
      | inr inside ↦ (c ∷ e, es, simp (inside, h) refl)
    ]

pub elements-append : (s t : Text) → elements (s ++ (b'/' ∷ t)) ≡ elements s ++ elements t
unfolding elements
elements-append [] t = refl
elements-append (c ∷ s) t =
    let (e, es, h) = elements_total s in
    elim (Bool-cases (slash c)) [
      | inl sep ↦ simp (sep, elements-append s t) refl
      | inr inside ↦ simp (inside, elements-append s t, h) refl
    ]

kept_dot :
    (rooted : Bool) (before es : List Text)
    → kept rooted before (es ++ (codes "." ∷ [])) ≡ kept rooted before es
unfolding kept
kept_dot rooted before [] = unfold text_eq in refl
kept_dot rooted before (e ∷ es) =
    simp
      (
        kept_dot rooted before es,
        kept_dot rooted (up rooted before) es,
        kept_dot rooted (e ∷ before) es,
      )
      refl

clean_dot : (c : ℕ) (s : Text) → clean ((c ∷ s) ++ (b'/' ∷ codes ".")) ≡ clean (c ∷ s)
unfolding clean is_abs
clean_dot c s =
    let dot : elements (codes ".") ≡ codes "." ∷ [] = unfold elements in refl in
    let same = elements-append (c ∷ s) (codes ".") in
    rw (same, dot, kept_dot (slash c) [] (elements (c ∷ s))) refl

-- What is joined with "." is only cleaned.
pub join_paths_dot : (path : Text) → join_paths path (codes ".") ≡ clean path
unfolding join_paths
join_paths_dot [] = unfold text_eq clean elements is_abs kept up join_elements in refl
join_paths_dot (c ∷ s) = unfold text_eq in clean_dot c s
