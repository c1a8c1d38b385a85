-- ===== src/Archive/Service/Inside.antt =====
-- internal/archive/security.go: which paths the members of an archive are unpacked at.
use berth_agent.Prelude.{
  subst, ◌≡◌, refl, ap, sym, ◌∙◌, true, false, not, List, [], ◌∷◌, ◌++◌, arith, Result, ok, Text,
  codes, text_eq, text_eq_iff, Bool-cases, inl, inr, All, contains, append_assoc, append-nil,
  reverse, has_prefix_iff, has_prefix, ◌||◌, ◌&&◌,
}
use mathlib.Core.List.{reverse-append}
use berth_agent.Paths.{clean, join_paths, elements, slash, is_abs, kept, join_elements}
use berth_agent.Paths.Joined.{elements_total, elements-append}
use berth_agent.Paths.Normal.{stack_of, clean_lem, clean_idempotent, kept-append}
use berth_agent.Archive.Service.{ArchiveError, validate_extract_path}

-- The cleaned path is the cleaned directory or this with a slash and more behind it, or the directory is
-- the root.
pub data IsInside (path dir : Text) : Type 0 where
  itself : clean path ≡ clean dir → IsInside path dir
  below : (r : Text) → clean path ≡ clean dir ++ (b'/' ∷ r) → IsInside path dir
  anywhere : clean dir ≡ codes "/" → IsInside path dir

-- A text begins with its first element.
has_prefix-elements : (s e : Text) (es : List Text) → elements s ≡ e ∷ es → has_prefix s e ≡ true
unfolding elements has_prefix
has_prefix-elements [] e es h =
    let same : ◌≡◌ {A = Text} [] e = cc in subst (λ e. has_prefix [] e ≡ true) same refl
has_prefix-elements (c ∷ s) e es h = elim (Bool-cases (slash c)) [
  | inl sep ↦
      let whole : ◌≡◌ {A = List Text} ([] ∷ elements s) (e ∷ es) = rw sep at h in
      let same : ◌≡◌ {A = Text} [] e = cc in subst (λ e. has_prefix (c ∷ s) e ≡ true) same refl
  | inr inside ↦
      let (first, more, h') = elements_total s in
      let whole : ◌≡◌ {A = List Text} ((c ∷ first) ∷ more) (e ∷ es) = rw (inside, h') at h in
      let same : ◌≡◌ {A = Text} (c ∷ first) e = cc in
      subst (λ e. has_prefix (c ∷ s) e ≡ true) same
        (ground (arith, has_prefix-elements s first more h'))
]

-- An element that leads upwards is in the text.
level_elements :
    (s : Text)
    → contains s (codes "..") ≡ false
    → All (λ e. text_eq e (codes "..") ≡ false) (elements s)
unfolding elements contains
level_elements [] h = (unfold text_eq in refl, tt)
level_elements (c ∷ s) h =
    let (e, es, first) = elements_total s in
    let (level, more) = rw first at (level_elements s (ground arith)) in
    elim (Bool-cases (slash c)) [
      | inl sep ↦ rw sep (unfold text_eq in refl, level_elements s (ground arith))
      | inr inside ↦
          let begins : has_prefix (c ∷ s) (c ∷ e) ≡ true =
            has_prefix-elements (c ∷ s) (c ∷ e) es (unfold elements in rw (inside, first) refl) in
          rw (inside, first)
            (
              elim (Bool-cases (text_eq (c ∷ e) (codes ".."))) [
                | inl same ↦
                    let equal : c ∷ e ≡ codes ".." = (text_eq_iff (c ∷ e) (codes "..")).0 same in
                    let leads : has_prefix (c ∷ s) (codes "..") ≡ true = rw equal at begins in
                    absurd (ground (arith, leads))
                | inr differs ↦ differs
              ],
              more,
            )
    ]

-- Elements that do not lead upwards come behind the others.
kept_level :
    (before es : List Text)
    → All (λ e. text_eq e (codes "..") ≡ false) es
    → (more : List Text) × (kept true before es ≡ more ++ before)
unfolding kept
kept_level before [] h = ([], refl)
kept_level before (e ∷ es) (level, h) = elim (Bool-cases (text_eq e [] || text_eq e (codes "."))) [
  | inl skipped ↦ let (more, k) = kept_level before es h in (more, rw skipped k)
  | inr plain ↦
      let (more, k) = kept_level (e ∷ before) es h in
      (more ++ (e ∷ []), rw (plain, level) (k ∙ sym (append_assoc more (e ∷ []) before)))
]

join_elements-append :
    (e : Text) (es : List Text) (f : Text) (fs : List Text)
    → join_elements ((e ∷ es) ++ (f ∷ fs))
      ≡ join_elements (e ∷ es) ++ (b'/' ∷ join_elements (f ∷ fs))
unfolding join_elements
join_elements-append e [] f fs = refl
join_elements-append e (g ∷ es) f fs =
    rw (join_elements-append g es f fs)
      (sym (append_assoc e (b'/' ∷ join_elements (g ∷ es)) (b'/' ∷ join_elements (f ∷ fs))))

-- The paths of elements, and of these with more behind.
deeper :
    (path dir : Text) (before more : List Text)
    → clean dir ≡ b'/' ∷ join_elements before
    → clean path ≡ b'/' ∷ join_elements (before ++ more)
    → IsInside path dir
unfolding join_elements
deeper path dir [] more d p = anywhere d
deeper path dir (e ∷ es) [] d p =
    itself (p ∙ ap (λ l. b'/' ∷ join_elements l) (append-nil (e ∷ es)) ∙ sym d)
deeper path dir (e ∷ es) (f ∷ fs) d p = below (join_elements (f ∷ fs)) (
    p
    ∙ ap (λ l. b'/' ∷ l) (join_elements-append e es f fs)
    ∙ ap (λ l. l ++ (b'/' ∷ join_elements (f ∷ fs))) (sym d))

-- A file that leads nowhere upwards, in a directory.
level-IsInside :
    (dir file : Text)
    → is_abs dir ≡ true
    → contains file (codes "..") ≡ false
    → IsInside (join_paths dir file) dir
unfolding join_paths is_abs
level-IsInside [] file abs level = absurd (cc)
level-IsInside (c ∷ s) [] abs level = itself (unfold text_eq in clean_idempotent (c ∷ s) abs)
level-IsInside (c ∷ s) (d ∷ file) abs level =
    let path : Text = (c ∷ s) ++ (b'/' ∷ d ∷ file) in
    let (more, behind) =
      kept_level (stack_of (c ∷ s)) (elements (d ∷ file)) (level_elements (d ∷ file) level) in
    let stack : stack_of path ≡ more ++ stack_of (c ∷ s) =
      unfold stack_of in
      ap (kept true []) (elements-append (c ∷ s) (d ∷ file))
      ∙ (kept-append true [] (elements (c ∷ s)) (elements (d ∷ file)) ∙ behind) in
    unfold text_eq in
    deeper (clean path) (c ∷ s) (reverse (stack_of (c ∷ s))) (reverse more) (clean_lem (c ∷ s) abs)
      (clean_idempotent path abs
        ∙ (clean_lem path abs
            ∙ ap (λ l. b'/' ∷ join_elements l)
                (ap reverse stack ∙ reverse-append more (stack_of (c ∷ s)))))

-- `ValidateExtractPath` lets the name of a member of an archive through only into the absolute directory
-- that is meant. The path that it answers is the name joined behind the directory; cleaned, it is the
-- cleaned directory, or this with a slash and more behind it. If the directory is the root itself, any
-- path is inside.
pub validate_extract_path-IsInside :
    (dir file path : Text)
    → is_abs dir ≡ true
    → validate_extract_path dir file ≡ ok path
    → (path ≡ join_paths dir file) × IsInside path dir
unfolding validate_extract_path
validate_extract_path-IsInside dir file path abs h =
    let joined = join_paths dir file in
    let equal = text_eq (clean joined) (clean dir) in
    let behind = has_prefix (clean joined) (clean dir ++ codes "/") in
    let suspect = contains file (codes "..") || not (has_prefix (clean joined) (clean dir)) in
    elim (Bool-cases (suspect && (not equal && not behind))) [
      | inl refused ↦ absurd (cc (rw (refused, validate_extract_path) at h))
      | inr let_through ↦
          let got : ◌≡◌ {A = Result ArchiveError Text} (ok joined) (ok path) =
            rw (let_through, validate_extract_path) at h in
          let same : joined ≡ path = cc in
          subst (λ p. (p ≡ joined) × IsInside p dir) same
            (
              refl,
              elim (Bool-cases (contains file (codes ".."))) [
                | inr level ↦ level-IsInside dir file abs level
                | inl upwards ↦ elim (Bool-cases equal) [
                  | inl one ↦ itself ((text_eq_iff (clean joined) (clean dir)).0 one)
                  | inr other ↦
                      let (r, k) =
                        (has_prefix_iff (clean joined) (clean dir ++ codes "/")).0 (ground arith) in
                      below r (k ∙ append_assoc (clean dir) (codes "/") r)
                ]
              ],
            )
    ]
