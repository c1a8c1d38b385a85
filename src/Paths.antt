-- ===== src/Paths.antt =====
-- path/filepath on Unix, as far as the code calls it: Clean, Join, Abs and Rel by the elements of a path.
pub mod Joined
pub mod Normal
use berth_agent.Prelude.{
  ℕ, Bool, true, false, not, ◌&&◌, ◌||◌, Option, none, some, List, [], ◌∷◌, ◌++◌, Text, codes,
  text_eq, if◌then◌else◌, ◌==◌,
}
use berth_agent.Prelude.{reverse, map}

abbrev pub slash : ℕ → Bool
slash c = c == b'/'

-- A byte in front of the first element.
abbrev in_front : ℕ → List Text → List Text
in_front c [] = (c ∷ []) ∷ []
in_front c (e ∷ es) = (c ∷ e) ∷ es

-- The elements between the slashes.
unfoldable pub elements : Text → List Text
elements [] = [] ∷ []
elements (c ∷ s) = let rest = elements s in if slash c then [] ∷ rest else in_front c rest

unfoldable pub is_abs : Text → Bool
is_abs [] = false
is_abs (c ∷ s) = slash c

-- What `..` makes of the elements in front of it, the last one first.
unfoldable pub up : Bool → List Text → List Text
up rooted [] = if rooted then [] else codes ".." ∷ []
up rooted (e ∷ before) = if text_eq e (codes "..") then codes ".." ∷ e ∷ before else before

-- The elements that `Clean` keeps, the last one first.
unfoldable pub kept : Bool → List Text → List Text → List Text
unfolding up
kept rooted before [] = before
kept rooted before (e ∷ es) =
    let skipped = kept rooted before es in
    let upwards = kept rooted (up rooted before) es in
    let taken = kept rooted (e ∷ before) es in
    if text_eq e [] || text_eq e (codes ".")
    then skipped
    else if text_eq e (codes "..")
    then upwards
    else taken

unfoldable pub join_elements : List Text → Text
join_elements [] = []
join_elements (e ∷ []) = e
join_elements (e ∷ f ∷ es) = e ++ (b'/' ∷ join_elements (f ∷ es))

-- A path with these elements.
abbrev rendered : Bool → Text → Text
rendered true path = b'/' ∷ path
rendered false [] = codes "."
rendered false (c ∷ path) = c ∷ path

-- filepath.Clean
unfoldable pub clean : Text → Text
unfolding elements is_abs kept join_elements
clean path =
    rendered (is_abs path) (join_elements (reverse (kept (is_abs path) [] (elements path))))

-- filepath.Join of two
unfoldable pub join_paths : Text → Text → Text
unfolding clean
join_paths a b =
    if text_eq a []
    then if text_eq b [] then [] else clean b
    else if text_eq b []
    then clean a
    else clean (a ++ (b'/' ∷ b))

-- filepath.Abs in the directory `cwd`
unfoldable pub abs : Text → Text → Text
unfolding is_abs clean join_paths
abs cwd path = if is_abs path then clean path else join_paths cwd path

-- The elements of a clean path; "." has none.
unfoldable pub elements_of : Text → List Text
unfolding clean kept elements is_abs
elements_of path = reverse (kept (is_abs path) [] (elements path))

-- The rest of both behind what they share.
unfoldable pub without_common : List Text → List Text → List Text × List Text
without_common [] targets = ([], targets)
without_common (b ∷ bases) [] = (b ∷ bases, [])
without_common (b ∷ bases) (t ∷ targets) =
    let rest = without_common bases targets in
    if text_eq b t then rest else (b ∷ bases, t ∷ targets)

-- The way from one to the other; none leads back from `..`.
abbrev way : List Text → List Text → Option Text
way [] targets = some (rendered false (join_elements targets))
way (b ∷ bases) targets =
    if text_eq b (codes "..")
    then none
    else some (join_elements (map (λ e. codes "..") (b ∷ bases) ++ targets))

-- filepath.Rel
unfoldable pub rel : Text → Text → Option Text
unfolding elements_of without_common is_abs join_elements
rel base target =
    let (bases, targets) = without_common (elements_of base) (elements_of target) in
    if (is_abs base && is_abs target) || (not (is_abs base) && not (is_abs target))
    then way bases targets
    else none
