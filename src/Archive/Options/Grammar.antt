-- ===== src/Archive/Options/Grammar.antt =====
-- internal/archive/validation.go: the option lists that the two loops accept.
use berth_agent.Prelude.{
  check-bind-eq-ok, ◌↔◌, member_elim, ◌≡◌, refl, inl, inr, ◌↔◌, Bool, true, false, not, ◌&&◌, List,
  [], ◌∷◌, arith, ok, Text, codes, text_eq, if◌then◌else◌, Bool-cases,
}
use berth_agent.Prelude.{member}
use berth_agent.Archive.Options.{
  valid_create_options, valid_extract_options, valid_formats, valid_compression_types,
  requires_value, has_value_options, is_valid_value, validate_create_options,
  validate_extract_options,
}

-- What the command line of create-archive may hold, one option at a time.
pub data CreateOption : Text → Text → Type 0 where
  format : (v : Text) → member v valid_formats ≡ true → CreateOption (codes "--format") v
  output : (v : Text) → CreateOption (codes "--output") v
  exclude : (v : Text) → CreateOption (codes "--exclude") v
  include : (v : Text) → CreateOption (codes "--include") v
  compression :
      (v : Text) → member v valid_compression_types ≡ true → CreateOption (codes "--compression") v

pub data CreateOptions : List Text → Type 0 where
  none_left : CreateOptions []
  option :
      {o v : Text} {rest : List Text}
      → CreateOption o v
      → CreateOptions rest
      → CreateOptions (o ∷ v ∷ rest)

-- And that of extract-archive, which has switches without a value.
pub data ExtractOptions : List Text → Type 0 where
  none_left : ExtractOptions []
  archive :
      (v : Text) {rest : List Text}
      → ExtractOptions rest
      → ExtractOptions (codes "--archive" ∷ v ∷ rest)
  destination :
      (v : Text) {rest : List Text}
      → ExtractOptions rest
      → ExtractOptions (codes "--destination" ∷ v ∷ rest)
  overwrite : {rest : List Text} → ExtractOptions rest → ExtractOptions (codes "--overwrite" ∷ rest)
  create_dirs :
      {rest : List Text} → ExtractOptions rest → ExtractOptions (codes "--create-dirs" ∷ rest)

create_accepts : {opts : List Text} → CreateOptions opts → validate_create_options opts ≡ ok tt
unfolding validate_create_options member text_eq
create_accepts none_left = refl
create_accepts (option (format v h) rest) = rw h (create_accepts rest)
create_accepts (option (output v) rest) = create_accepts rest
create_accepts (option (exclude v) rest) = create_accepts rest
create_accepts (option (include v) rest) = create_accepts rest
create_accepts (option (compression v h) rest) = rw h (create_accepts rest)

create_requires_value : (o : Text) → member o valid_create_options ≡ true → requires_value o ≡ true
create_requires_value o =
    unfold requires_value member text_eq in
    member_elim (λ o. requires_value o ≡ true) o valid_create_options
      (refl, (refl, (refl, (refl, (refl, tt)))))

abbrev value_fits : Text → Text → Bool
value_fits o v = not (has_value_options o && not (is_valid_value o v))

CreateOption-of_member :
    (o v : Text) → member o valid_create_options ≡ true → value_fits o v ≡ true → CreateOption o v
unfolding has_value_options is_valid_value text_eq
CreateOption-of_member o v =
    member_elim (λ o. value_fits o v ≡ true → CreateOption o v) o valid_create_options
      (
        λ h. format v (ground arith),
        (
          (λ h. output v),
          ((λ h. exclude v), ((λ h. include v), ((λ h. compression v (ground arith)), tt))),
        ),
      )

create_sound : (opts : List Text) → validate_create_options opts ≡ ok tt → CreateOptions opts
unfolding validate_create_options
create_sound [] h = none_left
create_sound (o ∷ []) h =
    let (m, k) = check-bind-eq-ok (member o valid_create_options) _ _ h in
    absurd (cc (rw (create_requires_value o m) at k))
create_sound (o ∷ v ∷ rest) h =
    let (m, k) = check-bind-eq-ok (member o valid_create_options) _ _ h in
    let (f, k') = check-bind-eq-ok (value_fits o v) _ _ (rw (create_requires_value o m) at k) in
    option (CreateOption-of_member o v m f) (create_sound rest k')

-- `ValidateCreateOptions` accepts exactly the lists of a create-archive option and its value, in any
-- order and number, where the value of --format is zip, tar or tar.gz and that of --compression is
-- gzip or none.
pub validate_create_options_iff :
    (opts : List Text) → (validate_create_options opts ≡ ok tt) ↔ CreateOptions opts
validate_create_options_iff opts = (create_sound opts, create_accepts)

extract_accepts : {opts : List Text} → ExtractOptions opts → validate_extract_options opts ≡ ok tt
unfolding validate_extract_options member text_eq
extract_accepts none_left = refl
extract_accepts (archive v rest) = extract_accepts rest
extract_accepts (destination v rest) = extract_accepts rest
extract_accepts (overwrite {rest = []} rest) = refl
extract_accepts (overwrite {rest = v ∷ more} rest) = extract_accepts rest
extract_accepts (create_dirs {rest = []} rest) = refl
extract_accepts (create_dirs {rest = v ∷ more} rest) = extract_accepts rest

-- What the loop makes of an option of extract-archive, before the end of the list and at it.
record ExtractCase (o : Text) : Type 0 where
  behind :
      (v : Text) (rest : List Text)
      → (if requires_value o then ExtractOptions rest else ExtractOptions (v ∷ rest))
      → ExtractOptions (o ∷ v ∷ rest)
  last : requires_value o ≡ false → ExtractOptions (o ∷ [])

ExtractCase-of_member : (o : Text) → member o valid_extract_options ≡ true → ExtractCase o
unfolding requires_value member text_eq
ExtractCase-of_member o = member_elim ExtractCase o valid_extract_options (
  record { behind = λ v rest more. archive v more; last = λ e. absurd (cc) },
  (
    record { behind = λ v rest more. destination v more; last = λ e. absurd (cc) },
    (
      record { behind = λ v rest more. overwrite more; last = λ e. overwrite none_left },
      (record { behind = λ v rest more. create_dirs more; last = λ e. create_dirs none_left }, tt),
    ),
  ),
)

extract_sound : (opts : List Text) → validate_extract_options opts ≡ ok tt → ExtractOptions opts
unfolding validate_extract_options
extract_sound [] h = none_left
extract_sound (o ∷ []) h =
    let (m, k) = check-bind-eq-ok (member o valid_extract_options) _ _ h in
    (ExtractCase-of_member o m).last (ground arith)
extract_sound (o ∷ v ∷ rest) h =
    let (m, k) = check-bind-eq-ok (member o valid_extract_options) _ _ h in
    let with_value = extract_sound rest in
    let alone = extract_sound (v ∷ rest) in
    (ExtractCase-of_member o m).behind v rest (elim (Bool-cases (requires_value o)) [
      | inl needed ↦ rw needed (with_value (rw needed at k))
      | inr unneeded ↦ rw unneeded (alone (rw unneeded at k))
    ])

-- `ValidateExtractOptions` accepts exactly the lists, in any order and number, of --archive and
-- --destination, each with a value, and the switches --overwrite and --create-dirs.
pub validate_extract_options_iff :
    (opts : List Text) → (validate_extract_options opts ≡ ok tt) ↔ ExtractOptions opts
validate_extract_options_iff opts = (extract_sound opts, extract_accepts)
