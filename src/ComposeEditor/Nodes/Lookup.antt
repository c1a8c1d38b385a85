-- ===== src/ComposeEditor/Nodes/Lookup.antt =====
-- internal/composeeditor: what is found in a mapping after a change of it.
use berth_agent.Prelude.{
  subst, Result-cases, ◌≡◌, ◌≢◌, refl, inl, inr, true, false, Option, none, some, arith, Result, ok,
  Text, text_eq, text_eq_iff, if◌then◌else◌, Bool-cases,
}
use berth_agent.ComposeEditor.Nodes.{
  Node, Nodes, end, entry, EditError, value_of, find_pair, put_pair, delete_pair, at_pair,
}

-- A pair is put behind all others, or takes the place of the first with its key. Only the elements of
-- a mapping with a value behind each key count.
unfoldable pub Even : Nodes → Type 0
Even end = Unit {0}
Even (entry k end) = ⊥
Even (entry k (entry v rest)) = Even rest

unfoldable pub found_or {ℓ} : {A : Type ℓ} → (Node → A) → A → Option Node → A
found_or f a none = a
found_or f a (some n) = f n

pub find_pair-put_pair :
    (change : Node → Node) (fresh : Node) (key other : Text) (content : Nodes)
    → Even content
    → find_pair (put_pair change fresh key content) other ≡ (
        if text_eq key other
        then some (found_or change fresh (find_pair content key))
        else find_pair content other)
unfolding find_pair put_pair Even found_or
find_pair-put_pair change fresh key other end h = ground arith
find_pair-put_pair change fresh key other (entry k end) h = absurd h
find_pair-put_pair change fresh key other (entry k (entry v rest)) h = ground (
  arith,
  text_eq_iff (value_of k) key,
  text_eq_iff (value_of k) other,
  text_eq_iff key other,
  find_pair-put_pair change fresh key other rest h,
)

pub Even-put_pair :
    (change : Node → Node) (fresh : Node) (key : Text) (content : Nodes)
    → Even content
    → Even (put_pair change fresh key content)
unfolding put_pair Even
Even-put_pair change fresh key end h = tt
Even-put_pair change fresh key (entry k end) h = absurd h
Even-put_pair change fresh key (entry k (entry v rest)) h =
    elim (Bool-cases (text_eq (value_of k) key)) [
      | inl same ↦ rw same h
      | inr other ↦ rw other (Even-put_pair change fresh key rest h)
    ]

-- No key comes twice.
unfoldable pub Distinct : Nodes → Type 0
Distinct end = Unit {0}
Distinct (entry k end) = Unit {0}
Distinct (entry k (entry v rest)) = (find_pair rest (value_of k) ≡ none) × Distinct rest

pub Distinct-put_pair :
    (change : Node → Node) (fresh : Node) (key : Text) (content : Nodes)
    → Even content
    → Distinct content
    → Distinct (put_pair change fresh key content)
unfolding put_pair Even Distinct
Distinct-put_pair change fresh key end h d = (unfold find_pair in refl, tt)
Distinct-put_pair change fresh key (entry k end) h d = absurd h
Distinct-put_pair change fresh key (entry k (entry v rest)) h d =
    elim (Bool-cases (text_eq (value_of k) key)) [
      | inl same ↦ rw same d
      | inr other ↦ rw other (
        ground (
          arith,
          d.0,
          find_pair-put_pair change fresh key (value_of k) rest h,
          text_eq_iff (value_of k) key,
          text_eq_iff key (value_of k),
        ),
        Distinct-put_pair change fresh key rest h d.1,
      )
    ]

-- A deletion from a mapping with a value behind each key never panics, and what is left is what was
-- there but for the key, if no key comes twice.
pub record Deleted (key : Text) (content : Nodes) : Type 0 where
  pub rest : Nodes
  pub done : delete_pair key content ≡ ok rest
  pub even : Even rest
  pub found :
      Distinct content
      → (other : Text)
      → find_pair rest other ≡ (if text_eq key other then none else find_pair content other)
  pub distinct : Distinct content → Distinct rest

delete_first :
    (key other : Text) (k v : Node) (rest : Nodes)
    → text_eq (value_of k) key ≡ true
    → find_pair rest (value_of k) ≡ none
    → find_pair rest other
      ≡ (if text_eq key other then none else find_pair (entry k (entry v rest)) other)
unfolding find_pair
delete_first key other k v rest same d =
    ground (
      arith,
      d,
      text_eq_iff (value_of k) key,
      text_eq_iff (value_of k) other,
      text_eq_iff key other,
    )

delete_later :
    (key other : Text) (k v : Node) (rest rest' : Nodes)
    → text_eq (value_of k) key ≡ false
    → find_pair rest' other ≡ (if text_eq key other then none else find_pair rest other)
    → find_pair (entry k (entry v rest')) other
      ≡ (if text_eq key other then none else find_pair (entry k (entry v rest)) other)
unfolding find_pair
delete_later key other k v rest rest' differs ih =
    ground
      (arith, text_eq_iff (value_of k) key, text_eq_iff (value_of k) other, text_eq_iff key other)

pub delete_pair_lem : (key : Text) (content : Nodes) → Even content → Deleted key content
unfolding delete_pair Even Distinct
delete_pair_lem key end h = record {
  rest = end;
  done = refl;
  even = tt;
  found = λ d other. unfold find_pair in ground arith;
  distinct = λ d. tt;
}
delete_pair_lem key (entry k end) h = absurd h
delete_pair_lem key (entry k (entry v rest)) h =
    let t = delete_pair_lem key rest h in
    elim (Bool-cases (text_eq (value_of k) key)) [
      | inl same ↦ record {
        rest = rest;
        done = rw same refl;
        even = h;
        found = λ d other. delete_first key other k v rest same d.0;
        distinct = λ d. d.1;
      }
      | inr differs ↦ record {
        rest = entry k (entry v t.rest);
        done = rw (differs, t.done) refl;
        even = t.even;
        found = λ d other. delete_later key other k v rest t.rest differs (t.found d.1 other);
        distinct = λ d. (ground (arith, d.0, t.found d.1 (value_of k)), t.distinct d.1);
      }
    ]

-- A change in place of the value of a key keeps all else.
pub record Changed (f : Node → Result EditError Node) (key : Text) (content rest : Nodes)
    : Type 0 where
  pub even : Even rest
  pub others : (other : Text) → key ≢ other → find_pair rest other ≡ find_pair content other
  pub here :
      (v : Node)
      → find_pair content key ≡ some v
      → (v' : Node) × (f v ≡ ok v') × (find_pair rest key ≡ some v')

Changed-first :
    (f : Node → Result EditError Node) (key : Text) (k v v' : Node) (more : Nodes)
    → Even more
    → text_eq (value_of k) key ≡ true
    → f v ≡ ok v'
    → Changed f key (entry k (entry v more)) (entry k (entry v' more))
Changed-first f key k v v' more h same done = record {
  even = unfold Even in h;
  others = λ other ne.
      unfold find_pair in
      ground (arith, text_eq_iff (value_of k) key, text_eq_iff (value_of k) other, ne);
  here = λ w e. (v', unfold find_pair in ground arith, unfold find_pair in rw same refl);
}

Changed-later :
    (f : Node → Result EditError Node) (key : Text) (k v : Node) (more more' : Nodes)
    → text_eq (value_of k) key ≡ false
    → Changed f key more more'
    → Changed f key (entry k (entry v more)) (entry k (entry v more'))
Changed-later f key k v more more' differs c = record {
  even = unfold Even in c.even;
  others = λ other ne. unfold find_pair in rw (c.others other ne) refl;
  here = λ w e.
      let (w', a, b) = c.here w (unfold find_pair in (rw differs at e)) in
      (w', a, unfold find_pair in rw differs b);
}

pub at_pair_lem :
    (f : Node → Result EditError Node) (key : Text) (content rest : Nodes)
    → Even content
    → at_pair f key content ≡ ok rest
    → Changed f key content rest
unfolding at_pair Even
at_pair_lem f key end rest h e =
    let same : end ≡ rest = cc in
    subst (Changed f key end) same (record {
      even = tt;
      others = λ other ne. refl;
      here = λ v k. unfold find_pair in absurd (cc);
    })
at_pair_lem f key (entry k end) rest h e = absurd h
at_pair_lem f key (entry k (entry v more)) rest h e = elim (Bool-cases (text_eq (value_of k) key)) [
  | inl same ↦ elim (Result-cases (f v)) [
    | inl (v', done) ↦
        let whole : ◌≡◌ {A = Result EditError Nodes} (ok (entry k (entry v' more))) (ok rest) =
          rw (same, done) at e in
        let r : entry k (entry v' more) ≡ rest = cc in
        subst (Changed f key (entry k (entry v more))) r
          (Changed-first f key k v v' more h same done)
    | inr (x, failed) ↦ absurd (cc (rw (same, failed) at e))
  ]
  | inr differs ↦ elim (Result-cases (at_pair f key more)) [
    | inl (more', done) ↦
        let whole : ◌≡◌ {A = Result EditError Nodes} (ok (entry k (entry v more'))) (ok rest) =
          rw (differs, done) at e in
        let r : entry k (entry v more') ≡ rest = cc in
        subst (Changed f key (entry k (entry v more))) r
          (Changed-later f key k v more more' differs (at_pair_lem f key more more' h done))
    | inr (x, failed) ↦ absurd (cc (rw (differs, failed) at e))
  ]
]

-- A change of a value that is there, and that succeeds on it, succeeds.
pub at_pair_total :
    (f : Node → Result EditError Node) (key : Text) (content : Nodes) (v v' : Node)
    → Even content
    → find_pair content key ≡ some v
    → f v ≡ ok v'
    → (rest : Nodes) × (at_pair f key content ≡ ok rest)
unfolding at_pair find_pair Even
at_pair_total f key end v v' h e done = absurd (cc)
at_pair_total f key (entry k end) v v' h e done = absurd h
at_pair_total f key (entry k (entry w more)) v v' h e done =
    elim (Bool-cases (text_eq (value_of k) key)) [
      | inl same ↦
          let found : some w ≡ some v = rw same at e in
          let equal : w ≡ v = cc in (entry k (entry v' more), rw (same, equal, done) refl)
      | inr differs ↦
          let (rest, later) = at_pair_total f key more v v' h (rw differs at e) done in
          (entry k (entry w rest), rw (differs, later) refl)
    ]

-- A change that keeps the value keeps the mapping.
pub at_pair_same :
    (f : Node → Result EditError Node) (key : Text) (content : Nodes) (v : Node)
    → find_pair content key ≡ some v
    → f v ≡ ok v
    → at_pair f key content ≡ ok content
unfolding at_pair find_pair
at_pair_same f key end v e done = refl
at_pair_same f key (entry k end) v e done = refl
at_pair_same f key (entry k (entry w more)) v e done =
    elim (Bool-cases (text_eq (value_of k) key)) [
      | inl same ↦
          let found : some w ≡ some v = rw same at e in
          let equal : w ≡ v = cc in rw (same, equal, done) refl
      | inr differs ↦ rw (differs, at_pair_same f key more v (rw differs at e) done) refl
    ]
