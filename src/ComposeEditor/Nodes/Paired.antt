-- ===== src/ComposeEditor/Nodes/Paired.antt =====
-- internal/composeeditor: trees in which every mapping has a value behind each key.
use berth_agent.Prelude.{
  subst, ◌≡◌, refl, inl, inr, some, Result, ok, err, ◌>>=◌, Text, text_eq, Bool-cases,
}
use berth_agent.ComposeEditor.Nodes.{
  Kind, document, mapping, sequence, scalar, alias, Node, node, Nodes, end, entry, append,
  EditError, panicked, scalar_node, find_pair, put_pair, set_node, set_value, delete_pair,
  delete_key, at_pair, at_key, convert_content, behind, value_of, made_scalar,
}
use berth_agent.ComposeEditor.Nodes.Lookup.{Even, Even-put_pair}

-- Every mapping below these nodes has a value behind each key.
unfoldable mutual
  pub IsPaired : Node → Type 0
  IsPaired (node mapping value tag content) = Even content × Each content
  IsPaired (node document value tag content) = Each content
  IsPaired (node sequence value tag content) = Each content
  IsPaired (node scalar value tag content) = Each content
  IsPaired (node alias value tag content) = Each content

  pub Each : Nodes → Type 0
  Each end = Unit {0}
  Each (entry n ns) = IsPaired n × Each ns

-- The elements of such a mapping.
abbrev pub Pairs : Nodes → Type 0
Pairs content = Even content × Each content

pub Pairs-append : (ms ns : Nodes) → Pairs ms → Pairs ns → Pairs (append ms ns)
unfolding append Even Each
Pairs-append end ns m n = n
Pairs-append (entry k end) ns (e, m) n = absurd e
Pairs-append (entry k (entry v ms)) ns (e, (pk, (pv, m))) n =
    let (a, b) = Pairs-append ms ns (e, m) n in (a, (pk, (pv, b)))

pub Each-put_pair :
    (change : Node → Node) (fresh : Node) (key : Text) (content : Nodes)
    → ((v : Node) → IsPaired v → IsPaired (change v))
    → IsPaired fresh
    → Even content
    → Each content
    → Each (put_pair change fresh key content)
unfolding put_pair Even IsPaired Each
Each-put_pair change fresh key end c f e h = (tt, (f, tt))
Each-put_pair change fresh key (entry k end) c f e h = absurd e
Each-put_pair change fresh key (entry k (entry v rest)) c f e (pk, (pv, h)) =
    elim (Bool-cases (text_eq (value_of k) key)) [
      | inl same ↦ rw same (pk, (c v pv, h))
      | inr other ↦ rw other (pk, (pv, Each-put_pair change fresh key rest c f e h))
    ]

pub Each-find_pair :
    (content : Nodes) (key : Text) (v : Node)
    → Even content
    → Each content
    → find_pair content key ≡ some v
    → IsPaired v
unfolding find_pair Even Each
Each-find_pair end key v e h f = absurd (cc)
Each-find_pair (entry k end) key v e h f = absurd e
Each-find_pair (entry k (entry w rest)) key v e (pk, (pw, h)) f =
    elim (Bool-cases (text_eq (value_of k) key)) [
      | inl same ↦
          let found : some w ≡ some v = rw same at f in
          let equal : w ≡ v = cc in subst IsPaired equal pw
      | inr differs ↦ Each-find_pair rest key v e h (rw differs at f)
    ]

unfoldable pub IsRefusal : EditError → Type 0
IsRefusal panicked = ⊥
IsRefusal e = Unit {0}

-- A result that is no panic, and has this property if it is no error.
unfoldable pub Keeps {ℓ} : {A : Type ℓ} → (A → Type 0) → Result EditError A → Type 0
unfolding IsRefusal
Keeps P (ok a) = P a
Keeps P (err e) = IsRefusal e

pub Keeps-then {ℓ} :
    {A B : Type ℓ} (P : A → Type 0) (Q : B → Type 0) (r : Result EditError A)
    (f : A → Result EditError B)
    → Keeps P r
    → ((a : A) → P a → Keeps Q (f a))
    → Keeps Q (r >>= f)
unfolding Keeps
Keeps-then P Q (ok a) f h g = g a h
Keeps-then P Q (err e) f h g = h

pub Keeps_weaken {ℓ} :
    {A : Type ℓ} (P Q : A → Type 0) (r : Result EditError A)
    → ((a : A) → P a → Q a)
    → Keeps P r
    → Keeps Q r
unfolding Keeps
Keeps_weaken P Q (ok a) f h = f a h
Keeps_weaken P Q (err e) f h = h

pub Keeps-behind :
    (k v : Node) (later : Result EditError Nodes)
    → IsPaired k
    → IsPaired v
    → Keeps Pairs later
    → Keeps Pairs (behind k v later)
unfolding Keeps IsPaired Each Even
Keeps-behind k v (ok rest) pk pv h = (h.0, (pk, (pv, h.1)))
Keeps-behind k v (err e) pk pv h = h

pub Pairs-delete_pair :
    (key : Text) (content : Nodes)
    → Even content
    → Each content
    → Keeps Pairs (delete_pair key content)
unfolding delete_pair Even IsPaired Each Keeps
Pairs-delete_pair key end e h = (tt, tt)
Pairs-delete_pair key (entry k end) e h = absurd e
Pairs-delete_pair key (entry k (entry v rest)) e (pk, (pv, h)) =
    elim (Bool-cases (text_eq (value_of k) key)) [
      | inl same ↦ rw same (e, h)
      | inr differs ↦
          rw differs
            (Keeps-behind k v (delete_pair key rest) pk pv (Pairs-delete_pair key rest e h))
    ]

pub Pairs-at_pair :
    (f : Node → Result EditError Node) (key : Text) (content : Nodes)
    → ((v : Node) → IsPaired v → find_pair content key ≡ some v → Keeps IsPaired (f v))
    → Even content
    → Each content
    → Keeps Pairs (at_pair f key content)
unfolding at_pair find_pair Even IsPaired Each Keeps
Pairs-at_pair f key end g e h = (tt, tt)
Pairs-at_pair f key (entry k end) g e h = absurd e
Pairs-at_pair f key (entry k (entry v rest)) g e (pk, (pv, h)) =
    elim (Bool-cases (text_eq (value_of k) key)) [
      | inl same ↦ rw same (
          Keeps-then IsPaired Pairs (f v) (λ v'. ok (entry k (entry v' rest)))
            (g v pv (rw same refl)) (λ v' p. (e, (pk, (p, h)))))
      | inr differs ↦ rw differs (
          Keeps-behind k v (at_pair f key rest) pk pv
            (Pairs-at_pair f key rest (λ w pw found. g w pw (rw differs found)) e h))
    ]

-- The helpers on a mapping node.
pub set_node-IsPaired :
    (n : Node) (key : Text) (new : Node) → IsPaired n → IsPaired new → IsPaired (set_node n key new)
unfolding set_node IsPaired
set_node-IsPaired (node mapping v tag content) key new (e, h) p = (
  Even-put_pair (λ _. new) new key content e,
  Each-put_pair (λ _. new) new key content (λ v _. p) p e h,
)
set_node-IsPaired (node document v tag content) key new h p = h
set_node-IsPaired (node sequence v tag content) key new h p = h
set_node-IsPaired (node scalar v tag content) key new h p = h
set_node-IsPaired (node alias v tag content) key new h p = h

Each-of_IsPaired :
    (k : Kind) (value tag : Text) (content : Nodes)
    → IsPaired (node k value tag content)
    → Each content
unfolding IsPaired
Each-of_IsPaired mapping value tag content h = h.1
Each-of_IsPaired document value tag content h = h
Each-of_IsPaired sequence value tag content h = h
Each-of_IsPaired scalar value tag content h = h
Each-of_IsPaired alias value tag content h = h

made_scalar-IsPaired : (value : Text) (n : Node) → IsPaired n → IsPaired (made_scalar value n)
unfolding IsPaired
made_scalar-IsPaired value (node k old tag content) h = Each-of_IsPaired k old tag content h

pub set_value-IsPaired :
    (n : Node) (key value : Text) → IsPaired n → IsPaired (set_value n key value)
unfolding set_value IsPaired
set_value-IsPaired (node mapping v tag content) key value (e, h) = (
  Even-put_pair (made_scalar value) (scalar_node value) key content e,
  Each-put_pair (made_scalar value) (scalar_node value) key content (made_scalar-IsPaired value)
      (unfold Each in tt) e h,
)
set_value-IsPaired (node document v tag content) key value h = h
set_value-IsPaired (node sequence v tag content) key value h = h
set_value-IsPaired (node scalar v tag content) key value h = h
set_value-IsPaired (node alias v tag content) key value h = h

pub delete_key-IsPaired : (n : Node) (key : Text) → IsPaired n → Keeps IsPaired (delete_key n key)
unfolding delete_key IsPaired Keeps
delete_key-IsPaired (node mapping v tag content) key (e, h) =
    Keeps-then Pairs IsPaired (delete_pair key content) (λ c. ok (node mapping v tag c))
      (Pairs-delete_pair key content e h) (λ c p. p)
delete_key-IsPaired (node document v tag content) key h = h
delete_key-IsPaired (node sequence v tag content) key h = h
delete_key-IsPaired (node scalar v tag content) key h = h
delete_key-IsPaired (node alias v tag content) key h = h

pub at_key-IsPaired :
    (f : Node → Result EditError Node) (key : Text) (n : Node)
    → ((v : Node) → IsPaired v → Keeps IsPaired (f v))
    → IsPaired n
    → Keeps IsPaired (at_key f key n)
unfolding at_key IsPaired Keeps
at_key-IsPaired f key (node mapping v tag content) g (e, h) =
    Keeps-then Pairs IsPaired (at_pair f key content) (λ c. ok (node mapping v tag c))
      (Pairs-at_pair f key content (λ w pw found. g w pw) e h) (λ c p. p)
at_key-IsPaired f key (node document v tag content) g h = h
at_key-IsPaired f key (node sequence v tag content) g h = h
at_key-IsPaired f key (node scalar v tag content) g h = h
at_key-IsPaired f key (node alias v tag content) g h = h

pub Pairs-convert_content :
    (content : Nodes) (separator : Text) → Pairs (convert_content content separator)
unfolding convert_content Even Each IsPaired
Pairs-convert_content end separator = (tt, tt)
Pairs-convert_content (entry (node scalar item tag content) rest) separator =
    let (e, h) = Pairs-convert_content rest separator in (e, (tt, (tt, h)))
Pairs-convert_content (entry (node document item tag content) rest) separator =
    Pairs-convert_content rest separator
Pairs-convert_content (entry (node mapping item tag content) rest) separator =
    Pairs-convert_content rest separator
Pairs-convert_content (entry (node sequence item tag content) rest) separator =
    Pairs-convert_content rest separator
Pairs-convert_content (entry (node alias item tag content) rest) separator =
    Pairs-convert_content rest separator
