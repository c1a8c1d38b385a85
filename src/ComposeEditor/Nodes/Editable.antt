-- ===== src/ComposeEditor/Nodes/Editable.antt =====
-- internal/composeeditor: the root of a compose file whose services, if there are any, are a mapping.
use berth_agent.Prelude.{
  ◌≡◌, ◌≢◌, refl, sym, true, Option, none, some, arith, Result, ok, err, ◌>>=◌, Text, codes,
  text_eq_iff,
}
use berth_agent.ComposeEditor.Nodes.{
  document, mapping, sequence, scalar, alias, Node, node, Nodes, end, EditError, is_mapping,
  mapping_node, find_pair, find_key, put_pair, delete_pair, set_node, delete_key, at_pair, at_key,
}
use berth_agent.ComposeEditor.Nodes.Lookup.{
  Even, found_or, find_pair-put_pair, Even-put_pair, at_pair_lem,
}
use berth_agent.ComposeEditor.Nodes.Paired.{
  IsPaired, Each, Pairs, Keeps, Pairs-at_pair, Each-find_pair, Each-put_pair, Keeps_weaken,
  set_node-IsPaired, delete_key-IsPaired, at_key-IsPaired,
}

abbrev pub services : Text
services = codes "services"

abbrev pub IsServices : Node → Type 0
IsServices n = (is_mapping n ≡ true) × IsPaired n

unfoldable pub IsMappingOrAbsent : Option Node → Type 0
IsMappingOrAbsent none = Unit {0}
IsMappingOrAbsent (some n) = is_mapping n ≡ true

unfoldable pub IsEditable : Node → Type 0
unfolding IsMappingOrAbsent
IsEditable (node mapping value tag content) =
    IsMappingOrAbsent (find_pair content services) × Pairs content
IsEditable n = ⊥

Keeps-ok {ℓ} :
    {A : Type ℓ} (P : A → Type 0) (r : Result EditError A) → Keeps P r → (a : A) → r ≡ ok a → P a
unfolding Keeps
Keeps-ok P r h a e = rw e at h

with_result {ℓ} :
    {A B : Type ℓ} (P : A → Type 0) (Q : B → Type 0) (r : Result EditError A)
    (f : A → Result EditError B)
    → Keeps P r
    → ((a : A) → r ≡ ok a → P a → Keeps Q (f a))
    → Keeps Q (r >>= f)
unfolding Keeps
with_result P Q (ok a) f h g = g a refl h
with_result P Q (err e) f h g = h

only_found :
    (f : Node → Result EditError Node) (content : Nodes) (s v : Node)
    → find_pair content services ≡ some s
    → find_pair content services ≡ some v
    → is_mapping s ≡ true
    → ((v : Node) → IsServices v → Keeps IsServices (f v))
    → IsPaired v
    → Keeps IsServices (f v)
only_found f content s v a b m g p = let same : s ≡ v = cc in g v (rw (sym same) m, p)

-- A change of the services.
pub at_services :
    (f : Node → Result EditError Node) (root s : Node)
    → IsEditable root
    → find_key root services ≡ some s
    → ((v : Node) → IsServices v → Keeps IsServices (f v))
    → Keeps IsEditable (at_key f services root)
unfolding IsEditable at_key
at_services f (node mapping value tag content) s (m, (e, h)) found g =
    let there : find_pair content services ≡ some s = unfold find_key in found in
    let is_map : is_mapping s ≡ true = unfold IsMappingOrAbsent in rw there at m in
    with_result Pairs IsEditable (at_pair f services content) (λ c. ok (node mapping value tag c))
      (Pairs-at_pair f services content
        (λ v p b.
          Keeps_weaken IsServices IsPaired (f v) (λ n. λ q. q.1)
            (only_found f content s v there b is_map g p))
        e h)
      (λ rest done p.
        let (w, a, b) = (at_pair_lem f services content rest e done).here s there in
        let kept =
          Keeps-ok IsServices (f s)
            (only_found f content s s there there is_map g
              (Each-find_pair content services s e h there))
            w a in
        unfold Keeps IsMappingOrAbsent in (rw b kept.0, p))
at_services f (node document value tag content) s i found g = absurd i
at_services f (node sequence value tag content) s i found g = absurd i
at_services f (node scalar value tag content) s i found g = absurd i
at_services f (node alias value tag content) s i found g = absurd i

-- A change of another section.
pub at_other :
    (f : Node → Result EditError Node) (key : Text) (root : Node)
    → key ≢ services
    → IsEditable root
    → ((v : Node) → IsPaired v → Keeps IsPaired (f v))
    → Keeps IsEditable (at_key f key root)
unfolding IsEditable at_key
at_other f key (node mapping value tag content) ne (m, (e, h)) g =
    with_result Pairs IsEditable (at_pair f key content) (λ c. ok (node mapping value tag c))
      (Pairs-at_pair f key content (λ v p b. g v p) e h)
      (λ rest done p.
        let same = (at_pair_lem f key content rest e done).others services ne in
        unfold Keeps in (rw same m, p))
at_other f key (node document value tag content) ne i g = absurd i
at_other f key (node sequence value tag content) ne i g = absurd i
at_other f key (node scalar value tag content) ne i g = absurd i
at_other f key (node alias value tag content) ne i g = absurd i

-- A section that is set.
pub set_other :
    (root : Node) (key : Text) (new : Node)
    → key ≢ services
    → IsEditable root
    → IsPaired new
    → IsEditable (set_node root key new)
unfolding IsEditable set_node
set_other (node mapping value tag content) key new ne (m, (e, h)) p =
    let put = find_pair-put_pair (λ _. new) new key services content e in
    let same : find_pair (put_pair (λ _. new) new key content) services
        ≡ find_pair content services =
      ground (arith, put, text_eq_iff key services, ne) in
    (
      rw same m,
      (
        Even-put_pair (λ _. new) new key content e,
        Each-put_pair (λ _. new) new key content (λ v _. p) p e h,
      ),
    )
set_other (node document value tag content) key new ne i p = absurd i
set_other (node sequence value tag content) key new ne i p = absurd i
set_other (node scalar value tag content) key new ne i p = absurd i
set_other (node alias value tag content) key new ne i p = absurd i

-- The services that are set to an empty mapping.
pub set_services :
    (root : Node)
    → IsEditable root
    → find_key root services ≡ none
    → IsEditable (set_node root services (mapping_node end))
      × (find_key (set_node root services (mapping_node end)) services ≡ some (mapping_node end))
unfolding IsEditable set_node find_key
set_services (node mapping value tag content) (m, (e, h)) absent =
    let new : Node = mapping_node end in
    let put = find_pair-put_pair (λ _. new) new services services content e in
    let found : find_pair (put_pair (λ _. new) new services content) services ≡ some new =
      unfold found_or in ground (arith, put, absent, text_eq_iff services services) in
    let p : IsPaired new = unfold IsPaired Even Each in (tt, tt) in
    (
      (
        unfold IsMappingOrAbsent in rw found refl,
        (
          Even-put_pair (λ _. new) new services content e,
          Each-put_pair (λ _. new) new services content (λ v _. p) p e h,
        ),
      ),
      found,
    )
set_services (node document value tag content) i absent = absurd i
set_services (node sequence value tag content) i absent = absurd i
set_services (node scalar value tag content) i absent = absurd i
set_services (node alias value tag content) i absent = absurd i

-- The helpers on the node of the services.
set_node_mapping :
    (n : Node) (key : Text) (new : Node)
    → is_mapping n ≡ true
    → is_mapping (set_node n key new) ≡ true
unfolding set_node
set_node_mapping (node mapping value tag content) key new m = refl
set_node_mapping (node document value tag content) key new m = m
set_node_mapping (node sequence value tag content) key new m = m
set_node_mapping (node scalar value tag content) key new m = m
set_node_mapping (node alias value tag content) key new m = m

pub set_node-IsServices :
    (n : Node) (key : Text) (new : Node)
    → IsServices n
    → IsPaired new
    → IsServices (set_node n key new)
set_node-IsServices n key new (m, h) p =
    (set_node_mapping n key new m, set_node-IsPaired n key new h p)

in_mapping :
    (r : Result EditError Nodes) (value tag : Text)
    → Keeps IsPaired (r >>= λ content. ok (node mapping value tag content))
    → Keeps IsServices (r >>= λ content. ok (node mapping value tag content))
unfolding Keeps
in_mapping (ok content) value tag h = (refl, h)
in_mapping (err e) value tag h = h

pub delete_key-IsServices :
    (n : Node) (key : Text) → IsServices n → Keeps IsServices (delete_key n key)
unfolding delete_key
delete_key-IsServices (node mapping value tag content) key (m, h) =
    in_mapping (delete_pair key content) value tag
      (delete_key-IsPaired (node mapping value tag content) key h)
delete_key-IsServices (node document value tag content) key (m, h) = absurd (cc)
delete_key-IsServices (node sequence value tag content) key (m, h) = absurd (cc)
delete_key-IsServices (node scalar value tag content) key (m, h) = absurd (cc)
delete_key-IsServices (node alias value tag content) key (m, h) = absurd (cc)

pub at_key-IsServices :
    (f : Node → Result EditError Node) (key : Text) (n : Node)
    → ((v : Node) → IsPaired v → Keeps IsPaired (f v))
    → IsServices n
    → Keeps IsServices (at_key f key n)
unfolding at_key
at_key-IsServices f key (node mapping value tag content) g (m, h) =
    in_mapping (at_pair f key content) value tag
      (at_key-IsPaired f key (node mapping value tag content) g h)
at_key-IsServices f key (node document value tag content) g (m, h) = absurd (cc)
at_key-IsServices f key (node sequence value tag content) g (m, h) = absurd (cc)
at_key-IsServices f key (node scalar value tag content) g (m, h) = absurd (cc)
at_key-IsServices f key (node alias value tag content) g (m, h) = absurd (cc)
