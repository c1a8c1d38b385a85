-- ===== src/ComposeEditor/Nodes.antt =====
-- internal/composeeditor/yaml_helpers.go: YAML trees and the mappings in them. A pointer to a node that
-- is changed in place is a path to it; a tree of gopkg.in/yaml.v3 shares no nodes. Of a yaml.Node the
-- fields are kept that the editor reads or sets for their meaning: not the style, the anchors and the
-- comments.
pub mod Lookup
pub mod Paired
pub mod Editable
use berth_agent.Prelude.{
  drop, has_prefix, take, ℕ, zero, suc, ◌+◌, Bool, true, false, Option, none, some, [], ◌∷◌, Result,
  ok, err, ◌>>=◌, Text, codes, text_eq, if◌then◌else◌,
}

pub data Kind : Type 0 where
  document mapping sequence scalar alias : Kind

mutual
  pub data Node : Type 0 where
    -- the kind, Value, Tag and Content
    node : Kind → Text → Text → Nodes → Node

  pub data Nodes : Type 0 where
    end : Nodes
    entry : Node → Nodes → Nodes

abbrev pub kind_of : Node → Kind
kind_of (node k value tag content) = k

abbrev pub value_of : Node → Text
value_of (node k value tag content) = value

abbrev pub content_of : Node → Nodes
content_of (node k value tag content) = content

abbrev pub is_mapping : Node → Bool
is_mapping (node mapping value tag content) = true
is_mapping _ = false

abbrev pub is_sequence : Node → Bool
is_sequence (node sequence value tag content) = true
is_sequence _ = false

-- append(ms, ns...)
unfoldable pub append : Nodes → Nodes → Nodes
append end ns = ns
append (entry n ms) ns = entry n (append ms ns)

-- createMappingNode, createSequenceNode, createScalarNode, createNullNode
abbrev pub mapping_node : Nodes → Node
mapping_node content = node mapping [] [] content

abbrev pub sequence_node : Nodes → Node
sequence_node content = node sequence [] [] content

abbrev pub scalar_node : Text → Node
scalar_node value = node scalar value [] end

abbrev pub null_node : Node
null_node = node scalar [] (codes "!!null") end

-- The loop of `findYamlKey`.
unfoldable pub find_pair : Nodes → Text → Option Node
find_pair end key = none
find_pair (entry k end) key = none
find_pair (entry k (entry v rest)) key =
    if text_eq (value_of k) key then some v else find_pair rest key

-- findYamlKey
unfoldable pub find_key : Node → Text → Option Node
unfolding find_pair
find_key (node document value tag end) key = none
find_key (node document value tag (entry n rest)) key = find_key n key
find_key (node mapping value tag content) key = find_pair content key
find_key _ key = none

-- The loop of `setYamlValue` and `setYamlNode`, and the append behind it: `change` is what becomes of
-- the value that is found, and `fresh` the value of a new pair.
unfoldable pub put_pair : (Node → Node) → Node → Text → Nodes → Nodes
put_pair change fresh key end = entry (scalar_node key) (entry fresh end)
put_pair change fresh key (entry k end) = entry k (entry (scalar_node key) (entry fresh end))
put_pair change fresh key (entry k (entry v rest)) =
    if text_eq (value_of k) key
    then entry k (entry (change v) rest)
    else entry k (entry v (put_pair change fresh key rest))

-- A scalar is made of the node in place: its content stays.
abbrev pub made_scalar : Text → Node → Node
made_scalar value (node k old tag content) = node scalar value [] content

-- setYamlValue
unfoldable pub set_value : Node → Text → Text → Node
unfolding put_pair
set_value (node mapping v tag content) key value =
    node mapping v tag (put_pair (made_scalar value) (scalar_node value) key content)
set_value n key value = n

-- setYamlNode
unfoldable pub set_node : Node → Text → Node → Node
unfolding put_pair
set_node (node mapping v tag content) key new =
    node mapping v tag (put_pair (λ _. new) new key content)
set_node n key new = n

pub data EditError : Type 0 where
  no_services invalid_structure panicked : EditError
  service_not_found service_exists : Text → EditError

abbrev pub behind : Node → Node → Result EditError Nodes → Result EditError Nodes
behind k v (ok rest) = ok (entry k (entry v rest))
behind k v (err e) = err e

-- The loop of `deleteYamlKey`. A key that stands last without a value is out of the slice's bounds.
unfoldable pub delete_pair : Text → Nodes → Result EditError Nodes
delete_pair key end = ok end
delete_pair key (entry k end) = if text_eq (value_of k) key then err panicked else ok (entry k end)
delete_pair key (entry k (entry v rest)) =
    let later = delete_pair key rest in
    if text_eq (value_of k) key then ok rest else behind k v later

-- deleteYamlKey
unfoldable pub delete_key : Node → Text → Result EditError Node
unfolding delete_pair
delete_key (node mapping v tag content) key = do
  content' ← delete_pair key content
  ok (node mapping v tag content')
delete_key n key = ok n

-- What a change in place of the node that `findYamlKey` returned makes of a mapping node.
unfoldable pub at_pair : (Node → Result EditError Node) → Text → Nodes → Result EditError Nodes
at_pair f key end = ok end
at_pair f key (entry k end) = ok (entry k end)
at_pair f key (entry k (entry v rest)) =
    let later = at_pair f key rest in
    if text_eq (value_of k) key
    then (f v >>= λ v'. ok (entry k (entry v' rest)))
    else behind k v later

unfoldable pub at_key : (Node → Result EditError Node) → Text → Node → Result EditError Node
unfolding at_pair
at_key f key (node mapping v tag content) = do
  content' ← at_pair f key content
  ok (node mapping v tag content')
at_key f key n = ok n

-- strings.Index(entry, separator)
pub index_of : Text → Text → Option ℕ
index_of [] separator = if has_prefix [] separator then some 0 else none
index_of (c ∷ s) separator =
    if has_prefix (c ∷ s) separator
    then some 0
    else elim (index_of s separator) [ none ↦ none | some i ↦ some (i + 1) ]

-- A sequence entry as a pair.
abbrev pub as_pair : Text → Option ℕ → Text × Text
as_pair item none = (item, [])
as_pair item (some zero) = (item, [])
as_pair item (some (suc i)) = (take (suc i) item, drop (suc i + 1) item)

-- convertSequenceContent
unfoldable pub convert_content : Nodes → Text → Nodes
unfolding index_of
convert_content end separator = end
convert_content (entry (node scalar item tag content) rest) separator =
    let (key, value) = as_pair item (index_of item separator) in
    entry (scalar_node key) (entry (scalar_node value) (convert_content rest separator))
convert_content (entry _ rest) separator = convert_content rest separator
