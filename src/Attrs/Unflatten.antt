-- ===== src/Attrs/Unflatten.antt =====
-- Unflatten of internal/attrs/unflatten.go, and LoadJSONStrings of internal/attrs/jsonstrings.go.
use Prim.Native.String.{◌++◌ as string_append}
use tracewell.Prelude.{
  String, Bool, true, false, ◌||◌, List, [], ◌∷◌, map, Option, none, some, str_eq, if◌then◌else◌,
}
use tracewell.Value.{Value, null, str, arr, obj, Values, nil, cons, Fields, end, insert}
use tracewell.Attrs.Segments.{segments, canonical_seg, itoa}
use tracewell.Attrs.Trie.{
  Node, node, new_node, Indices, no_indices, index, Branches, no_branches, branch, add_path,
}

pub record Kv : Type 0 where
  pub key : String
  pub value : Value

abbrev pub is_nil : Value → Bool
is_nil null = true
is_nil _ = false

-- the walk of add, from the segments of the key
unfoldable pub add_segments : List String → Value → Node → Node
add_segments [] v root = root
add_segments (seg ∷ segs) v root = add_path (canonical_seg seg) (map canonical_seg segs) v root

-- add
unfoldable pub add : Node → String → Value → Node
unfolding add_segments
add root key v = if is_nil v then root else add_segments (segments key) v root

-- which of the two asArray chooses: the array of the indices, or the map of the branches
unfoldable pub array_or_map : Indices → Branches → Values → Fields → Value
array_or_map (index i c is) no_branches vs m = arr vs
array_or_map _ _ vs m = obj m

unfoldable mutual
  unfolding array_or_map

  -- materializeInto; the branches of a valued node are written under prefix `k.`, those of a plain one bare
  pub materialize_into : String → Node → Fields → Fields
  materialize_into k (node (some v) is bs) out =
      into_indices (string_append k ".") is
        (into_branches (string_append k ".") bs (insert k v out))
  materialize_into k (node none is bs) out =
      insert k (array_or_map is bs (array_of is) (into_branches "" bs end)) out

  pub into_branches : String → Branches → Fields → Fields
  into_branches prefix no_branches out = out
  into_branches prefix (branch k c bs) out =
      into_branches prefix bs (materialize_into (string_append prefix k) c out)

  pub into_indices : String → Indices → Fields → Fields
  into_indices prefix no_indices out = out
  into_indices prefix (index i c is) out =
      into_indices prefix is (materialize_into (string_append prefix (itoa i)) c out)

  -- the loop of asArray
  pub array_of : Indices → Values
  array_of no_indices = nil
  array_of (index i c is) = cons (materialize_value c) (array_of is)

  -- materializeValue
  pub materialize_value : Node → Value
  materialize_value (node v is bs) = array_or_map is bs (array_of is) (into_branches "" bs end)

-- materializeRoot
unfoldable pub materialize_root : Node → Fields
materialize_root (node v is bs) = into_branches "" bs end

unfoldable pub add_all : List Kv → Node → Node
add_all [] root = root
add_all (kv ∷ kvs) root = add_all kvs (add root kv.key kv.value)

-- Unflatten
unfoldable pub unflatten : List Kv → Fields
unfolding add_all
unflatten pairs = materialize_root (add_all pairs new_node)

-- jsonStringKeys
abbrev json_string_key : String → Bool
json_string_key k =
    str_eq k "document.metadata"
    || (str_eq k "llm.prompt_template.variables"
        || (str_eq k "metadata" || str_eq k "tool.parameters"))

-- json.Unmarshal into an `any`: nothing on an error; a JSON null is a nil
module _ (unmarshal : String → Option Value) where
  decoded : Value → Value
  decoded (str s) = elim (unmarshal s) [ none ↦ str s | some v ↦ v ]
  decoded v = v

  load_json_string : Kv → Kv
  unfolding decoded
  load_json_string kv = record {
    key = kv.key;
    value = if json_string_key kv.key then decoded kv.value else kv.value;
  }

  -- LoadJSONStrings
  unfoldable pub load_json_strings : List Kv → List Kv
  unfolding load_json_string
  load_json_strings pairs = map load_json_string pairs
