-- ===== src/Attrs/Trie.antt =====
-- The trie of internal/attrs/unflatten.go. Its two maps are association lists without a repeated key; that of
-- the indices is kept in ascending order, so that a walk over it is a walk over sortedIndices. (An index is
-- the value of a canonical segment, which is below 2^63, so its pattern orders as the int does.)
use tracewell.Prelude.{
  ℕ, String, Bool, true, false, List, [], ◌∷◌, Option, none, some, str_eq, ltb, ◌==◌, codes,
  if◌then◌else◌,
}
use tracewell.Value.{Value}
use tracewell.Attrs.Segments.{digit_value, itoa}

mutual
  pub data Node : Type 0 where
    node : Option Value → Indices → Branches → Node

  pub data Indices : Type 0 where
    no_indices : Indices
    index : ℕ → Node → Indices → Indices

  pub data Branches : Type 0 where
    no_branches : Branches
    branch : String → Node → Branches → Branches

abbrev pub new_node : Node
new_node = node none no_indices no_branches

unfoldable pub branch_of : String → Branches → Option Node
branch_of k no_branches = none
branch_of k (branch j n bs) = if str_eq j k then some n else branch_of k bs

unfoldable pub put_branch : String → Node → Branches → Branches
put_branch k c no_branches = branch k c no_branches
put_branch k c (branch j n bs) =
    let rest = put_branch k c bs in if str_eq j k then branch j c bs else branch j n rest

unfoldable pub index_of : ℕ → Indices → Option Node
index_of i no_indices = none
index_of i (index j n is) = if j == i then some n else index_of i is

unfoldable pub put_index : ℕ → Node → Indices → Indices
put_index i c no_indices = index i c no_indices
put_index i c (index j n is) =
    let rest = put_index i c is in
    if j == i then index j c is else if ltb i j then index i c (index j n is) else index j n rest

-- delete(n.indices, idx)
unfoldable pub delete_index : ℕ → Indices → Indices
delete_index i no_indices = no_indices
delete_index i (index j n is) =
    let rest = delete_index i is in if j == i then is else index j n rest

-- the loop of setValue
unfoldable pub demote : Indices → Branches → Branches
demote no_indices bs = bs
demote (index i c is) bs = demote is (put_branch (itoa i) c bs)

-- setValue
unfoldable pub set_value : Value → Node → Node
unfolding demote
set_value v (node _ is bs) = node (some v) no_indices (demote is bs)

-- the node found, or a new one in its place
abbrev pub or_new : Option Node → Node
or_new none = new_node
or_new (some n) = n

abbrev pub has_branches : Branches → Bool
has_branches no_branches = false
has_branches (branch k n bs) = true

-- step returns a child that the caller then writes to; here the write is `f`, and the node comes back with
-- the child that f made of it. At a segment that is no digits, or the last one:
unfoldable pub step_branch : String → (Node → Node) → Node → Node
unfolding branch_of put_branch
step_branch seg f (node v is bs) = node v is (put_branch seg (f (or_new (branch_of seg bs))) bs)

-- at digits that go on
unfoldable pub step_index : String → ℕ → (Node → Node) → Node → Node
unfolding step_branch index_of put_index
step_index seg i f (node v is bs) =
    if has_branches bs
    then step_branch seg f (node v is bs)
    else node v (put_index i (f (or_new (index_of i is))) is) bs

unfoldable pub without_index : Option ℕ → Node → Node
unfolding delete_index
without_index none n = n
without_index (some i) (node v is bs) = node v (delete_index i is) bs

-- step, for the last segment and for the others
unfoldable pub step_last : String → (Node → Node) → Node → Node
unfolding step_branch without_index
step_last seg f n = step_branch seg f (without_index (digit_value (codes seg)) n)

unfoldable pub step_on : String → (Node → Node) → Node → Node
unfolding step_branch step_index
step_on seg f n = elim (digit_value (codes seg)) [
  | none ↦ step_branch seg f n
  | some i ↦ step_index seg i f n
]

-- the loop of add, over the canonical segments of a non-empty key
unfoldable pub add_path : String → List String → Value → Node → Node
unfolding step_last step_on set_value
add_path seg [] v n = step_last seg (set_value v) n
add_path seg (next ∷ segs) v n = step_on seg (add_path next segs v) n
