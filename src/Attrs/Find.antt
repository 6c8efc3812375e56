-- ===== src/Attrs/Find.antt =====
-- What add of internal/attrs/unflatten.go wrote is found again along the key.
use tracewell.Prelude.{
  ℕ, String, false, List, [], ◌∷◌, map, Option, none, some, codes, Option-cases, inl, inr, ◌≡◌, ◌≢◌,
  refl, arith, eq_refl,
}
use tracewell.Value.{Value}
use tracewell.Attrs.Segments.{digit_value, canonical_seg, segments}
use tracewell.Attrs.Trie.{
  Node, node, Indices, no_indices, index, Branches, no_branches, branch, branch_of, put_branch,
  index_of, put_index, set_value, or_new, step_branch, step_index, step_last, step_on, add_path,
  without_index,
}
use tracewell.Attrs.Unflatten.{add, add_segments, is_nil}

value_of : Node → Option Value
value_of (node v is bs) = v

index_child : Option ℕ → Indices → Option Node
index_child none is = none
index_child (some i) is = index_of i is

or_index : Option Node → Option Node → Option Node
or_index none n = n
or_index (some c) n = some c

-- the child under a segment: a branch, and otherwise an index
child_of : String → Node → Option Node
unfolding index_child or_index
child_of seg (node v is bs) = or_index (branch_of seg bs) (index_child (digit_value (codes seg)) is)

-- an independent reading of the trie: the value at the end of a path
find_path : String → List String → Node → Option Value
unfolding value_of child_of
find_path seg [] n = elim (child_of seg n) [ none ↦ none | some c ↦ value_of c ]
find_path seg (next ∷ segs) n = elim (child_of seg n) [
  | none ↦ none
  | some c ↦ find_path next segs c
]

branch_of-put_branch :
    (k : String) (c : Node) (bs : Branches) → branch_of k (put_branch k c bs) ≡ some c
unfolding branch_of put_branch
branch_of-put_branch k c no_branches = ground (arith, eq_refl k)
branch_of-put_branch k c (branch j n bs) = ground (arith, branch_of-put_branch k c bs)

index_of-put_index : (i : ℕ) (c : Node) (is : Indices) → index_of i (put_index i c is) ≡ some c
unfolding index_of put_index
index_of-put_index i c no_indices = ground arith
index_of-put_index i c (index j n is) = ground (arith, index_of-put_index i c is)

-- after a step, the child under the segment is what the write made of some node
child_of-step_branch :
    (seg : String) (f : Node → Node) (n : Node)
    → (c : Node) × (child_of seg (step_branch seg f n) ≡ some (f c))
unfolding step_branch child_of or_index
child_of-step_branch seg f (node v is bs) = (
  or_new (branch_of seg bs),
  rw (branch_of-put_branch seg (f (or_new (branch_of seg bs))) bs) refl,
)

child_of-no_branches :
    (seg : String) (i : ℕ) (c : Node) (v : Option Value) (is : Indices)
    → digit_value (codes seg) ≡ some i
    → child_of seg (node v (put_index i c is) no_branches) ≡ some c
unfolding child_of or_index index_child branch_of
child_of-no_branches seg i c v is h = rw (child_of, h, index_of-put_index i c is) refl

child_of-step_index :
    (seg : String) (i : ℕ) (f : Node → Node) (n : Node)
    → digit_value (codes seg) ≡ some i
    → (c : Node) × (child_of seg (step_index seg i f n) ≡ some (f c))
unfolding step_index
child_of-step_index seg i f (node v is no_branches) h =
    (or_new (index_of i is), child_of-no_branches seg i (f (or_new (index_of i is))) v is h)
child_of-step_index seg i f (node v is (branch k c bs)) h =
    child_of-step_branch seg f (node v is (branch k c bs))

child_of-step_on :
    (seg : String) (f : Node → Node) (n : Node)
    → (c : Node) × (child_of seg (step_on seg f n) ≡ some (f c))
unfolding step_on
child_of-step_on seg f n = elim (Option-cases (digit_value (codes seg))) [
  | inl e ↦ rw (step_on, e) (child_of-step_branch seg f n)
  | inr (i, e) ↦ rw (step_on, e) (child_of-step_index seg i f n e)
]

value_of-set_value : (v : Value) (n : Node) → value_of (set_value v n) ≡ some v
unfolding value_of set_value
value_of-set_value v (node w is bs) = refl

find_path-add_path :
    (seg : String) (segs : List String) (v : Value) (n : Node)
    → find_path seg segs (add_path seg segs v n) ≡ some v
unfolding find_path add_path step_last
find_path-add_path seg [] v n =
    let (c, e) =
      child_of-step_branch seg (set_value v) (without_index (digit_value (codes seg)) n) in
    rw (find_path, add_path, step_last, e) (value_of-set_value v c)
find_path-add_path seg (next ∷ segs) v n =
    let (c, e) = child_of-step_on seg (add_path next segs v) n in
    rw (find_path, add_path, e) (find_path-add_path next segs v c)

-- the value that the trie holds for a dotted key
unfoldable pub find_segments : List String → Node → Option Value
unfolding find_path
find_segments [] n = none
find_segments (seg ∷ segs) n = find_path (canonical_seg seg) (map canonical_seg segs) n

find-add_segments :
    (segs : List String) (v : Value) (root : Node)
    → segs ≢ []
    → find_segments segs (add_segments segs v root) ≡ some v
unfolding find_segments add_segments
find-add_segments [] v root k = absurd (k refl)
find-add_segments (seg ∷ segs) v root k =
    find_path-add_path (canonical_seg seg) (map canonical_seg segs) v root

-- After add of a value that is not nil, under a key with at least one segment, the trie holds that value at the
-- end of the key's path, whatever was added before: the last write wins, also where earlier keys had made
-- the node an array or given it a subtree.
pub find_segments-add :
    (root : Node) (key : String) (v : Value)
    → is_nil v ≡ false
    → segments key ≢ []
    → find_segments (segments key) (add root key v) ≡ some v
unfolding add
find_segments-add root key v h k = rw h (find-add_segments (segments key) v root k)
