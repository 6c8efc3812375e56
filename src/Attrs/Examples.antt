-- ===== src/Attrs/Examples.antt =====
-- Keys that make an array, and keys that clash with one.
use tracewell.Prelude.{pos, String, List, [], ◌∷◌, ◌++◌, some, ◌≡◌, ◌≢◌, refl, arith}
use tracewell.Value.{Value, int, str, arr, obj, nil, cons, end, field, insert}
use tracewell.Attrs.Segments.{segments, digit_value, canonical_seg, itoa}
use tracewell.Attrs.Trie.{new_node, add_path}
use tracewell.Attrs.Unflatten.{Kv, add, add_all, unflatten, materialize_root, into_branches}
use tracewell.Attrs.Find.{find_segments, find_segments-add}

abbrev entry : String → Value → Kv
entry k v = record { key = k; value = v }

abbrev documents : List Kv
documents =
    entry "docs.1.id" (int (pos 2))
    ∷ entry "docs.00.id" (int (pos 1))
    ∷ entry " docs..0.id" (int (pos 3))
    ∷ []

-- an array in the order of its indices; leading zeros and empty segments do not count
documents_test :
    unflatten documents
    ≡ field "docs"
        (arr (
          cons
            (obj (field "id" (int (pos 3)) end))
            (cons (obj (field "id" (int (pos 2)) end)) nil)))
        end
unfolding unflatten materialize_root add segments add_path digit_value canonical_seg into_branches
    itoa insert
documents_test = refl

-- a scalar beside the indices: the array is lost with all that it held
clash_test :
    unflatten (documents ++ entry "docs.name" (str "x") ∷ [])
    ≡ field "docs" (obj (field "name" (str "x") end)) end
unfolding unflatten materialize_root add segments add_path digit_value canonical_seg into_branches
    itoa insert
clash_test = refl

-- digits at the root: nothing is materialized
root_test : unflatten (entry "0.id" (int (pos 1)) ∷ []) ≡ end
unfolding unflatten materialize_root add segments add_path digit_value canonical_seg into_branches
    itoa insert
root_test = refl

has_segments : segments "docs.1" ≢ []
unfolding segments
has_segments e = ground (arith, e)

find_segments-add_example :
    find_segments (segments "docs.1") (add (add_all documents new_node) "docs.1" (str "x"))
    ≡ some (str "x")
find_segments-add_example =
    find_segments-add (add_all documents new_node) "docs.1" (str "x") refl has_segments
