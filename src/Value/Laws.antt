-- ===== src/Value/Laws.antt =====
-- Reading a `map[string]any` after a write.
use tracewell.Prelude.{
  String, false, some, str_eq, Bool-cases, inl, inr, ◌≡◌, arith, eq_iff, eq_refl,
}
use tracewell.Value.{Value, Fields, end, field, lookup, insert}

pub lookup-insert_same : (k : String) (v : Value) (m : Fields) → lookup k (insert k v m) ≡ some v
unfolding lookup insert
lookup-insert_same k v end = ground (arith, eq_refl k)
lookup-insert_same k v (field j w m) = ground (arith, eq_refl k, lookup-insert_same k v m)

pub lookup-insert_other :
    (j k : String) (v : Value) (m : Fields)
    → str_eq j k ≡ false
    → lookup k (insert j v m) ≡ lookup k m
unfolding lookup insert
lookup-insert_other j k v end h = ground arith
lookup-insert_other j k v (field i w m) h = elim (Bool-cases (str_eq i j)) [
  | inl e ↦ let same : i ≡ j = (eq_iff i j).0 e in rw same (ground (arith, h))
  | inr e ↦ ground (arith, h, e, lookup-insert_other j k v m h)
]
