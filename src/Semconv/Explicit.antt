-- ===== src/Semconv/Explicit.antt =====
-- What the merged view of internal/semconv/genai.go holds under a key.
use tracewell.Prelude.{
  String, true, false, Option, none, some, str_eq, Bool-cases, inl, inr, ◌≡◌, refl, ap, ◌∙◌, subst,
  arith, eq_iff, eq_refl,
}
use tracewell.Value.{Value, obj, Fields, end, field, lookup, insert}
use tracewell.Value.Laws.{lookup-insert_same, lookup-insert_other}
use tracewell.Semconv.Extract.{Outside}
use tracewell.Semconv.Merge.{
  synthesized, synthesize_from_gen_ai, has_gen_ai, set_if, walk, walk_value, flatten_top_level,
  lay_down, merged,
}

str_eq-flip : (j k : String) → str_eq j k ≡ false → str_eq k j ≡ false
str_eq-flip j k h = elim (Bool-cases (str_eq k j)) [
  | inl e ↦
      let same : k ≡ j = (eq_iff k j).0 e in
      let yes : str_eq j k ≡ true = rw same (eq_refl j) in ground (arith, h, yes)
  | inr e ↦ e
]

-- no key twice
unfoldable pub IsDistinct : Fields → Type 0
IsDistinct end = Unit
IsDistinct (field k v m) = (lookup k m ≡ none) × IsDistinct m

end-IsDistinct : IsDistinct end
unfolding IsDistinct
end-IsDistinct = tt

insert-IsDistinct : (k : String) (v : Value) (m : Fields) → IsDistinct m → IsDistinct (insert k v m)
unfolding IsDistinct insert lookup
insert-IsDistinct k v end d = (refl, tt)
insert-IsDistinct k v (field j w m) d = elim (Bool-cases (str_eq j k)) [
  | inl e ↦
      let same : j ≡ k = (eq_iff j k).0 e in
      let none_k : lookup k m ≡ none = subst (λ x. lookup x m ≡ none) same d.0 in rw e (none_k, d.1)
  | inr e ↦
      rw e ((lookup-insert_other k j v m (str_eq-flip j k e)) ∙ d.0, insert-IsDistinct k v m d.1)
]

mutual
  unfolding walk walk_value

  walk-IsDistinct : (p : String) (m out : Fields) → IsDistinct out → IsDistinct (walk p m out)
  walk-IsDistinct p end out d = d
  walk-IsDistinct p (field k v m) out d = walk-IsDistinct p m _ (walk_value-IsDistinct _ v out d)

  walk_value-IsDistinct :
      (k : String) (v : Value) (out : Fields) → IsDistinct out → IsDistinct (walk_value k v out)
  walk_value-IsDistinct k (obj m) out d = walk-IsDistinct k m out d
  walk_value-IsDistinct k v out d = insert-IsDistinct k v out d

set_if-IsDistinct :
    (k : String) (v : Option Value) (m : Fields) → IsDistinct m → IsDistinct (set_if k v m)
unfolding set_if
set_if-IsDistinct k none m d = d
set_if-IsDistinct k (some v) m d = insert-IsDistinct k v m d

synthesized-IsDistinct : (o : Outside) (flat : Fields) → IsDistinct (synthesized o flat)
unfolding synthesized
synthesized-IsDistinct o flat = search (set_if-IsDistinct, end-IsDistinct) depth 9

synthesize_from_gen_ai-IsDistinct :
    (o : Outside) (flat : Fields) → IsDistinct (synthesize_from_gen_ai o flat)
synthesize_from_gen_ai-IsDistinct o flat = elim (Bool-cases (has_gen_ai flat)) [
  | inl e ↦ unfold synthesize_from_gen_ai in rw e (synthesized-IsDistinct o flat)
  | inr e ↦ unfold synthesize_from_gen_ai in rw e end-IsDistinct
]

-- the first of two values that is there
abbrev first_some : Option Value → Option Value → Option Value
first_some none other = other
first_some (some v) other = some v

first_some-none : (v : Option Value) → first_some v none ≡ v
first_some-none none = refl
first_some-none (some v) = refl

lookup-lay_down :
    (k : String) (top base : Fields)
    → IsDistinct top
    → lookup k (lay_down top base) ≡ first_some (lookup k top) (lookup k base)
unfolding lookup lay_down IsDistinct
lookup-lay_down k end base d = refl
lookup-lay_down k (field j v top) base d = elim (Bool-cases (str_eq j k)) [
  | inl e ↦
      let same : j ≡ k = (eq_iff j k).0 e in
      let gone : lookup k top ≡ none = subst (λ x. lookup x top ≡ none) same d.0 in
      let here : lookup k (insert j v base) ≡ some v = rw same (lookup-insert_same k v base) in
      ground (arith, e, gone, here, lookup-lay_down k top (insert j v base) d.1)
  | inr e ↦
      ground
        (arith, e, lookup-insert_other j k v base e, lookup-lay_down k top (insert j v base) d.1)
]

-- Under every key the merged view of Merge holds what the flattened nested view has there, and where that
-- has nothing what SynthesizeFromGenAI made: an explicit attribute is never overwritten, and no
-- synthesized one is lost.
pub lookup-merged :
    (o : Outside) (nested flat : Fields) (k : String)
    → lookup k (merged (synthesize_from_gen_ai o flat) nested)
      ≡ first_some (lookup k (flatten_top_level nested)) (lookup k (synthesize_from_gen_ai o flat))
unfolding merged lookup
lookup-merged o nested flat k =
    let flat_distinct : IsDistinct (flatten_top_level nested) =
      unfold flatten_top_level in walk-IsDistinct "" nested end end-IsDistinct in
    let base : lookup k (lay_down (synthesize_from_gen_ai o flat) end)
        ≡ lookup k (synthesize_from_gen_ai o flat) =
      lookup-lay_down k _ end (synthesize_from_gen_ai-IsDistinct o flat)
      ∙ first_some-none (lookup k (synthesize_from_gen_ai o flat)) in
    lookup-lay_down k (flatten_top_level nested) _ flat_distinct
    ∙ ap (first_some (lookup k (flatten_top_level nested))) base
