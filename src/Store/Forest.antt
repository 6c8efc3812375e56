-- ===== src/Store/Forest.antt =====
-- Spans whose parents form a forest: the walk to the ancestors ends and meets no row twice.
use tracewell.Prelude.{
  ℕ, zero, suc, ◌≤◌, ◌<◌, String, true, false, List, [], ◌∷◌, Option, none, some, ◌≡◌, refl, ap,
  sym, subst, arith, In, ◌⊎◌, inl, inr, Bool-cases, Option-cases,
}
use tracewell.Store.Tables.{SpanRow, find_span, id_in}
use tracewell.Store.Insert.{ancestors}
use tracewell.Store.Cumulative.{IsKeyed, same_id}
use tracewell.Store.Crediting.{find_span-some}
use tracewell.Store.Ancestors.{IsSimple, ancestors-found}

-- A rank that falls from every span to its parent: the parents form a forest.
abbrev pub IsRanked : (String → ℕ) → List SpanRow → Type 0
IsRanked rank rows =
    (r : SpanRow) → In r rows → (p : String) → r.parent_id ≡ some p → rank p < rank r.span_id

abbrev pub WithinSteps : (String → ℕ) → ℕ → Option String → Type 0
WithinSteps rank steps none = Unit {0}
WithinSteps rank steps (some p) = rank p < steps

id_in-cases : (i j : ℕ) (ids : List ℕ) → id_in i (j ∷ ids) ≡ true → (i ≡ j) ⊎ (id_in i ids ≡ true)
unfolding id_in
id_in-cases i j ids h = ground arith

IsSimple-nil : {ids : List ℕ} → ids ≡ [] → IsSimple ids
IsSimple-nil e = subst IsSimple (sym e) tt

module _ (rank : String → ℕ) (t : ℕ) (rows : List SpanRow) (ranked : IsRanked rank rows) where
  -- Every id of a walk is the id of a row whose rank is at most that of the walk's start.
  walk_rank :
      (steps : ℕ) (pid : String) (ids : List ℕ) (i : ℕ)
      → ancestors steps t (some pid) rows ≡ some ids
      → id_in i ids ≡ true
      → (r : SpanRow) × In r rows × (r.id ≡ i) × (rank r.span_id ≤ rank pid)
  walk_rank zero pid ids i w m = unfold ancestors in absurd (ground arith)
  walk_rank (suc steps) pid ids i w m = elim (Option-cases (find_span t pid rows)) [
    | inl e ↦ unfold ancestors id_in in absurd (ground arith)
    | inr (a, e) ↦
        let (rest, w', p) = ancestors-found steps t pid rows a ids e w in
        let (ia, ta, sa) = find_span-some t pid rows a e in
        elim (id_in-cases i a.id rest (subst (λ x. id_in i x ≡ true) p m)) [
          | inl same ↦ (a, ia, sym same, rw sa (omega arith))
          | inr later ↦ elim (Option-cases a.parent_id) [
            | inl no_parent ↦ unfold ancestors id_in in absurd (ground arith)
            | inr (q, pq) ↦
                let (r, ir, idr, le) =
                  walk_rank steps q rest i (subst (λ x. ancestors steps t x rows ≡ some rest) pq w')
                    later in
                (r, ir, idr, omega (arith, ranked a ia q pq, ap rank sa))
          ]
        ]
  ]

  -- A row that a walk found is not found again further on.
  found_once :
      (steps : ℕ) (a : SpanRow) (rest : List ℕ)
      → IsKeyed rows
      → In a rows
      → ancestors steps t a.parent_id rows ≡ some rest
      → id_in a.id rest ≡ false
  found_once steps a rest k ia w = elim (Bool-cases (id_in a.id rest)) [
    | inr new ↦ new
    | inl again ↦ elim (Option-cases a.parent_id) [
      | inl no_parent ↦ unfold ancestors id_in in absurd (ground arith)
      | inr (q, pq) ↦
          let (r, ir, idr, le) =
            walk_rank steps q rest a.id (subst (λ x. ancestors steps t x rows ≡ some rest) pq w)
              again in
          let same = same_id rows r a k ir ia idr in
          absurd (omega (arith, ranked a ia q pq, ap (λ (x : SpanRow). rank x.span_id) same))
    ]
  ]

  pub walk-IsSimple :
      (steps : ℕ) (pid : Option String) (ids : List ℕ)
      → IsKeyed rows
      → ancestors steps t pid rows ≡ some ids
      → IsSimple ids
  walk-IsSimple steps none ids k w = IsSimple-nil (unfold ancestors in ground arith)
  walk-IsSimple zero (some pid) ids k w = unfold ancestors in absurd (ground arith)
  walk-IsSimple (suc steps) (some pid) ids k w = elim (Option-cases (find_span t pid rows)) [
    | inl e ↦ IsSimple-nil {ids = ids} (unfold ancestors in ground arith)
    | inr (a, e) ↦
        let (rest, w', p) = ancestors-found steps t pid rows a ids e w in
        subst IsSimple (sym p) (
          found_once steps a rest k (find_span-some t pid rows a e).0 w',
          walk-IsSimple steps a.parent_id rest k w',
        )
  ]

  parent_within :
      (steps : ℕ) (a : SpanRow) (pid : String)
      → In a rows
      → a.span_id ≡ pid
      → rank pid < suc steps
      → WithinSteps rank steps a.parent_id
  parent_within steps a pid i e h = elim (Option-cases a.parent_id) [
    | inl p ↦ subst (WithinSteps rank steps) (sym p) tt
    | inr (q, p) ↦ subst (WithinSteps rank steps) (sym p) (omega (arith, ranked a i q p, ap rank e))
  ]

  -- Enough steps for the rank of the start are enough for the walk.
  pub walk_ends :
      (steps : ℕ) (pid : Option String)
      → WithinSteps rank steps pid
      → (ids : List ℕ) × (ancestors steps t pid rows ≡ some ids)
  unfolding ancestors
  walk_ends steps none h = ([], refl)
  walk_ends zero (some pid) h = absurd (omega arith)
  walk_ends (suc steps) (some pid) h = elim (Option-cases (find_span t pid rows)) [
    | inl e ↦ ([], ground arith)
    | inr (a, e) ↦
        let (i, u, v) = find_span-some t pid rows a e in
        let (ids, w) = walk_ends steps a.parent_id (parent_within steps a pid i v h) in
        (a.id ∷ ids, ground arith)
  ]
