-- ===== src/Store/Correct.antt =====
-- InsertSpan keeps the spans table sound, whatever fails on the way.
use tracewell.Prelude.{
  ℕ, zero, pos, suc, ◌<◌, String, true, false, List, [], ◌∷◌, map, some, str_eq, ◌≡◌, refl, ap, sym,
  ◌∙◌, subst, arith, ◌⊎◌, inl, inr, Bool-cases, eq_refl, if◌then◌else◌,
}
use tracewell.Trace.{Span, StatusCode, unset, status_text}
use tracewell.Store.Tables.{
  SpanRow, has_span, id_in, add_to_spans, sum_children, stored_self, or_zero,
}
use tracewell.Store.Int64.{int64}
use tracewell.Store.Totals.{Totals, ◌⊕◌}
use tracewell.Store.Session.{Session, Tx, ◌>>=◌, wrap, statement, query}
use tracewell.Store.Columns.{
  is_error, usage_columns, usage_tokens, Outside, SpanColumns, span_to_columns, marshalled,
  token_columns, self_totals, null_string, null_sum,
}
use tracewell.Store.Insert.{
  ancestors, new_row, insert_row, update_ancestors, propagate_to_ancestors, after_insert,
  insert_span_tx,
}
use tracewell.Store.Cumulative.{child_totals}
use tracewell.Store.Ancestors.{has_span-add, add_to_spans-none}
use tracewell.Store.Forest.{WithinSteps}
use tracewell.Store.Sound.{IsSound, place-IsSound}
use tracewell.Store.Ensures.{Ensures, Ensures-bind, Ensures-wrap, Ensures-statement}
use tracewell.Store.Quiet.{IsQuiet-Ensures, ensure_project-IsQuiet, upsert_trace-IsQuiet}

-- SQLite gives a new row a rowid that no row of the table has.
abbrev pub FreshRowids : Outside → Type 0
FreshRowids o = (ids : List ℕ) → id_in (o.next_rowid ids) ids ≡ false

-- The span's place in the forest, within the steps of the walk.
pub record Fits (rank : String → ℕ) (steps : ℕ) (span : Span) : Type 0 where
  pub below : (p : String) → null_string span.parent_id ≡ some p → rank p < rank span.span_id
  pub within : WithinSteps rank steps (null_string span.parent_id)

-- The columns of a span stand for its totals.
abbrev Agree : Span → SpanColumns → Type 0
Agree span cols =
    (cols.token_prompt ≡ (token_columns span).0) × (cols.token_comp ≡ (token_columns span).1)

errors_stored :
    (c : StatusCode)
    → (if str_eq (status_text c) "ERROR" then pos 1 else pos 0)
      ≡ (if is_error c then pos 1 else pos 0)
errors_stored unset = refl
errors_stored _ = refl

tokens_stored :
    (span : Span)
    → (int64 (or_zero (token_columns span).0) ≡ (self_totals span).tokens_prompt)
      × (int64 (or_zero (token_columns span).1) ≡ (self_totals span).tokens_completion)
unfolding token_columns self_totals usage_columns usage_tokens
tokens_stored span = ground arith

stored_self-new_row :
    (o : Outside) (span : Span) (cols : SpanColumns) (t : ℕ) (cum : Totals) (rows : List SpanRow)
    → Agree span cols
    → stored_self (new_row o span cols t cum rows) ≡ self_totals span
unfolding stored_self new_row self_totals
stored_self-new_row o span cols t cum rows h = λ i. record {
  errors = int64 (errors_stored span.status_code i);
  tokens_prompt = (ap (λ c. int64 (or_zero c)) h.0 ∙ (tokens_stored span).0) i;
  tokens_completion = (ap (λ c. int64 (or_zero c)) h.1 ∙ (tokens_stored span).1) i;
}

module _ (o : Outside) (steps : ℕ) (span : Span) where
  columns-Ensures :
      (s : Session)
      → Ensures (λ cols s'. (s'.db.spans ≡ s.db.spans) × Agree span cols) (span_to_columns o span) s
  unfolding span_to_columns marshalled
  columns-Ensures s = record { holds = ground arith }

  -- the sums over the children, as the query reads them
  children-Ensures :
      (t : ℕ) (s : Session)
      → Ensures
          (λ c s'. (s'.db.spans ≡ s.db.spans) × (c ≡ sum_children t span.span_id s.db.spans))
          (query λ db. sum_children t span.span_id db.spans)
          s
  children-Ensures t s =
      Ensures-statement _ (sum_children t span.span_id s.db.spans) s.db refl
        (λ faults. (refl, refl))

  -- from the sums of the children to the credit of the ancestors
  abbrev pub tail_tx : SpanColumns → ℕ → Totals → Tx (Unit {0})
  tail_tx cols t cum =
      wrap "insert span" (statement λ db. some (insert_row o span cols t cum db)) >>= λ n.
      after_insert steps span t cum n

  -- What holds after the tail, on the spans that the transaction began with, holds after insertSpanTx.
  pub insert_span_tx-tail :
      (Q : Unit {0} → Session → Type 0) (now project : String) (s : Session)
      → ((cols : SpanColumns) (t : ℕ) (s' : Session)
          → Agree span cols
          → s'.db.spans ≡ s.db.spans
          → Ensures Q
              (tail_tx cols t
                (self_totals span ⊕ null_sum (sum_children t span.span_id s.db.spans)))
              s')
      → Ensures Q (insert_span_tx o steps now span project) s
  unfolding insert_span_tx
  insert_span_tx-tail Q now project s h =
      Ensures-bind (Ensures-wrap "serialize span" (columns-Ensures s)) λ cols s₁ h₁.
        Ensures-bind
          (Ensures-wrap "ensure project"
            (IsQuiet-Ensures s₁ (ensure_project-IsQuiet o now project)))
          λ p s₂ e₂.
            Ensures-bind
              (Ensures-wrap "upsert trace" (IsQuiet-Ensures s₂ (upsert_trace-IsQuiet o span p)))
              λ t s₃ e₃.
                Ensures-bind (Ensures-wrap "sum children" (children-Ensures t s₃)) λ c s₄ h₄.
                  let same = e₃ ∙ e₂ ∙ h₁.0 in
                  subst (λ x. Ensures Q (tail_tx cols t (self_totals span ⊕ null_sum x)) s₄)
                    (sym (h₄.1 ∙ ap (sum_children t span.span_id) same))
                    (h cols t s₄ h₁.1 (h₄.0 ∙ same))

module _ (o : Outside) (fresh : FreshRowids o) (rank : String → ℕ) (steps : ℕ) (span : Span)
    (fits : Fits rank steps span) where
  abbrev pub Done : Unit {0} → Session → Type 0
  Done _ s = IsSound rank s.db.spans × (has_span span.span_id s.db.spans ≡ true)

  module _ (cols : SpanColumns) (agree : Agree span cols) (t : ℕ) (rows : List SpanRow)
      (sound : IsSound rank rows) where
    -- the totals that the new row holds
    abbrev total : Totals
    total = self_totals span ⊕ null_sum (sum_children t span.span_id rows)

    abbrev row : SpanRow
    row = new_row o span cols t total rows

    abbrev Inserted : ℕ → Session → Type 0
    Inserted n s =
        ((n ≡ 0) × (has_span span.span_id rows ≡ true) × (s.db.spans ≡ rows))
        ⊎ ((n ≡ 1) × (has_span span.span_id rows ≡ false) × (s.db.spans ≡ row ∷ rows))

    insert_row-Ensures :
        (s : Session)
        → s.db.spans ≡ rows
        → Ensures Inserted (statement (λ db. some (insert_row o span cols t total db))) s
    insert_row-Ensures s e =
        Ensures-statement _ (insert_row o span cols t total s.db).0
          (insert_row o span cols t total s.db).1 refl
          (λ faults. unfold insert_row in ground (arith, ap (has_span span.span_id) e, e))

    placed :
        has_span span.span_id rows ≡ false
        → (ids : List ℕ) × (ancestors steps t (null_string span.parent_id) (row ∷ rows) ≡ some ids)
          × IsSound rank (add_to_spans ids total (row ∷ rows))
    unfolding new_row child_totals
    placed new =
        place-IsSound rank steps row rows sound (fresh (map (λ r. r.id) rows)) new fits.below
          fits.within
          (ap (λ u. u ⊕ child_totals t span.span_id rows)
            (sym (stored_self-new_row o span cols t total rows agree)))

    -- the table after the credit to the ancestors
    credited-Done :
        (s : Session) (ids : List ℕ)
        → IsSound rank (add_to_spans ids total (row ∷ rows))
        → s.db.spans ≡ add_to_spans ids total (row ∷ rows)
        → Done tt s
    unfolding has_span new_row
    credited-Done s ids h e =
        subst (λ x. IsSound rank x × (has_span span.span_id x ≡ true)) (sym e)
          (
            h,
            has_span-add span.span_id ids total (row ∷ rows) ∙ ground (arith, eq_refl span.span_id),
          )

    propagate-Ensures :
        (s : Session)
        → has_span span.span_id rows ≡ false
        → s.db.spans ≡ row ∷ rows
        → Ensures Done (propagate_to_ancestors steps t span.parent_id total) s
    unfolding propagate_to_ancestors
    propagate-Ensures s new e = elim (Bool-cases (str_eq span.parent_id "")) [
      | inl root ↦
          let (ids, w, h) = placed new in
          let nothing : ids ≡ [] = unfold ancestors null_string in ground arith in
          rw (root, propagate_to_ancestors)
            (record {
              holds =
                  credited-Done s []
                    (subst (λ j. IsSound rank (add_to_spans j total (row ∷ rows))) nothing h)
                    (e ∙ sym (add_to_spans-none total (row ∷ rows)));
            })
      | inr child ↦
          let (ids, w, h) = placed new in
          let named : null_string span.parent_id ≡ some span.parent_id =
            unfold null_string in ground arith in
          let walk : ancestors steps t (some span.parent_id) s.db.spans ≡ some ids =
            ap (λ p. ancestors steps t p s.db.spans) (sym named)
            ∙ ap (ancestors steps t (null_string span.parent_id)) e
            ∙ w in
          rw (child, propagate_to_ancestors)
            (Ensures-statement _ tt (record s.db { spans = add_to_spans ids total s.db.spans })
              (unfold update_ancestors in rw walk)
              (λ faults.
                credited-Done
                  (record s {
                    db = record s.db { spans = add_to_spans ids total s.db.spans };
                    faults = faults;
                  })
                  ids h (ap (add_to_spans ids total) e)))
    ]

    after_insert-Ensures :
        (n : ℕ) (s : Session) → Inserted n s → Ensures Done (after_insert steps span t total n) s
    unfolding after_insert
    after_insert-Ensures zero s (inl (z, old, e)) = record {
      holds = subst (λ x. IsSound rank x × (has_span span.span_id x ≡ true)) (sym e) (sound, old);
    }
    after_insert-Ensures zero s (inr (z, new, e)) = absurd (omega arith)
    after_insert-Ensures (suc n) s (inl (z, old, e)) = absurd (omega arith)
    after_insert-Ensures (suc n) s (inr (z, new, e)) =
        Ensures-wrap "propagate to ancestors" (propagate-Ensures s new e)

    -- the statements of insertSpanTx from the INSERT on
    insert-Ensures :
        (s : Session)
        → s.db.spans ≡ rows
        → Ensures Done
            (wrap "insert span" (statement λ db. some (insert_row o span cols t total db)) >>= λ n.
              after_insert steps span t total n)
            s
    insert-Ensures s e =
        Ensures-bind (Ensures-wrap "insert span" (insert_row-Ensures s e)) after_insert-Ensures

  pub insert_span_tx-Ensures :
      (now project : String) (s : Session)
      → IsSound rank s.db.spans
      → Ensures Done (insert_span_tx o steps now span project) s
  insert_span_tx-Ensures now project s sound =
      insert_span_tx-tail o steps span Done now project s
        λ cols t s' agree e. insert-Ensures cols agree t s.db.spans sound s' e
