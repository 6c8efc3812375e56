-- ===== src/Store/Keeps/Inserting.antt =====
-- insertSpanTx of internal/store/span_insert.go removes no span, and adds its own.
use tracewell.Prelude.{
  ℕ, zero, suc, true, String, Option, none, some, ◌≡◌, subst, arith, str_eq, eq_refl, Bool-cases,
  Option-cases, inl, inr,
}
use tracewell.Trace.{Span}
use tracewell.Store.Tables.{Db, has_span, sum_children}
use tracewell.Store.Totals.{Totals, ◌⊕◌}
use tracewell.Store.Session.{wrap, query}
use tracewell.Store.Columns.{
  Outside, SpanColumns, marshalled, span_to_columns, self_totals, null_sum,
}
use tracewell.Store.Insert.{
  ancestors, update_ancestors, propagate_to_ancestors, after_insert, new_row, insert_row,
  insert_span_tx, ensure_project, upsert_trace,
}
use tracewell.Store.Quiet.{query-IsQuiet, ensure_project-IsQuiet, upsert_trace-IsQuiet}
use tracewell.Store.Ancestors.{has_span-add}
use tracewell.Store.Keeps.{
  Keeps, Adds, Keeps-bind, Adds-last, Adds-first, Keeps-pure, Keeps-wrap, Adds-wrap, Keeps-IsQuiet,
  Keeps-statement, Adds-statement,
}

module _ (o : Outside) (steps : ℕ) where
  marshalled-Keeps : (x : String) (t : Option String) → Keeps x (marshalled t)
  unfolding marshalled
  marshalled-Keeps x none = record { keeps = λ s i. i }
  marshalled-Keeps x (some t) = Keeps-pure t

  columns-Keeps : (x : String) (span : Span) → Keeps x (span_to_columns o span)
  unfolding span_to_columns
  columns-Keeps x span =
      Keeps-bind (marshalled-Keeps x (o.marshal_attributes span.attributes))
        λ a. Keeps-bind (marshalled-Keeps x (o.marshal_events span.events)) λ e. Keeps-pure _

  update-keeps :
      (x : String) (t : ℕ) (parent : String) (d : Totals) (db db' : Db) (a : Unit {0})
      → update_ancestors steps t parent d db ≡ some (a, db')
      → has_span x db.spans ≡ true
      → has_span x db'.spans ≡ true
  unfolding update_ancestors
  update-keeps x t parent d db db' a e i =
      elim (Option-cases (ancestors steps t (some parent) db.spans)) [
        | inl n ↦ absurd (ground (arith, n, e))
        | inr (ids, n) ↦ ground (arith, n, e, has_span-add x ids d db.spans)
      ]

  after_insert-Keeps :
      (x : String) (span : Span) (t : ℕ) (cum : Totals) (n : ℕ)
      → Keeps x (after_insert steps span t cum n)
  unfolding after_insert propagate_to_ancestors
  after_insert-Keeps x span t cum zero = Keeps-pure tt
  after_insert-Keeps x span t cum (suc n) =
      Keeps-wrap "propagate to ancestors" (elim (Bool-cases (str_eq span.parent_id "")) [
        | inl e ↦ rw (propagate_to_ancestors, e) (Keeps-pure tt)
        | inr e ↦
            rw (propagate_to_ancestors, e)
              (Keeps-statement (update_ancestors steps t span.parent_id cum)
                (update-keeps x t span.parent_id cum))
      ])

  insert_row-keeps :
      (x : String) (span : Span) (cols : SpanColumns) (t : ℕ) (cum : Totals) (db : Db)
      → has_span x db.spans ≡ true
      → has_span x (insert_row o span cols t cum db).1.spans ≡ true
  unfolding insert_row has_span
  insert_row-keeps x span cols t cum db i = ground (arith, i)

  insert_row-adds :
      (span : Span) (cols : SpanColumns) (t : ℕ) (cum : Totals) (db : Db)
      → has_span span.span_id (insert_row o span cols t cum db).1.spans ≡ true
  unfolding insert_row has_span new_row
  insert_row-adds span cols t cum db = ground (arith, eq_refl span.span_id)

  -- What insertSpanTx does to the other spans.
  pub insert_span_tx-Keeps :
      (x now : String) (span : Span) (project : String)
      → Keeps x (insert_span_tx o steps now span project)
  unfolding insert_span_tx
  insert_span_tx-Keeps x now span project =
      Keeps-bind (Keeps-wrap "serialize span" (columns-Keeps x span)) λ cols.
        Keeps-bind
          (Keeps-wrap "ensure project" (Keeps-IsQuiet (ensure_project-IsQuiet o now project)))
          λ p.
            Keeps-bind (Keeps-wrap "upsert trace" (Keeps-IsQuiet (upsert_trace-IsQuiet o span p)))
              λ t. Keeps-bind (Keeps-wrap "sum children" (Keeps-IsQuiet (query-IsQuiet _))) λ c.
                Keeps-bind
                  (Keeps-wrap "insert span" (
                    Keeps-statement
                      (λ db. some (insert_row o span cols t (self_totals span ⊕ null_sum c) db))
                      λ db db' n e i. row_kept cols t (self_totals span ⊕ null_sum c) db db' n e i))
                  λ n. after_insert-Keeps x span t (self_totals span ⊕ null_sum c) n
    where
      row_kept :
          (cols : SpanColumns) (t : ℕ) (cum : Totals) (db db' : Db) (n : ℕ)
          → some (insert_row o span cols t cum db) ≡ some (n, db')
          → has_span x db.spans ≡ true
          → has_span x db'.spans ≡ true
      row_kept cols t cum db db' n e i =
          let same : insert_row o span cols t cum db ≡ (n, db') = ground (arith, e) in
          subst (λ p. has_span x p.1.spans ≡ true) same (insert_row-keeps x span cols t cum db i)

  -- Where insertSpanTx succeeds, the span is in the table.
  pub insert_span_tx-Adds :
      (now : String) (span : Span) (project : String)
      → Adds span.span_id (insert_span_tx o steps now span project)
  unfolding insert_span_tx
  insert_span_tx-Adds now span project =
      Adds-last (wrap "serialize span" (span_to_columns o span)) λ cols.
        Adds-last (wrap "ensure project" (ensure_project o now project)) λ p.
          Adds-last (wrap "upsert trace" (upsert_trace o span p)) λ t.
            Adds-last (wrap "sum children" (query λ db. sum_children t span.span_id db.spans)) λ c.
              Adds-first
                (Adds-wrap "insert span" (
                  Adds-statement
                    (λ db. some (insert_row o span cols t (self_totals span ⊕ null_sum c) db))
                    λ db db' n e. row_added cols t (self_totals span ⊕ null_sum c) db db' n e))
                λ n. after_insert-Keeps span.span_id span t (self_totals span ⊕ null_sum c) n
    where
      row_added :
          (cols : SpanColumns) (t : ℕ) (cum : Totals) (db db' : Db) (n : ℕ)
          → some (insert_row o span cols t cum db) ≡ some (n, db')
          → has_span span.span_id db'.spans ≡ true
      row_added cols t cum db db' n e =
          let same : insert_row o span cols t cum db ≡ (n, db') = ground (arith, e) in
          subst (λ p. has_span span.span_id p.1.spans ≡ true) same
            (insert_row-adds span cols t cum db)
