-- ===== src/Store/Cycle.antt =====
-- A span that is its own parent: the recursive query of propagateToAncestors in
-- internal/store/span_insert.go has no end.

use tracewell.Prelude.{
  ℕ, zero, suc, String, true, false, List, [], ◌∷◌, Option, none, some, str_eq, ◌≡◌, refl, ap, ◌∙◌,
  arith, eq_refl, ==_iff,
}
use tracewell.Trace.{Span}
use tracewell.Store.Tables.{Db, SpanRow, find_span, has_span}
use tracewell.Store.Totals.{Totals, ◌⊕◌}
use tracewell.Store.Session.{
  Result, ok, err, hangs, Session, Tx, ◌>>=◌, wrap, statement, attempt, outcome, exec,
}
use tracewell.Store.Columns.{
  Outside, SpanColumns, marshalled, span_to_columns, self_totals, null_string, null_sum,
}
use tracewell.Store.Insert.{
  ancestors, new_row, insert_row, update_ancestors, propagate_to_ancestors, after_insert,
  insert_span_tx, restored, restore_unless_ok, insert_span,
}
use tracewell.Store.Quiet.{
  IsQuiet, IsQuietAt, wrap-IsQuiet, query-IsQuiet, ensure_project-IsQuiet, upsert_trace-IsQuiet,
}

-- A walk that comes to a row which names itself as its parent.
ancestors_self :
    (steps t : ℕ) (pid : String) (rows : List SpanRow) (r : SpanRow)
    → find_span t pid rows ≡ some r
    → r.parent_id ≡ some pid
    → ancestors steps t (some pid) rows ≡ none
unfolding ancestors
ancestors_self zero t pid rows r f p = refl
ancestors_self (suc steps) t pid rows r f p =
    ground (arith, f, p, ancestors_self steps t pid rows r f p)

-- A transaction that does not end, although the driver refuses none of its statements.
record Hangs {A : Type 0} (m : Tx A) (s : Session) : Type 0 where
  pub never : (m s).0 ≡ hangs

module _ {A B : Type 0} where
  Hangs-bind :
      {m : Tx A} {f : A → Tx B} {s : Session}
      → IsQuiet m
      → s.faults ≡ []
      → ((a : A) (s' : Session) → s'.faults ≡ [] → s'.db.spans ≡ s.db.spans → Hangs (f a) s')
      → Hangs (m >>= f) s
  Hangs-bind {m} {f} {s} q z h = record { never = go (m s) (q.at s) }
    where
      go :
          (p : Result A × Session)
          → IsQuietAt s.faults s.db.spans p.0 p.1
          → (◌>>=◌ (λ _. p) f s).0 ≡ hangs
      go (ok a, s') (e, g) = (h a s' (g z) e).never
      go (err x, s') (e, g) = absurd (g z)
      go (hangs, s') h = absurd h

  Hangs-bind_first : {m : Tx A} (f : A → Tx B) {s : Session} → Hangs m s → Hangs (m >>= f) s
  Hangs-bind_first {m} f {s} h = record { never = go (m s) h.never }
    where
      go : (p : Result A × Session) → p.0 ≡ hangs → (◌>>=◌ (λ _. p) f s).0 ≡ hangs
      go (ok a, s') e = absurd (ground (arith, e))
      go (err x, s') e = absurd (ground (arith, e))
      go (hangs, s') e = refl

Hangs-wrap :
    {A : Type 0} (what : String) {m : Tx A} {s : Session} → Hangs m s → Hangs (wrap what m) s
Hangs-wrap {A} what {m} {s} h = record { never = go (m s) h.never }
  where
    go : (p : Result A × Session) → p.0 ≡ hangs → (wrap what (λ _. p) s).0 ≡ hangs
    go (ok a, s') e = absurd (ground (arith, e))
    go (err x, s') e = absurd (ground (arith, e))
    go (hangs, s') e = refl

-- A statement that the driver does not refuse, and the rest.
Hangs-statement :
    {A B : Type 0} (what : String) (run : Db → Option (A × Db)) (f : A → Tx B) (s : Session) (a : A)
    (db : Db)
    → s.faults ≡ []
    → run s.db ≡ some (a, db)
    → ((s' : Session) → s'.faults ≡ [] → s'.db ≡ db → Hangs (f a) s')
    → Hangs (wrap what (statement run) >>= f) s
unfolding statement attempt outcome
Hangs-statement what run f s a db z e h = record {
  never = rw (z, attempt, e, outcome) (h (record s { db = db }) z refl).never;
}

module _ (o : Outside) (steps : ℕ) (span : Span) (self : span.parent_id ≡ span.span_id)
    (named : str_eq span.parent_id "" ≡ false) where
  found_self :
      (cols : SpanColumns) (t : ℕ) (cum : Totals) (rows : List SpanRow)
      → find_span t span.parent_id (new_row o span cols t cum rows ∷ rows)
        ≡ some (new_row o span cols t cum rows)
  unfolding find_span new_row
  found_self cols t cum rows =
      let name : str_eq span.span_id span.parent_id ≡ true = rw self (eq_refl span.span_id) in
      ground (arith, name, (==_iff t t).1 refl)

  parent_self :
      (cols : SpanColumns) (t : ℕ) (cum : Totals) (rows : List SpanRow)
      → (new_row o span cols t cum rows).parent_id ≡ some span.parent_id
  unfolding new_row null_string
  parent_self cols t cum rows = rw named refl

  update_self :
      (cols : SpanColumns) (t : ℕ) (cum : Totals) (db : Db) (rows : List SpanRow)
      → db.spans ≡ new_row o span cols t cum rows ∷ rows
      → update_ancestors steps t span.parent_id cum db ≡ none
  unfolding update_ancestors
  update_self cols t cum db rows e =
      rw
        (
          e,
          ancestors_self steps t span.parent_id (new_row o span cols t cum rows ∷ rows)
              (new_row o span cols t cum rows) (found_self cols t cum rows)
              (parent_self cols t cum rows),
        )
        refl

  after_insert-Hangs :
      (cols : SpanColumns) (t : ℕ) (cum : Totals) (s : Session) (rows : List SpanRow)
      → s.faults ≡ []
      → s.db.spans ≡ new_row o span cols t cum rows ∷ rows
      → Hangs (after_insert steps span t cum 1) s
  unfolding after_insert propagate_to_ancestors statement attempt outcome
  after_insert-Hangs cols t cum s rows z e =
      Hangs-wrap "propagate to ancestors"
        (record { never = rw (named, z, attempt, update_self cols t cum s.db rows e) refl })

  columns-IsQuiet :
      {a e : String}
      → o.marshal_attributes span.attributes ≡ some a
      → o.marshal_events span.events ≡ some e
      → IsQuiet (span_to_columns o span)
  unfolding span_to_columns marshalled
  columns-IsQuiet ha he = record { at = λ s. rw (ha, he) (refl, λ z. z) }

  insert-Hangs :
      (cols : SpanColumns) (t : ℕ) (cum : Totals) (s : Session)
      → s.faults ≡ []
      → has_span span.span_id s.db.spans ≡ false
      → Hangs
          (wrap "insert span" (statement λ db. some (insert_row o span cols t cum db)) >>= λ n.
            after_insert steps span t cum n)
          s
  insert-Hangs cols t cum s z new =
      Hangs-statement "insert span" (λ db. some (insert_row o span cols t cum db))
        (λ n. after_insert steps span t cum n) s 1
        (record s.db { spans = new_row o span cols t cum s.db.spans ∷ s.db.spans }) z
        (unfold insert_row in rw (new) refl)
        (λ s' z' e. after_insert-Hangs cols t cum s' s.db.spans z' (ap (λ (db : Db). db.spans) e))

  insert_span_tx-Hangs :
      (now project : String) (s : Session) {a e : String}
      → o.marshal_attributes span.attributes ≡ some a
      → o.marshal_events span.events ≡ some e
      → s.faults ≡ []
      → has_span span.span_id s.db.spans ≡ false
      → Hangs (insert_span_tx o steps now span project) s
  unfolding insert_span_tx
  insert_span_tx-Hangs now project s ha he z new =
      Hangs-bind (wrap-IsQuiet _ _ (columns-IsQuiet ha he)) z λ cols s₁ z₁ e₁.
        Hangs-bind (wrap-IsQuiet _ _ (ensure_project-IsQuiet o now project)) z₁ λ p s₂ z₂ e₂.
          Hangs-bind (wrap-IsQuiet _ _ (upsert_trace-IsQuiet o span p)) z₂ λ t s₃ z₃ e₃.
            Hangs-bind (wrap-IsQuiet _ _ (query-IsQuiet _)) z₃ λ c s₄ z₄ e₄.
              insert-Hangs cols t (self_totals span ⊕ null_sum c) s₄ z₄
                (ap (has_span span.span_id) (e₄ ∙ e₃ ∙ e₂ ∙ e₁) ∙ new)

-- InsertSpan does not end, however many steps it is given, on a new span that names itself as its parent, whose
-- attributes and events can be marshalled, when the driver refuses no statement.
pub insert_span_self_parent :
    (o : Outside) (steps : ℕ) (now : String) (span : Span) (project : String) (s : Session)
    (a e : String)
    → o.marshal_attributes span.attributes ≡ some a
    → o.marshal_events span.events ≡ some e
    → span.parent_id ≡ span.span_id
    → str_eq span.parent_id "" ≡ false
    → has_span span.span_id s.db.spans ≡ false
    → s.faults ≡ []
    → (insert_span o steps now span project s).0 ≡ hangs
unfolding insert_span restore_unless_ok
insert_span_self_parent o steps now span project s a e ha he self named new z =
    let h : Hangs (insert_span o steps now span project) s =
      Hangs-bind (query-IsQuiet (λ db. db)) z (λ before s₁ z₁ e₁. rest before s₁ (
        Hangs-bind_first (λ _. exec λ db. db)
          (insert_span_tx-Hangs o steps span self named now project s₁ ha he z₁
            (ap (has_span span.span_id) e₁ ∙ new)))) in
    h.never
  where
    rest :
        (before : Db) (s₁ : Session) {m : Tx (Unit {0})}
        → Hangs m s₁
        → Hangs (restore_unless_ok before m) s₁
    rest before s₁ {m} h = record { never = go (m s₁) h.never }
      where
        go : (p : Result (Unit {0}) × Session) → p.0 ≡ hangs → (restored before p.0 p.1).0 ≡ hangs
        go (ok tt, s') q = absurd (ground (arith, q))
        go (err x, s') q = absurd (ground (arith, q))
        go (hangs, s') q = refl
