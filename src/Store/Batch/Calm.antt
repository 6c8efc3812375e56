-- ===== src/Store/Batch/Calm.antt =====
-- The transactions of internal/store/span_insert.go where the driver refuses no further statement.
use tracewell.Prelude.{
  ℕ, zero, suc, Bool, String, List, [], ◌∷◌, Option, none, some, ◌≡◌, refl, arith, str_eq,
  Bool-cases, inl, inr,
}
use tracewell.Trace.{Span}
use tracewell.Store.Tables.{Db}
use tracewell.Store.Totals.{Totals, ◌⊕◌}
use tracewell.Store.Session.{
  Result, ok, err, hangs, Session, Tx, ◌>>=◌, continue, pure, wrap, statement, outcome, attempt,
}
use tracewell.Store.Columns.{Outside, marshalled, span_to_columns, self_totals, null_sum}
use tracewell.Store.Insert.{
  update_ancestors, propagate_to_ancestors, after_insert, insert_row, insert_span_tx,
}
use tracewell.Store.Quiet.{
  IsQuiet, IsQuietAt, query-IsQuiet, ensure_project-IsQuiet, upsert_trace-IsQuiet,
}

pub record IsCalm {A : Type 0} (m : Tx A) : Type 0 where
  pub calm : (s : Session) → s.faults ≡ [] → (m s).1.faults ≡ []

module _ {A B : Type 0} where
  pub bind-IsCalm :
      {m : Tx A} {f : A → Tx B} → IsCalm m → ((a : A) → IsCalm (f a)) → IsCalm (m >>= f)
  bind-IsCalm {m} {f} k h = record { calm = λ s i. go (m s) (k.calm s i) }
    where
      go : (p : Result A × Session) → p.1.faults ≡ [] → (continue p.0 f p.1).1.faults ≡ []
      go (ok a, s) i = (h a).calm s i
      go (err e, s) i = i
      go (hangs, s) i = i

module _ {A : Type 0} where
  wrap-IsCalm : (what : String) {m : Tx A} → IsCalm m → IsCalm (wrap what m)
  wrap-IsCalm what {m} k = record { calm = λ s i. k.calm s i }

  quiet-IsCalm : {m : Tx A} → IsQuiet m → IsCalm m
  quiet-IsCalm {m} q = record { calm = λ s i. go s (m s) (q.at s) i }
    where
      go :
          (s : Session) (p : Result A × Session)
          → IsQuietAt s.faults s.db.spans p.0 p.1
          → s.faults ≡ []
          → p.1.faults ≡ []
      go s (ok a, s') h i = h.1 i
      go s (err e, s') h i = absurd (h.1 i)
      go s (hangs, s') h i = absurd h

  pub statement-IsCalm : (run : Db → Option (A × Db)) → IsCalm (statement run)
  unfolding statement attempt outcome
  statement-IsCalm run = record { calm = λ s i. go s s.faults refl i }
    where
      done : (s : Session) (r : Option (A × Db)) → s.faults ≡ [] → (outcome s r).1.faults ≡ []
      done s none i = i
      done s (some (a, db)) i = i

      go :
          (s : Session) (faults : List Bool)
          → s.faults ≡ faults
          → faults ≡ []
          → (attempt run s faults).1.faults ≡ []
      go s [] z i = done s (run s.db) z
      go s (f ∷ faults) z i = absurd (ground (arith, i))

  pure-IsCalm : (a : A) → IsCalm (pure a)
  pure-IsCalm a = record { calm = λ s i. i }

module _ (o : Outside) (steps : ℕ) where
  marshalled-IsCalm : (t : Option String) → IsCalm (marshalled t)
  unfolding marshalled
  marshalled-IsCalm none = record { calm = λ s i. i }
  marshalled-IsCalm (some t) = pure-IsCalm t

  columns-IsCalm : (span : Span) → IsCalm (span_to_columns o span)
  unfolding span_to_columns
  columns-IsCalm span =
      bind-IsCalm (marshalled-IsCalm (o.marshal_attributes span.attributes))
        λ a. bind-IsCalm (marshalled-IsCalm (o.marshal_events span.events)) λ e. pure-IsCalm _

  after_insert-IsCalm :
      (span : Span) (t : ℕ) (cum : Totals) (n : ℕ) → IsCalm (after_insert steps span t cum n)
  unfolding after_insert propagate_to_ancestors
  after_insert-IsCalm span t cum zero = pure-IsCalm tt
  after_insert-IsCalm span t cum (suc n) =
      wrap-IsCalm "propagate to ancestors" (elim (Bool-cases (str_eq span.parent_id "")) [
        | inl e ↦ rw (propagate_to_ancestors, e) (pure-IsCalm tt)
        | inr e ↦
            rw (propagate_to_ancestors, e)
              (statement-IsCalm (update_ancestors steps t span.parent_id cum))
      ])

  pub insert_span_tx-IsCalm :
      (now : String) (span : Span) (project : String)
      → IsCalm (insert_span_tx o steps now span project)
  unfolding insert_span_tx
  insert_span_tx-IsCalm now span project =
      bind-IsCalm (wrap-IsCalm "serialize span" (columns-IsCalm span)) λ cols.
        bind-IsCalm
          (wrap-IsCalm "ensure project" (quiet-IsCalm (ensure_project-IsQuiet o now project)))
          λ p.
            bind-IsCalm (wrap-IsCalm "upsert trace" (quiet-IsCalm (upsert_trace-IsQuiet o span p)))
              λ t. bind-IsCalm (wrap-IsCalm "sum children" (quiet-IsCalm (query-IsQuiet _))) λ c.
                bind-IsCalm
                  (wrap-IsCalm "insert span" (
                    statement-IsCalm
                      λ db. some (insert_row o span cols t (self_totals span ⊕ null_sum c) db)))
                  λ n. after_insert-IsCalm span t (self_totals span ⊕ null_sum c) n
