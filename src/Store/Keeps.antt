-- ===== src/Store/Keeps.antt =====
-- Transactions that remove no span, whatever fails, and those that leave a span in the table if they succeed.
pub mod Inserting
pub mod Whole
use tracewell.Prelude.{
  ℕ, zero, suc, Bool, true, false, String, List, [], ◌∷◌, Option, none, some, ◌≡◌, refl, ap, ◌∙◌,
  subst, arith, str_eq, eq_refl, Bool-cases, Option-cases, inl, inr,
}
use tracewell.Trace.{Span}
use tracewell.Store.Tables.{Db, has_span, sum_children}
use tracewell.Store.Totals.{Totals, ◌⊕◌}
use tracewell.Store.Session.{
  Result, ok, err, hangs, Session, Tx, ◌>>=◌, continue, pure, wrap, statement, outcome, attempt,
  query,
}
use tracewell.Store.Columns.{
  Outside, SpanColumns, marshalled, span_to_columns, self_totals, null_sum,
}
use tracewell.Store.Insert.{
  ancestors, update_ancestors, propagate_to_ancestors, after_insert, new_row, insert_row,
  insert_span_tx, ensure_project, upsert_trace,
}
use tracewell.Store.Quiet.{
  IsQuiet, IsQuietAt, query-IsQuiet, ensure_project-IsQuiet, upsert_trace-IsQuiet,
}
use tracewell.Store.Ancestors.{has_span-add}

-- `x` names a span of the table.
abbrev pub Has : String → Session → Type 0
Has x s = has_span x s.db.spans ≡ true

pub record Keeps (x : String) {A : Type 0} (m : Tx A) : Type 0 where
  pub keeps : (s : Session) → Has x s → Has x (m s).1

pub record Adds (x : String) {A : Type 0} (m : Tx A) : Type 0 where
  pub adds : (s : Session) (a : A) → (m s).0 ≡ ok a → Has x (m s).1

module _ {x : String} {A B : Type 0} where
  pub Keeps-bind :
      {m : Tx A} {f : A → Tx B} → Keeps x m → ((a : A) → Keeps x (f a)) → Keeps x (m >>= f)
  Keeps-bind {m} {f} k h = record { keeps = λ s i. go (m s) (k.keeps s i) }
    where
      go : (p : Result A × Session) → Has x p.1 → Has x (continue p.0 f p.1).1
      go (ok a, s) i = (h a).keeps s i
      go (err e, s) i = i
      go (hangs, s) i = i

  pub Adds-last : (m : Tx A) {f : A → Tx B} → ((a : A) → Adds x (f a)) → Adds x (m >>= f)
  Adds-last m {f} h = record { adds = λ s b e. go (m s) b e }
    where
      go :
          (p : Result A × Session) (b : B)
          → (continue p.0 f p.1).0 ≡ ok b
          → Has x (continue p.0 f p.1).1
      go (ok a, s) b e = (h a).adds s b e
      go (err e', s) b e = absurd (ground (arith, e))
      go (hangs, s) b e = absurd (ground (arith, e))

  pub Adds-first :
      {m : Tx A} {f : A → Tx B} → Adds x m → ((a : A) → Keeps x (f a)) → Adds x (m >>= f)
  Adds-first {m} {f} k h = record { adds = λ s b e. go (m s) (λ a. k.adds s a) b e }
    where
      go :
          (p : Result A × Session)
          → ((a : A) → p.0 ≡ ok a → Has x p.1)
          → (b : B) → (continue p.0 f p.1).0 ≡ ok b
          → Has x (continue p.0 f p.1).1
      go (ok a, s) i b e = (h a).keeps s (i a refl)
      go (err e', s) i b e = absurd (ground (arith, e))
      go (hangs, s) i b e = absurd (ground (arith, e))

module _ {x : String} {A : Type 0} where
  pub Keeps-pure : (a : A) → Keeps x (pure a)
  Keeps-pure a = record { keeps = λ s i. i }

  pub Keeps-wrap : (what : String) {m : Tx A} → Keeps x m → Keeps x (wrap what m)
  Keeps-wrap what {m} k = record { keeps = λ s i. k.keeps s i }

  pub Adds-wrap : (what : String) {m : Tx A} → Adds x m → Adds x (wrap what m)
  Adds-wrap what {m} k = record { adds = λ s a e. go (m s) (λ b. k.adds s b) a s e }
    where
      go :
          (p : Result A × Session)
          → ((b : A) → p.0 ≡ ok b → Has x p.1)
          → (a : A) (s : Session) → (wrap what (λ _. p) s).0 ≡ ok a
          → Has x p.1
      go (ok b, s') i a s e = i b refl
      go (err e', s') i a s e = absurd (ground (arith, e))
      go (hangs, s') i a s e = absurd (ground (arith, e))

  pub Keeps-IsQuiet : {m : Tx A} → IsQuiet m → Keeps x m
  Keeps-IsQuiet {m} q = record { keeps = λ s i. go s (m s) (q.at s) i }
    where
      go :
          (s : Session) (p : Result A × Session)
          → IsQuietAt s.faults s.db.spans p.0 p.1
          → Has x s
          → Has x p.1
      go s (ok a, s') h i = ap (has_span x) h.0 ∙ i
      go s (err e, s') h i = ap (has_span x) h.0 ∙ i
      go s (hangs, s') h i = absurd h

  pub Keeps-statement :
      (run : Db → Option (A × Db))
      → ((db db' : Db) (a : A)
          → run db ≡ some (a, db')
          → has_span x db.spans ≡ true
          → has_span x db'.spans ≡ true)
      → Keeps x (statement run)
  unfolding statement
  Keeps-statement run h = record { keeps = λ s i. go s s.faults i }
    where
      done : (s : Session) (r : Option (A × Db)) → run s.db ≡ r → Has x s → Has x (outcome s r).1
      done s none e i = unfold outcome in i
      done s (some (a, db)) e i = unfold outcome in h s.db db a e i

      go : (s : Session) (faults : List Bool) → Has x s → Has x (attempt run s faults).1
      go s [] i = unfold attempt in done s (run s.db) refl i
      go s (true ∷ faults) i = unfold attempt in i
      go s (false ∷ faults) i =
          unfold attempt in done (record s { faults = faults }) (run s.db) refl i

  pub Adds-statement :
      (run : Db → Option (A × Db))
      → ((db db' : Db) (a : A) → run db ≡ some (a, db') → has_span x db'.spans ≡ true)
      → Adds x (statement run)
  unfolding statement
  Adds-statement run h = record { adds = λ s a e. go s s.faults a e }
    where
      done :
          (s : Session) (r : Option (A × Db))
          → run s.db ≡ r
          → (a : A) → (outcome s r).0 ≡ ok a
          → Has x (outcome s r).1
      done s none e a q = absurd (unfold outcome in ground (arith, q))
      done s (some (b, db)) e a q = unfold outcome in h s.db db b e

      go :
          (s : Session) (faults : List Bool) (a : A)
          → (attempt run s faults).0 ≡ ok a
          → Has x (attempt run s faults).1
      go s [] a e = unfold attempt in done s (run s.db) refl a (unfold attempt in e)
      go s (true ∷ faults) a e = absurd (unfold attempt in ground (arith, e))
      go s (false ∷ faults) a e =
          unfold attempt in
          done (record s { faults = faults }) (run s.db) refl a (unfold attempt in e)
