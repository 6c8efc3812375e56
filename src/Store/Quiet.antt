-- ===== src/Store/Quiet.antt =====
-- Transactions that end and leave the spans table alone: the project and trace rows come first.
use tracewell.Prelude.{
  ℕ, Bool, true, false, String, List, [], ◌∷◌, Option, none, some, ◌≡◌, ◌≢◌, ◌∙◌, refl,
}
use tracewell.Trace.{Span}
use tracewell.Store.Tables.{Db, SpanRow, ProjectRow, TraceRow}
use tracewell.Store.Session.{
  Result, ok, err, hangs, Session, Tx, ◌>>=◌, pure, gets, wrap, statement, outcome, attempt, query,
  exec, when, cache_put,
}
use tracewell.Store.Columns.{Outside}
use tracewell.Store.Insert.{
  insert_project, insert_trace, found_project, cached_project, found_trace, ensure_project,
  upsert_trace,
}
use tracewell.Store.Ensures.{Returns, Ensures}

-- `m` ends with the spans as they were, and fails only at a statement that the driver refused.
abbrev pub IsQuietAt : {A : Type 0} → List Bool → List SpanRow → Result A → Session → Type 0
IsQuietAt faults rows (ok a) s = (s.db.spans ≡ rows) × (faults ≡ [] → s.faults ≡ [])
IsQuietAt faults rows (err e) s = (s.db.spans ≡ rows) × (faults ≢ [])
IsQuietAt faults rows hangs s = ⊥

pub record IsQuiet {A : Type 0} (m : Tx A) : Type 0 where
  pub at : (s : Session) → IsQuietAt s.faults s.db.spans (m s).0 (m s).1

module _ {A : Type 0} where
  pub pure-IsQuiet : (a : A) → IsQuiet (pure a)
  pure-IsQuiet a = record { at = λ s. (refl, λ h. h) }

  gets-IsQuiet : (f : Session → A) → IsQuiet (gets f)
  gets-IsQuiet f = record { at = λ s. (refl, λ h. h) }

  pub wrap-IsQuiet : (what : String) (m : Tx A) → IsQuiet m → IsQuiet (wrap what m)
  wrap-IsQuiet what m q = record { at = λ s. go s (m s) (q.at s) }
    where
      go :
          (s : Session) (p : Result A × Session)
          → IsQuietAt s.faults s.db.spans p.0 p.1
          → IsQuietAt s.faults s.db.spans (wrap what (λ _. p) s).0 (wrap what (λ _. p) s).1
      go s (ok a, s') h = h
      go s (err e, s') h = h
      go s (hangs, s') h = h

  -- A statement over the other tables.
  statement-IsQuiet :
      (run : Db → A × Db)
      → ((db : Db) → (run db).1.spans ≡ db.spans)
      → IsQuiet (statement (λ db. some (run db)))
  unfolding statement attempt outcome
  statement-IsQuiet run h = record { at = λ s. go s s.faults refl }
    where
      go :
          (s : Session) (faults : List Bool)
          → s.faults ≡ faults
          → IsQuietAt faults s.db.spans
              (attempt (λ db. some (run db)) s faults).0
              (attempt (λ db. some (run db)) s faults).1
      go s [] z = (h s.db, λ _. z)
      go s (true ∷ faults) z = (refl, λ e. cc)
      go s (false ∷ faults) z = (h s.db, λ e. cc)

  pub query-IsQuiet : (f : Db → A) → IsQuiet (query f)
  query-IsQuiet f = statement-IsQuiet (λ db. (f db, db)) (λ db. refl)

exec-IsQuiet : (f : Db → Db) → ((db : Db) → (f db).spans ≡ db.spans) → IsQuiet (exec f)
exec-IsQuiet f h = statement-IsQuiet (λ db. (tt, f db)) h

when-IsQuiet : (b : Bool) (m : Tx (Unit {0})) → IsQuiet m → IsQuiet (when b m)
when-IsQuiet true m q = q
when-IsQuiet false m q = pure-IsQuiet tt

cache_put-IsQuiet : (name : String) (id : ℕ) → IsQuiet (cache_put name id)
cache_put-IsQuiet name id = record { at = λ s. (refl, λ h. h) }

-- the same, seen from an earlier session
IsQuietAt-before :
    {A : Type 0} (faults faults' : List Bool) (rows rows' : List SpanRow) (r : Result A)
    (s : Session)
    → rows' ≡ rows
    → (faults ≡ [] → faults' ≡ [])
    → IsQuietAt faults' rows' r s
    → IsQuietAt faults rows r s
IsQuietAt-before faults faults' rows rows' (ok a) s e f h = (h.0 ∙ e, λ z. h.1 (f z))
IsQuietAt-before faults faults' rows rows' (err x) s e f h = (h.0 ∙ e, λ z. h.1 (f z))
IsQuietAt-before faults faults' rows rows' hangs s e f h = h

module _ {A B : Type 0} where
  pub bind-IsQuiet :
      (m : Tx A) (f : A → Tx B) → IsQuiet m → ((a : A) → IsQuiet (f a)) → IsQuiet (m >>= f)
  bind-IsQuiet m f q h = record { at = λ s. go s (m s) (q.at s) }
    where
      go :
          (s : Session) (p : Result A × Session)
          → IsQuietAt s.faults s.db.spans p.0 p.1
          → IsQuietAt s.faults s.db.spans (◌>>=◌ (λ _. p) f s).0 (◌>>=◌ (λ _. p) f s).1
      go s (ok a, s') (e, g) =
          IsQuietAt-before s.faults s'.faults s.db.spans s'.db.spans (f a s').0 (f a s').1 e g
            ((h a).at s')
      go s (err e, s') h = h
      go s (hangs, s') h = h

ruleset quiet_rules = (
  pure-IsQuiet, gets-IsQuiet, wrap-IsQuiet, query-IsQuiet, when-IsQuiet, cache_put-IsQuiet,
  bind-IsQuiet,
)

pub IsQuiet-Ensures :
    {A : Type 0} {m : Tx A} (s : Session)
    → IsQuiet m
    → Ensures (λ _ s'. s'.db.spans ≡ s.db.spans) m s
IsQuiet-Ensures {A} {m} s q = record { holds = go (m s) (q.at s) }
  where
    go :
        (p : Result A × Session)
        → IsQuietAt s.faults s.db.spans p.0 p.1
        → Returns (λ _ s'. s'.db.spans ≡ s.db.spans) p.0 p.1
    go (ok a, s') h = h.0
    go (err e, s') h = tt
    go (hangs, s') h = h

module _ (o : Outside) where
  found_project-IsQuiet :
      (now name : String) (p : Option ProjectRow) → IsQuiet (found_project o now name p)
  unfolding found_project
  found_project-IsQuiet now name (some p) = pure-IsQuiet p.id
  found_project-IsQuiet now name none =
      bind-IsQuiet _ _ (statement-IsQuiet (insert_project o now name) (λ db. refl))
        (λ id. query-IsQuiet (λ _. id))

  cached_project-IsQuiet :
      (now name : String) (c : Option ℕ) → IsQuiet (cached_project o now name c)
  unfolding cached_project
  cached_project-IsQuiet now name (some id) = pure-IsQuiet id
  cached_project-IsQuiet now name none = search (quiet_rules, found_project-IsQuiet)

  pub ensure_project-IsQuiet : (now name : String) → IsQuiet (ensure_project o now name)
  unfolding ensure_project
  ensure_project-IsQuiet now name = search (quiet_rules, cached_project-IsQuiet)

  found_trace-IsQuiet :
      (span : Span) (project : ℕ) (t : Option TraceRow) → IsQuiet (found_trace o span project t)
  unfolding found_trace
  found_trace-IsQuiet span project (some t) = search (quiet_rules, exec-IsQuiet)
  found_trace-IsQuiet span project none =
      bind-IsQuiet _ _ (statement-IsQuiet (insert_trace o span project) (λ db. refl))
        (λ id. query-IsQuiet (λ _. id))

  pub upsert_trace-IsQuiet : (span : Span) (project : ℕ) → IsQuiet (upsert_trace o span project)
  unfolding upsert_trace
  upsert_trace-IsQuiet span project = search (quiet_rules, found_trace-IsQuiet)
