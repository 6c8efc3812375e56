-- ===== src/Store/Insertion.antt =====
-- InsertSpan as its callers see it: what holds after it, whatever fails.
use tracewell.Prelude.{
  ℕ, String, Bool, true, false, List, [], ◌∷◌, some, ◌≡◌, ◌≢◌, refl, ap, sym, ◌∙◌, subst, arith,
  ◌⊎◌, inl, inr,
}
use tracewell.Trace.{Span}
use tracewell.Store.Tables.{Db, has_span}
use tracewell.Store.Session.{
  Error, driver, Result, ok, err, hangs, Session, Tx, ◌>>=◌, ◌>>◌, pure, wrap, statement, attempt,
  outcome, query, exec,
}
use tracewell.Store.Totals.{Totals}
use tracewell.Store.Columns.{Outside, SpanColumns}
use tracewell.Store.Insert.{
  restored, restore_unless_ok, insert_row, after_insert, insert_span_tx, insert_span,
}
use tracewell.Store.Sound.{IsSound}
use tracewell.Store.Ensures.{Returns, Ensures, Ensures-bind, Ensures-wrap, Ensures-statement}
use tracewell.Store.Correct.{
  FreshRowids, Fits, tail_tx, insert_span_tx-tail, insert_span_tx-Ensures,
}

-- After BeginTx: the rest runs on the same tables, or nothing does.
pub begin_cases :
    {B : Type 0} (P : Result B × Session → Type 0) (f : Db → Tx B) (s : Session)
    → ((s' : Session) → s'.db ≡ s.db → P (f s.db s'))
    → ((s' : Session) → s'.db ≡ s.db → P (err driver, s'))
    → P ((query (λ db. db) >>= f) s)
unfolding statement attempt outcome
begin_cases P f s begun refused = go s.faults
  where
    go :
        (faults : List Bool)
        → P ((tracewell.Store.Session.◌>>=◌ (λ s. attempt (λ db. some (db, db)) s faults) f) s)
    go [] = begun s refl
    go (true ∷ faults) = refused (record s { faults = faults }) refl
    go (false ∷ faults) = begun (record s { faults = faults }) refl

-- The span is stored and the table sound, or the error is returned and the tables are as before.
abbrev pub Inserts : (String → ℕ) → Span → Db → Result (Unit {0}) × Session → Type 0
Inserts rank span before p =
    IsSound rank p.1.db.spans
    × (((p.0 ≡ ok tt) × (has_span span.span_id p.1.db.spans ≡ true))
        ⊎ ((e : Error) × (p.0 ≡ err e) × (p.1.db ≡ before)))

-- InsertSpan does not hang on a forest of spans: it either returns no error, and then the span's id is in the
-- table, or it returns an error and leaves the tables as they were. On both outcomes, and whichever statements
-- the driver refuses, the table keeps unique keys, cumulative columns that are each span's own totals plus
-- those of its direct children, in sums that wrap around at 64 bits (those of SQLite taken to do so too), and
-- a forest of parents. It is stated for rowids that are new, a table that is sound before, a span whose
-- rank is above its parent's (which no span that is its own parent has), and a number of steps above the
-- parent's rank.
pub insert_span-IsSound :
    (o : Outside) (rank : String → ℕ) (steps : ℕ) (now : String) (span : Span) (project : String)
    (s : Session)
    → FreshRowids o
    → Fits rank steps span
    → IsSound rank s.db.spans
    → Inserts rank span s.db (insert_span o steps now span project s)
unfolding insert_span
insert_span-IsSound o rank steps now span project s fresh fits sound =
    begin_cases (Inserts rank span s.db) _ s (λ s' e. finish (insert_span_tx-Ensures' s' e))
      (λ s' e. (subst (λ (db : Db). IsSound rank db.spans) (sym e) sound, inr (driver, refl, e)))
  where
    Done : Unit {0} → Session → Type 0
    Done _ s = IsSound rank s.db.spans × (has_span span.span_id s.db.spans ≡ true)

    insert_span_tx-Ensures' :
        (s' : Session)
        → s'.db ≡ s.db
        → Ensures Done (insert_span_tx o steps now span project >> exec λ db. db) s'
    insert_span_tx-Ensures' s' e =
        Ensures-bind
          (insert_span_tx-Ensures o fresh rank steps span fits now project s'
            (subst (λ (db : Db). IsSound rank db.spans) (sym e) sound))
          λ _ s₁ h. Ensures-statement _ tt s₁.db refl (λ faults. h)

    finish :
        {m : Tx (Unit {0})} {s' : Session}
        → Ensures Done m s'
        → Inserts rank span s.db (restore_unless_ok s.db m s')
    finish {m} {s'} h = go (m s') h.holds
      where
        go :
            (p : Result (Unit {0}) × Session)
            → Returns Done p.0 p.1
            → Inserts rank span s.db (restored s.db p.0 p.1)
        go (ok tt, s₁) h = (h.0, inl (refl, h.1))
        go (err e, s₁) h = (sound, inr (e, refl, refl))
        go (hangs, s₁) h = absurd h

-- A span whose id is in the table already changes no row of the spans table, whatever the rest of the
-- span and its project are, whatever fails and however many steps there are, and InsertSpan returns.
pub insert_span_duplicate :
    (o : Outside) (steps : ℕ) (now : String) (span : Span) (project : String) (s : Session)
    → has_span span.span_id s.db.spans ≡ true
    → ((insert_span o steps now span project s).1.db.spans ≡ s.db.spans)
      × ((insert_span o steps now span project s).0 ≢ hangs)
unfolding insert_span
insert_span_duplicate o steps now span project s old =
    begin_cases Unchanged _ s (λ s' e. finish (tx s' e))
      (λ s' e. (ap (λ (db : Db). db.spans) e, λ p. cc))
  where
    Unchanged : Result (Unit {0}) × Session → Type 0
    Unchanged p = (p.1.db.spans ≡ s.db.spans) × (p.0 ≢ hangs)

    Same : Unit {0} → Session → Type 0
    Same _ s' = s'.db.spans ≡ s.db.spans

    tail :
        (cols : SpanColumns) (t : ℕ) (cum : Totals) (s' : Session)
        → s'.db.spans ≡ s.db.spans
        → Ensures Same (tail_tx o steps span cols t cum) s'
    tail cols t cum s' e =
        Ensures-bind {P = λ n s₁. (n ≡ 0) × (s₁.db.spans ≡ s.db.spans)}
          (Ensures-wrap "insert span" (
            Ensures-statement _ 0 s'.db
              (unfold insert_row in ground (arith, ap (has_span span.span_id) e))
              (λ faults. (refl, e))))
          (λ n s₁ h. rw h.0 (unfold after_insert in record { holds = h.1 }))

    tx :
        (s' : Session)
        → s'.db ≡ s.db
        → Ensures Same (insert_span_tx o steps now span project >> exec λ db. db) s'
    tx s' e =
        Ensures-bind
          (insert_span_tx-tail o steps span Same now project s'
            λ cols t s'' _ e'. tail cols t _ s'' (e' ∙ ap (λ (db : Db). db.spans) e))
          λ _ s₁ h. Ensures-statement _ tt s₁.db refl (λ faults. h)

    finish :
        {m : Tx (Unit {0})} {s' : Session}
        → Ensures Same m s'
        → Unchanged (restore_unless_ok s.db m s')
    finish {m} {s'} h = go (m s') h.holds
      where
        go :
            (p : Result (Unit {0}) × Session)
            → Returns Same p.0 p.1
            → Unchanged (restored s.db p.0 p.1)
        go (ok tt, s₁) h = (h, λ p. cc)
        go (err e, s₁) h = (refl, λ p. cc)
        go (hangs, s₁) h = absurd h
