-- ===== src/Store/Batch/Stored.antt =====
-- What InsertSpans of internal/store/span_batch.go reports as stored is in the table.
use tracewell.Prelude.{
  ℕ, Bool, String, List, [], ◌∷◌, map, some, ◌≡◌, sym, subst, arith, Option-cases, Bool-cases, ◌⊎◌,
  false, true, refl, inl, inr,
}
use tracewell.Store.Session.{
  driver, wrapped, Result, ok, err, hangs, Session, exec, statement, outcome, attempt,
}
use tracewell.Store.Tables.{has_span}
use tracewell.Store.Columns.{Outside}
use tracewell.Store.Keeps.{Has}
use tracewell.Store.Batch.{Ingest, insert_all, committed, finish_batch, begun, insert_spans}
use tracewell.Store.Batch.Loop.{Reports, insert_all-Looped, committed-Looped, all_errors}

-- One entry for each span, and each span without an error has its id in the table.
abbrev pub Reported : List Ingest → List (Result (Unit {0})) → Session → Type 0
Reported [] [] s = Unit {0}
Reported (i ∷ is) (ok a ∷ rs) s = Has i.span.span_id s × Reported is rs s
Reported (i ∷ is) (err e ∷ rs) s = Reported is rs s
Reported (i ∷ is) (hangs ∷ rs) s = Reported is rs s
Reported _ _ s = ⊥

Reported-Reports :
    (items : List Ingest) (rs : List (Result (Unit {0}))) (s : Session)
    → Reports items rs s
    → Reported items rs s
Reported-Reports [] [] s h = tt
Reported-Reports (i ∷ is) (ok a ∷ rs) s h = (h.0 refl, Reported-Reports is rs s h.1)
Reported-Reports (i ∷ is) (err e ∷ rs) s h = Reported-Reports is rs s h.1
Reported-Reports (i ∷ is) (hangs ∷ rs) s h = Reported-Reports is rs s h.1
Reported-Reports [] (r ∷ rs) s h = absurd h
Reported-Reports (i ∷ is) [] s h = absurd h

insert_spans-Looped :
    (o : Outside) (steps : ℕ) (now : String) (items : List Ingest) (s s' : Session)
    (rs : List (Result (Unit {0})))
    → insert_spans o steps now items s ≡ some (rs, s')
    → Reports items rs s' × ((x : String) → Has x s → Has x s')
unfolding insert_spans statement attempt outcome
insert_spans-Looped o steps now items s s' rs h = go s s.faults h
  where
    looped :
        (s₀ : Session)
        → begun o steps now items (ok s₀.db) s₀ ≡ some (rs, s')
        → Reports items rs s' × ((x : String) → Has x s₀ → Has x s')
    looped s₀ h = elim (Option-cases (insert_all o steps now items s₀)) [
      | inl e ↦ absurd (unfold begun finish_batch in ground (arith, e, h))
      | inr ((qs, s₁), e) ↦
          let all =
            committed-Looped o steps now items s₀ qs s₁
              (insert_all-Looped o steps now items s₀ qs s₁ e) in
          let c = committed s₀.db qs (exec (λ db. db) s₁).0 (exec (λ db. db) s₁).1 in
          let same_rs : c.0 ≡ rs = unfold begun finish_batch in ground (arith, e, h) in
          let same_s : c.1 ≡ s' = unfold begun finish_batch in ground (arith, e, h) in
          (
            subst (λ r. Reports items r s') same_rs
                (subst (λ t. Reports items c.0 t) same_s all.reported),
            λ x i. subst (Has x) same_s (all.kept x i),
          )
    ]

    go :
        (s : Session) (faults : List Bool)
        → begun o steps now items
            (attempt (λ db. some (db, db)) s faults).0
            (attempt (λ db. some (db, db)) s faults).1
          ≡ some (rs, s')
        → Reports items rs s' × ((x : String) → Has x s → Has x s')
    go s [] h = looped s h
    go s (false ∷ faults) h = looped (record s { faults = faults }) h
    go s (true ∷ faults) h =
        let same : map (λ i. err (wrapped "begin transaction" driver)) items ≡ rs =
          unfold begun in ground (arith, h) in
        let kept : record s { faults = faults } ≡ s' = unfold begun in ground (arith, h) in
        (
          rw (sym same) (all_errors o steps now (wrapped "begin transaction" driver) items s'),
          λ x i. subst (Has x) kept i,
        )

-- InsertSpans reports one entry for each span, a span without an error is in the table afterwards, and every span
-- that was in the table before is there still: whichever statements the driver refuses, BeginTx, COMMIT and
-- the statements around a savepoint included, and whichever spans cannot be marshalled.
pub insert_spans-stored :
    (o : Outside) (steps : ℕ) (now : String) (items : List Ingest) (s s' : Session)
    (rs : List (Result (Unit {0}))) (x : String)
    → insert_spans o steps now items s ≡ some (rs, s')
    → Reported items rs s' × ((has_span x s.db.spans ≡ false) ⊎ (has_span x s'.db.spans ≡ true))
insert_spans-stored o steps now items s s' rs x h =
    let (reports, kept) = insert_spans-Looped o steps now items s s' rs h in
    (
      Reported-Reports items rs s' reports,
      elim (Bool-cases (has_span x s.db.spans)) [ inl e ↦ inr (kept x e) | inr e ↦ inl e ],
    )
