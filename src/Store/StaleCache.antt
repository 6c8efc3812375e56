-- ===== src/Store/StaleCache.antt =====
-- The project cache of internal/store/span_insert.go after a rollback: ensureProject has put the rowid of a new project
-- into it before the transaction that made the row committed.
use tracewell.Prelude.{
  ℕ, String, true, false, [], ◌∷◌, map, none, some, str_eq, ◌≡◌, ◌≢◌, eq_iff, Bool-cases, inl, inr,
  refl, sym, arith, eq_refl,
}
use tracewell.Trace.{Span}
use tracewell.Store.Tables.{Db, find_project}
use tracewell.Store.Session.{
  ok, err, driver, wrapped, Session, statement, attempt, outcome, cache_get,
}
use tracewell.Store.Columns.{Outside, marshalled, span_to_columns}
use tracewell.Store.Insert.{
  insert_project, last_insert_id, found_project, cached_project, ensure_project, upsert_trace,
  insert_span_tx, restored, restore_unless_ok, insert_span,
}

-- the rowid of the next new project
abbrev pub next_project : Outside → Db → ℕ
next_project o db = o.next_rowid (map (λ p. p.id) db.projects)

-- the driver refuses the statement after those of ensureProject
abbrev pub refused_later : Session → Session
refused_later s = record s { faults = false ∷ false ∷ false ∷ false ∷ true ∷ [] }

rolled_back :
    (o : Outside) (steps : ℕ) (now : String) (span : Span) (a : String) (s : Session) {x y : String}
    → o.marshal_attributes span.attributes ≡ some x
    → o.marshal_events span.events ≡ some y
    → cache_get a s.cache ≡ none
    → find_project a s.db.projects ≡ none
    → insert_span o steps now span a (refused_later s) ≡ (
      err (wrapped "upsert trace" driver),
      record { db = s.db; cache = (a, next_project o s.db) ∷ s.cache; faults = [] },
    )
unfolding insert_span restore_unless_ok restored insert_span_tx span_to_columns marshalled
    ensure_project cached_project found_project insert_project last_insert_id upsert_trace statement
    attempt outcome
rolled_back o steps now span a s hx hy c f = ground (arith, hx, hy, c, f)

names_differ : (a b : String) → a ≢ b → str_eq a b ≡ false
names_differ a b d = elim (Bool-cases (str_eq a b)) [
  | inl e ↦ absurd (d ((eq_iff a b).0 e))
  | inr e ↦ e
]

-- After an insertion of a span of a new project that fails behind ensureProject, and is rolled back, the rowid that the
-- cache keeps for the project goes to the next new project: from then on ensureProject gives both names that rowid,
-- which is the other project's row, and no row has the first name. It is stated for a driver that refuses just
-- the statement after ensureProject, and for two names that neither the cache nor the table has.
pub ensure_project_confused :
    (o : Outside) (steps : ℕ) (now : String) (span : Span) (a b : String) (s : Session)
    (x y : String)
    → o.marshal_attributes span.attributes ≡ some x
    → o.marshal_events span.events ≡ some y
    → cache_get a s.cache ≡ none
    → cache_get b s.cache ≡ none
    → find_project a s.db.projects ≡ none
    → find_project b s.db.projects ≡ none
    → a ≢ b
    → ((insert_span o steps now span a (refused_later s)).0 ≡ err (wrapped "upsert trace" driver))
      × ((insert_span o steps now span a (refused_later s)).1.db ≡ s.db)
      × ((ensure_project o now b (insert_span o steps now span a (refused_later s)).1).0
          ≡ ok (next_project o s.db))
      × ((ensure_project o now a
            (ensure_project o now b (insert_span o steps now span a (refused_later s)).1).1).0
          ≡ ok (next_project o s.db))
      × (find_project a
            (ensure_project o now b
              (insert_span o steps now span a (refused_later s)).1).1.db.projects
          ≡ none)
unfolding ensure_project cached_project found_project insert_project last_insert_id statement
    attempt outcome cache_get find_project
ensure_project_confused o steps now span a b s x y hx hy ca cb fa fb d =
    let ne = names_differ a b d in
    let en = names_differ b a λ e. d (sym e) in
    rw (rolled_back o steps now span a s hx hy ca fa) (
      refl,
      refl,
      ground (arith, cb, fb, ne),
      ground (arith, cb, fb, ne, en, eq_refl a),
      ground (arith, cb, fb, ne, en, fa),
    )
