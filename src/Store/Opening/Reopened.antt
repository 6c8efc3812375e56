-- ===== src/Store/Opening/Reopened.antt =====
-- Opening a store again, after an opening that may have failed.
use tracewell.Prelude.{true, [], ◌≡◌, refl, sym, ap, ◌∙◌, subst, arith}
use tracewell.Store.Session.{Result, ok, err, hangs, Session}
use tracewell.Store.Opening.{
  Database, schema, named, exec_all, read_file, migrate_from, migrate, opened, open_store,
}
use tracewell.Store.Opening.Schema.{
  present_rows, IsWritten, Kept, is_ordered, all_made, exec_all-Kept, Makes, exec_all-Makes,
  exec_all-Done, exec_all_made,
}

-- the store that a database is opened to
abbrev pub store_of : Database → Session
store_of d = record { db = d.rows; cache = []; faults = d.faults }

opened-rows : (r : Result (Unit {0}) × Database) → (opened r).1 ≡ r.1
unfolding opened
opened-rows (ok a, d) = refl
opened-rows (err e, d) = refl
opened-rows (hangs, d) = refl

-- Opening loses no row, whatever fails.
pub open_store-Kept : (d : Database) → IsWritten d → Kept d (open_store d).1
unfolding open_store migrate migrate_from read_file
open_store-Kept d w =
    subst (Kept d) (sym (opened-rows (exec_all schema d))) (exec_all-Kept schema d w)

pub open_store_made :
    (d : Database) → all_made schema d ≡ true → d.faults ≡ [] → open_store d ≡ (ok (store_of d), d)
unfolding open_store migrate migrate_from read_file opened
open_store_made d h z = ap opened (exec_all_made schema d h z)

pub open_store_lem :
    (d : Database)
    → d.faults ≡ []
    → (d' : Database) × (open_store d ≡ (ok (store_of d'), d'))
      × (all_made schema d' ≡ true)
      × (d'.faults ≡ [])
unfolding open_store migrate migrate_from read_file opened is_ordered named
open_store_lem d z =
    let (d', done) = exec_all-Done schema [] d refl (λ n i. absurd (ground (arith, i))) z in
    (d', ap opened done.run, done.made, done.faults ∙ z)

-- However an opening failed on the way, or not, opening the database that it left where no statement is refused
-- succeeds, with every table and index of the schema, an empty project cache and all rows that there were, and from
-- then on opening changes nothing. It is stated for a database where a table that does not exist has no rows.
pub open_store_reopens :
    (d : Database)
    → IsWritten d
    → (d' : Database) × (open_store (record (open_store d).1 { faults = [] })
        ≡ (ok (record { db = d.rows; cache = []; faults = [] }), d'))
      × (all_made schema d' ≡ true)
      × (open_store d' ≡ (ok (record { db = d.rows; cache = []; faults = [] }), d'))
open_store_reopens d w =
    let k = open_store-Kept d w in
    let again : Database = record (open_store d).1 { faults = [] } in
    let (d', e, made, z) = open_store_lem again refl in
    let k' = open_store-Kept again (unfold present_rows in k.written) in
    let rows : d'.rows ≡ d.rows =
      ap (λ (p : Result Session × Database). p.1.rows) (sym e) ∙ k'.rows ∙ k.rows in
    let same : store_of d' ≡ record { db = d.rows; cache = []; faults = [] } =
      λ i. record { db = rows i; cache = []; faults = z i } in
    (d', e ∙ ap (λ s. (ok s, d')) same, made, open_store_made d' made z ∙ ap (λ s. (ok s, d')) same)

-- What an opening that succeeds returns and leaves.
pub open_store_opened :
    (d d' : Database) (s : Session)
    → open_store d ≡ (ok s, d')
    → (all_made schema d' ≡ true) × (s.db ≡ d'.rows) × (s.cache ≡ [])
unfolding open_store migrate migrate_from read_file opened
open_store_opened d d' s h = go (exec_all schema d) (exec_all-Makes schema d) h
  where
    go :
        (p : Result (Unit {0}) × Database)
        → Makes schema d p
        → opened p ≡ (ok s, d')
        → (all_made schema d' ≡ true) × (s.db ≡ d'.rows) × (s.cache ≡ [])
    go (ok a, x) m e =
        let store : store_of x ≡ s = ground (arith, e) in
        let same : x ≡ d' = ground (arith, e) in
        let made : all_made schema x ≡ true = m.made refl in
        (
          subst (λ y. all_made schema y ≡ true) same made,
          ap (λ (y : Session). y.db) (sym store) ∙ ap (λ (y : Database). y.rows) same,
          ap (λ (y : Session). y.cache) (sym store),
        )
    go (err x, y) m e = absurd (ground (arith, e))
    go (hangs, y) m e = absurd (ground (arith, e))
