-- ===== src/Store/Session.antt =====
-- One transaction of internal/store: the tables, the project cache, and the failures to come.
-- Each statement uses up one entry of `faults`; `true` is a statement that the driver refuses,
-- which changes nothing, and statements past the end of the list succeed.
use tracewell.Prelude.{
  ℕ, String, Bool, true, false, List, [], ◌∷◌, Option, none, some, str_eq, if◌then◌else◌,
}
use tracewell.Store.Tables.{Db}

pub data Error : Type 0 where
  driver : Error
  marshal : Error
  wrapped : String → Error → Error

-- `hangs`: the statement does not end within the steps that the model is given.
pub data Result (A : Type 0) : Type 0 where
  ok : A → Result A
  err : Error → Result A
  hangs : Result A

-- The cache outlives the transaction: a rollback restores `db` alone.
pub record Session : Type 0 where
  pub db : Db
  pub cache : List (String × ℕ)
  pub faults : List Bool

abbrev pub Tx : Type 0 → Type 0
Tx A = Session → Result A × Session

module _ {A B : Type 0} where
  abbrev pub continue : Result A → (A → Tx B) → Tx B
  continue (ok a) f s = f a s
  continue (err e) f s = (err e, s)
  continue hangs f s = (hangs, s)

  infixl 10 ◌>>=◌ ◌>>◌
  abbrev pub ◌>>=◌ : Tx A → (A → Tx B) → Tx B
  ◌>>=◌ m f s = continue (m s).0 f (m s).1

  abbrev pub ◌>>◌ : Tx A → Tx B → Tx B
  m >> n = m >>= λ _. n

module _ {A : Type 0} where
  abbrev pub pure : A → Tx A
  pure a s = (ok a, s)

  abbrev pub raise : Error → Tx A
  raise e s = (err e, s)

  abbrev pub gets : (Session → A) → Tx A
  gets f s = (ok (f s), s)

  abbrev wrap_result : String → Result A → Result A
  wrap_result what (err e) = err (wrapped what e)
  wrap_result what r = r

  -- fmt.Errorf("what: %w", err)
  abbrev pub wrap : String → Tx A → Tx A
  wrap what m s = (wrap_result what (m s).0, (m s).1)

  unfoldable pub outcome : Session → Option (A × Db) → Result A × Session
  outcome s none = (hangs, s)
  outcome s (some (a, db)) = (ok a, record s { db = db })

  unfoldable pub attempt : (Db → Option (A × Db)) → Session → List Bool → Result A × Session
  unfolding outcome
  attempt run s [] = outcome s (run s.db)
  attempt run s (fails ∷ rest) =
      if fails
      then (err driver, record s { faults = rest })
      else outcome (record s { faults = rest }) (run s.db)

  -- One statement, which may fail; `none` if it does not end.
  unfoldable pub statement : (Db → Option (A × Db)) → Tx A
  unfolding attempt
  statement run s = attempt run s s.faults

  abbrev pub query : (Db → A) → Tx A
  query f = statement λ db. some (f db, db)

abbrev pub exec : (Db → Db) → Tx (Unit {0})
exec f = statement λ db. some (tt, f db)

abbrev pub when : Bool → Tx (Unit {0}) → Tx (Unit {0})
when true m = m
when false m = pure tt

-- projectCache.get
unfoldable pub cache_get : String → List (String × ℕ) → Option ℕ
cache_get name [] = none
cache_get name ((n, id) ∷ c) = if str_eq n name then some id else cache_get name c

-- projectCache.put: a new entry hides an older one
abbrev pub cache_put : String → ℕ → Tx (Unit {0})
cache_put name id s = (ok tt, record s { cache = (name, id) ∷ s.cache })
