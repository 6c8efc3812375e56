-- ===== src/Store/Ensures.antt =====
-- Postconditions of transactions: what holds if they return, at whichever statement the driver
-- may refuse. A transaction that hangs meets none.
use tracewell.Prelude.{Bool, true, false, String, List, [], ◌∷◌, Option, some, ◌≡◌, sym, subst}
use tracewell.Store.Tables.{Db}
use tracewell.Store.Session.{
  Result, ok, err, hangs, Session, Tx, ◌>>=◌, continue, outcome, attempt, wrap, statement,
}

abbrev pub Returns : {A : Type 0} → (A → Session → Type 0) → Result A → Session → Type 0
Returns Q (ok a) s = Q a s
Returns Q (err e) s = Unit {0}
Returns Q hangs s = ⊥

pub record Ensures {A : Type 0} (Q : A → Session → Type 0) (m : Tx A) (s : Session) : Type 0 where
  pub holds : Returns Q (m s).0 (m s).1

module _ {A B : Type 0} where
  pub Ensures-bind :
      {P : A → Session → Type 0} {Q : B → Session → Type 0} {m : Tx A} {f : A → Tx B} {s : Session}
      → Ensures P m s
      → ((a : A) (s' : Session) → P a s' → Ensures Q (f a) s')
      → Ensures Q (m >>= f) s
  Ensures-bind {P} {Q} {m} {f} {s} h k = record { holds = go (m s).0 (m s).1 h.holds }
    where
      go :
          (r : Result A) (s' : Session)
          → Returns P r s'
          → Returns Q (continue r f s').0 (continue r f s').1
      go (ok a) s' h = (k a s' h).holds
      go (err e) s' h = tt
      go hangs s' h = h

module _ {A : Type 0} {Q : A → Session → Type 0} where
  pub Ensures-wrap :
      (what : String) {m : Tx A} {s : Session} → Ensures Q m s → Ensures Q (wrap what m) s
  Ensures-wrap what {m} {s} h = record { holds = go (m s) h.holds }
    where
      go :
          (p : Result A × Session)
          → Returns Q p.0 p.1
          → Returns Q (wrap what (λ _. p) s).0 (wrap what (λ _. p) s).1
      go (ok a, s') h = h
      go (err e, s') h = tt
      go (hangs, s') h = h

  -- A statement that ends.
  pub Ensures-statement :
      (run : Db → Option (A × Db)) {s : Session} (a : A) (db : Db)
      → run s.db ≡ some (a, db)
      → ((faults : List Bool) → Q a (record s { db = db; faults = faults }))
      → Ensures Q (statement run) s
  unfolding statement
  Ensures-statement run {s} a db e h = record { holds = go s.faults }
    where
      go : (faults : List Bool) → Returns Q (attempt run s faults).0 (attempt run s faults).1
      go [] = subst (λ x. Returns Q (outcome s x).0 (outcome s x).1) (sym e) (h s.faults)
      go (true ∷ faults) = tt
      go (false ∷ faults) =
          subst
            (λ x.
              Returns Q (outcome (record s { faults = faults }) x).0
                (outcome (record s { faults = faults }) x).1)
            (sym e) (h faults)
