-- ===== src/Store/Opening/Schema.antt =====
-- What running a list of statements keeps and what it makes.
use tracewell.Prelude.{
  String, Bool, true, false, ◌&&◌, ◌||◌, List, [], ◌∷◌, some, ◌≡◌, refl, sym, ap, ◌∙◌, subst, arith,
  str_eq, eq_refl, eq_iff, if◌then◌else◌, Bool-cases, Option-cases, inl, inr,
}
use tracewell.Store.Tables.{Db}
use tracewell.Store.Session.{Result, ok}
use tracewell.Store.Opening.{
  Statement, create_table, create_index, Database, named, emptied, executed, is_refused, later,
  exec_all,
}

-- A table that does not exist holds no rows.
unfoldable pub present_rows : Database → Db
present_rows d = record {
  projects = if named "projects" d.tables then d.rows.projects else [];
  traces = if named "traces" d.tables then d.rows.traces else [];
  spans = if named "spans" d.tables then d.rows.spans else [];
}

abbrev pub IsWritten : Database → Type 0
IsWritten d = present_rows d ≡ d.rows

-- The statement has nothing to do.
unfoldable pub is_made : Database → Statement → Bool
is_made d (create_table n) = named n d.tables
is_made d (create_index i t) = named t d.tables && named i d.indexes

unfoldable pub all_made : List Statement → Database → Bool
unfolding is_made
all_made [] d = true
all_made (st ∷ sts) d = is_made d st && all_made sts d

-- the rows of a table that is made are none
emptied_lem :
    (n : String) (d : Database) → IsWritten d → named n d.tables ≡ false → emptied n d.rows ≡ d.rows
unfolding emptied present_rows
emptied_lem n d w m = λ i. record {
  projects = kept "projects" d.rows.projects (λ j. (w j).projects) i;
  traces = kept "traces" d.rows.traces (λ j. (w j).traces) i;
  spans = kept "spans" d.rows.spans (λ j. (w j).spans) i;
}
  where
    kept :
        {A : Type 0} (t : String) (rows : List A)
        → (if named t d.tables then rows else []) ≡ rows
        → (if str_eq n t then [] else rows) ≡ rows
    kept t rows h = elim (Bool-cases (str_eq n t)) [
      | inl e ↦
          let same : n ≡ t = (eq_iff n t).0 e in
          let absent : named t d.tables ≡ false = subst (λ u. named u d.tables ≡ false) same m in
          rw e (subst (λ b. (if b then rows else []) ≡ rows) absent h)
      | inr e ↦ rw e refl
    ]

-- One statement loses no row.
pub record Kept (d d' : Database) : Type 0 where
  pub rows : d'.rows ≡ d.rows
  pub written : IsWritten d'

still_present :
    {A : Type 0} (b c : Bool) (rows : List A)
    → (if c then rows else []) ≡ rows
    → (if b || c then (if b then [] else rows) else []) ≡ (if b then [] else rows)
still_present true c rows h = refl
still_present false c rows h = h

new_table-IsWritten :
    (n : String) (d : Database)
    → IsWritten d
    → IsWritten (record d { tables = n ∷ d.tables; rows = emptied n d.rows })
unfolding present_rows named emptied
new_table-IsWritten n d w = λ i. record {
  projects =
      still_present (str_eq n "projects") (named "projects" d.tables) d.rows.projects
        (λ j. (w j).projects) i;
  traces =
      still_present (str_eq n "traces") (named "traces" d.tables) d.rows.traces (λ j. (w j).traces)
        i;
  spans =
      still_present (str_eq n "spans") (named "spans" d.tables) d.rows.spans (λ j. (w j).spans) i;
}

executed-Kept :
    (st : Statement) (d d' : Database) → IsWritten d → executed st d ≡ some d' → Kept d d'
unfolding executed
executed-Kept (create_table n) d d' w h = elim (Bool-cases (named n d.tables)) [
  | inl e ↦
      let same : d ≡ d' = ground (arith, h, e) in
      subst (Kept d) same (record { rows = refl; written = w })
  | inr e ↦
      let same : record d { tables = n ∷ d.tables; rows = emptied n d.rows } ≡ d' =
        ground (arith, h, e) in
      subst (Kept d) same
        (record { rows = emptied_lem n d w e; written = new_table-IsWritten n d w })
]
executed-Kept (create_index x t) d d' w h = elim (Bool-cases (named t d.tables)) [
  | inl e ↦ elim (Bool-cases (named x d.indexes)) [
    | inl f ↦
        let same : d ≡ d' = ground (arith, h, e, f) in
        subst (Kept d) same (record { rows = refl; written = w })
    | inr f ↦
        let same : record d { indexes = x ∷ d.indexes } ≡ d' = ground (arith, h, e, f) in
        subst (Kept d) same (record { rows = refl; written = unfold present_rows in w })
  ]
  | inr e ↦ absurd (ground (arith, h, e))
]

pub exec_all-Kept : (sts : List Statement) (d : Database) → IsWritten d → Kept d (exec_all sts d).1
unfolding exec_all
exec_all-Kept [] d w = record { rows = refl; written = w }
exec_all-Kept (st ∷ sts) d w = elim (Bool-cases (is_refused d.faults)) [
  | inl e ↦ rw (e, exec_all) (record { rows = refl; written = unfold present_rows in w })
  | inr e ↦ elim (Option-cases (executed st (record d { faults = later d.faults }))) [
    | inl f ↦ rw (e, f, exec_all) (record { rows = refl; written = unfold present_rows in w })
    | inr (d', f) ↦
        let one =
          executed-Kept st (record d { faults = later d.faults }) d' (unfold present_rows in w) f in
        let rest = exec_all-Kept sts d' one.written in
        rw (e, f, exec_all) (record { rows = rest.rows ∙ one.rows; written = rest.written })
  ]
]

-- Every index comes after its table, which `tables` has or a statement before it makes.
unfoldable pub is_ordered : List Statement → List String → Bool
unfolding named
is_ordered [] tables = true
is_ordered (create_table n ∷ sts) tables = is_ordered sts (n ∷ tables)
is_ordered (create_index i t ∷ sts) tables = named t tables && is_ordered sts tables

-- The second database has all that the first has.
pub record Grown (d d' : Database) : Type 0 where
  pub tables : (n : String) → named n d.tables ≡ true → named n d'.tables ≡ true
  pub indexes : (n : String) → named n d.indexes ≡ true → named n d'.indexes ≡ true

pub record Made (st : Statement) (d d' : Database) : Type 0 where
  pub run : executed st d ≡ some d'
  pub grows : Grown d d'
  pub faults : d'.faults ≡ d.faults
  pub made : is_made d' st ≡ true

abbrev pub Tables : List String → Database → Type 0
Tables ts d = (n : String) → named n ts ≡ true → named n d.tables ≡ true

named_head : (n : String) (ms : List String) → named n (n ∷ ms) ≡ true
unfolding named
named_head n ms = ground (arith, eq_refl n)

named_later : (n m : String) (ms : List String) → named n ms ≡ true → named n (m ∷ ms) ≡ true
unfolding named
named_later n m ms h = ground (arith, h)

create_table-Made : (n : String) (d : Database) → (d' : Database) × Made (create_table n) d d'
unfolding executed is_made
create_table-Made n d = elim (Bool-cases (named n d.tables)) [
  | inl e ↦ (
    d,
    record {
      run = rw e refl;
      grows = record { tables = λ m h. h; indexes = λ m h. h };
      faults = refl;
      made = e;
    },
  )
  | inr e ↦ (
    record d { tables = n ∷ d.tables; rows = emptied n d.rows },
    record {
      run = rw e refl;
      grows = record { tables = λ m h. named_later m n d.tables h; indexes = λ m h. h };
      faults = refl;
      made = named_head n d.tables;
    },
  )
]

create_index-Made :
    (x t : String) (d : Database)
    → named t d.tables ≡ true
    → (d' : Database) × Made (create_index x t) d d'
unfolding executed is_made
create_index-Made x t d h = elim (Bool-cases (named x d.indexes)) [
  | inl e ↦ (
    d,
    record {
      run = rw (h, e) refl;
      grows = record { tables = λ m i. i; indexes = λ m i. i };
      faults = refl;
      made = rw (h, e) refl;
    },
  )
  | inr e ↦ (
    record d { indexes = x ∷ d.indexes },
    record {
      run = rw (h, e) refl;
      grows = record { tables = λ m i. i; indexes = λ m i. named_later m x d.indexes i };
      faults = refl;
      made = rw (h, named_head x d.indexes) refl;
    },
  )
]

is_made-Grown :
    (st : Statement) (d d' : Database) → Grown d d' → is_made d st ≡ true → is_made d' st ≡ true
unfolding is_made
is_made-Grown (create_table n) d d' g h = g.tables n h
is_made-Grown (create_index x t) d d' g h = ground (arith, g.tables t, g.indexes x, h)

-- A list in order runs to its end where nothing is refused, and makes all that it names.
pub record Done (sts : List Statement) (d d' : Database) : Type 0 where
  pub run : exec_all sts d ≡ (ok tt, d')
  pub grows : Grown d d'
  pub faults : d'.faults ≡ d.faults
  pub made : all_made sts d' ≡ true

chain-Grown : {a b c : Database} → Grown a b → Grown b c → Grown a c
chain-Grown g h = record {
  tables = λ n i. h.tables n (g.tables n i);
  indexes = λ n i. h.indexes n (g.indexes n i);
}

-- one statement that the list allows
step-Made :
    (st : Statement) (sts : List Statement) (ts : List String) (d : Database)
    → is_ordered (st ∷ sts) ts ≡ true
    → Tables ts d
    → (d' : Database) × Made st d d'
      × (more : List String) × (is_ordered sts more ≡ true)
      × Tables more d'
unfolding is_ordered is_made
step-Made (create_table n) sts ts d o h =
    let (d', m) = create_table-Made n d in
    (
      d',
      m,
      n ∷ ts,
      o,
      λ k i. elim (Bool-cases (str_eq n k)) [
        | inl e ↦
            let same : n ≡ k = (eq_iff n k).0 e in subst (λ u. named u d'.tables ≡ true) same m.made
        | inr e ↦ m.grows.tables k (h k (unfold named in ground (arith, i, e)))
      ],
    )
step-Made (create_index x t) sts ts d o h =
    let has_table : named t ts ≡ true = ground (arith, o) in
    let (d', m) = create_index-Made x t d (h t has_table) in
    (d', m, ts, ground (arith, o), λ k i. m.grows.tables k (h k i))

pub exec_all-Done :
    (sts : List Statement) (ts : List String) (d : Database)
    → is_ordered sts ts ≡ true
    → Tables ts d
    → d.faults ≡ []
    → (d' : Database) × Done sts d d'
unfolding exec_all all_made
exec_all-Done [] ts d o h z = (
  d,
  record {
    run = refl;
    grows = record { tables = λ n i. i; indexes = λ n i. i };
    faults = refl;
    made = refl;
  },
)
exec_all-Done (st ∷ sts) ts d o h z =
    let used : record d { faults = later d.faults } ≡ d =
      ap (λ fs. record d { faults = fs }) (ap later z ∙ sym z) in
    let allowed : is_refused d.faults ≡ false = ap is_refused z in
    let (d₁, m, more, o', h') = step-Made st sts ts d o h in
    let (d₂, rest) = exec_all-Done sts more d₁ o' h' (m.faults ∙ z) in
    (
      d₂,
      record {
        run = rw (allowed, exec_all) (rw (used, m.run, exec_all) rest.run);
        grows = chain-Grown m.grows rest.grows;
        faults = rest.faults ∙ m.faults;
        made = ground (arith, is_made-Grown st d₁ d₂ rest.grows m.made, rest.made);
      },
    )

executed_made : (st : Statement) (d : Database) → is_made d st ≡ true → executed st d ≡ some d
unfolding executed is_made
executed_made (create_table n) d h = rw h refl
executed_made (create_index x t) d h =
    let (a, b) : (named t d.tables ≡ true) × (named x d.indexes ≡ true) = ground (arith, h) in
    rw (a, b) refl

-- Where all is made already, nothing changes.
pub exec_all_made :
    (sts : List Statement) (d : Database)
    → all_made sts d ≡ true
    → d.faults ≡ []
    → exec_all sts d ≡ (ok tt, d)
unfolding exec_all all_made
exec_all_made [] d h z = refl
exec_all_made (st ∷ sts) d h z =
    let used : record d { faults = later d.faults } ≡ d =
      ap (λ fs. record d { faults = fs }) (ap later z ∙ sym z) in
    let allowed : is_refused d.faults ≡ false = ap is_refused z in
    let one : is_made d st ≡ true = ground (arith, h) in
    rw (allowed, exec_all)
      (rw (used, executed_made st d one, exec_all) (exec_all_made sts d (ground (arith, h)) z))

executed-Makes :
    (st : Statement) (d d' : Database)
    → executed st d ≡ some d'
    → Grown d d' × (is_made d' st ≡ true)
unfolding executed is_made
executed-Makes (create_table n) d d' h = elim (Bool-cases (named n d.tables)) [
  | inl e ↦
      let same : d ≡ d' = ground (arith, h, e) in
      subst (λ x. Grown d x × (named n x.tables ≡ true)) same
        (record { tables = λ m i. i; indexes = λ m i. i }, e)
  | inr e ↦
      let same : record d { tables = n ∷ d.tables; rows = emptied n d.rows } ≡ d' =
        ground (arith, h, e) in
      subst (λ x. Grown d x × (named n x.tables ≡ true)) same
        (
          record { tables = λ m i. named_later m n d.tables i; indexes = λ m i. i },
          named_head n d.tables,
        )
]
executed-Makes (create_index x t) d d' h = elim (Bool-cases (named t d.tables)) [
  | inl e ↦ elim (Bool-cases (named x d.indexes)) [
    | inl f ↦
        let same : d ≡ d' = ground (arith, h, e, f) in
        subst (λ y. Grown d y × ((named t y.tables && named x y.indexes) ≡ true)) same
          (record { tables = λ m i. i; indexes = λ m i. i }, ground (arith, e, f))
    | inr f ↦
        let same : record d { indexes = x ∷ d.indexes } ≡ d' = ground (arith, h, e, f) in
        subst (λ y. Grown d y × ((named t y.tables && named x y.indexes) ≡ true)) same
          (
            record { tables = λ m i. i; indexes = λ m i. named_later m x d.indexes i },
            ground (arith, e, named_head x d.indexes),
          )
  ]
  | inr e ↦ absurd (ground (arith, h, e))
]

-- A list that ran to its end has made all that it names.
pub record Makes (sts : List Statement) (d : Database) (p : Result (Unit {0}) × Database)
    : Type 0 where
  pub grown : p.0 ≡ ok tt → Grown d p.1
  pub made : p.0 ≡ ok tt → all_made sts p.1 ≡ true

pub exec_all-Makes : (sts : List Statement) (d : Database) → Makes sts d (exec_all sts d)
unfolding exec_all all_made
exec_all-Makes [] d = record {
  grown = λ e. record { tables = λ m i. i; indexes = λ m i. i };
  made = λ e. refl;
}
exec_all-Makes (st ∷ sts) d = elim (Bool-cases (is_refused d.faults)) [
  | inl e ↦
      rw (e, exec_all)
        (record { grown = λ q. absurd (ground (arith, q)); made = λ q. absurd (ground (arith, q)) })
  | inr e ↦ elim (Option-cases (executed st (record d { faults = later d.faults }))) [
    | inl f ↦
        rw (e, f, exec_all)
          (record {
            grown = λ q. absurd (ground (arith, q));
            made = λ q. absurd (ground (arith, q));
          })
    | inr (d', f) ↦
        let (g, m) = executed-Makes st (record d { faults = later d.faults }) d' f in
        let rest = exec_all-Makes sts d' in
        rw (e, f, exec_all)
          (record {
            grown = λ q. record {
              tables = λ n i. (rest.grown q).tables n (g.tables n i);
              indexes = λ n i. (rest.grown q).indexes n (g.indexes n i);
            };
            made = λ q.
                ground
                  (arith, is_made-Grown st d' (exec_all sts d').1 (rest.grown q) m, rest.made q);
          })
  ]
]
