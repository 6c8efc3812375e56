-- ===== src/Api/FindProject.antt =====
-- FindProject of internal/api/queries.go.
use tracewell.Prelude.{
  ℕ, ◌<◌, ◌^◌, ℤ, pos, negsuc, String, Bool, true, false, List, [], ◌∷◌, Option, none, some, ◌≡◌,
  ◌≢◌, refl, sym, ap, ◌∙◌, arith, str_eq, ◌==◌, if◌then◌else◌, codes, In, inl, inr, In-All, eq_refl,
  eq_iff, Bool-cases,
}
use tracewell.Strconv.{parse_int, format_int, parse_int-format_int}
use tracewell.Store.Tables.{ProjectRow, find_project}
use tracewell.Api.Page.{IsDistinct}
use tracewell.Api.Queries.{Project, ParseTime, scan_project}

-- errNotFound, or the error of the scan, or a project
pub data Found : Type 0 where
  not_found : Found
  scan_failed : Found
  found : Project → Found

is_int : ℕ → ℤ → Bool
is_int n (pos m) = n == m
is_int n (negsuc m) = false

-- SELECT … FROM projects WHERE id = ?
unfoldable pub project_by_id : ℤ → List ProjectRow → Option ProjectRow
unfolding is_int
project_by_id id [] = none
project_by_id id (r ∷ rs) = if is_int r.id id then some r else project_by_id id rs

scanned : Option Project → Found
scanned none = scan_failed
scanned (some p) = found p

-- the local function scan
scan_found : ParseTime → ℤ → Option ProjectRow → Found
unfolding scanned
scan_found parse_time zero_time none = not_found
scan_found parse_time zero_time (some r) = scanned (scan_project parse_time zero_time r)

-- FindProject
unfoldable pub find_by_identifier : ParseTime → ℤ → String → List ProjectRow → Found
unfolding scan_found
find_by_identifier parse_time zero_time identifier rows = elim (parse_int (codes identifier)) [
  | some id ↦ scan_found parse_time zero_time (project_by_id id rows)
  | none ↦ scan_found parse_time zero_time (find_project identifier rows)
]

project_by_id-In :
    (r : ProjectRow) (rows : List ProjectRow)
    → IsDistinct (λ (r : ProjectRow). r.id) rows
    → In r rows
    → project_by_id (pos r.id) rows ≡ some r
unfolding project_by_id is_int
project_by_id-In r [] d i = absurd i
project_by_id-In r (x ∷ rows) d (inl e) =
    let same : r.id ≡ x.id = ap (λ y. y.id) e in ground (arith, same, e)
project_by_id-In r (x ∷ rows) d (inr i) =
    let other : r.id ≢ x.id = In-All (λ y. y.id ≢ x.id) rows d.0 r i in
    ground (arith, project_by_id-In r rows d.1 i)

project_by_id-none :
    (n : ℕ) (rows : List ProjectRow)
    → ((r : ProjectRow) → In r rows → r.id ≢ n)
    → project_by_id (pos n) rows ≡ none
unfolding project_by_id is_int
project_by_id-none n [] h = refl
project_by_id-none n (x ∷ rows) h =
    ground (arith, h x (inl refl), project_by_id-none n rows (λ r i. h r (inr i)))

find_project-In :
    (r : ProjectRow) (rows : List ProjectRow)
    → ((q : ProjectRow) → In q rows → q.name ≡ r.name → q ≡ r)
    → In r rows
    → find_project r.name rows ≡ some r
unfolding find_project
find_project-In r [] unique i = absurd i
find_project-In r (x ∷ rows) unique (inl e) =
    let same : x.name ≡ r.name = ap (λ y. y.name) (sym e) in
    let equal : str_eq x.name r.name ≡ true = rw same (eq_refl r.name) in ground (arith, equal, e)
find_project-In r (x ∷ rows) unique (inr i) = elim (Bool-cases (str_eq x.name r.name)) [
  | inl e ↦
      let same : x ≡ r = unique x (inl refl) ((eq_iff x.name r.name).0 e) in ground (arith, e, same)
  | inr e ↦ ground (arith, e, find_project-In r rows (λ q j. unique q (inr j)) i)
]

module _ (parse_time : ParseTime) (zero_time : ℤ) where
  numeric :
      (identifier : String) (n : ℕ) (rows : List ProjectRow)
      → codes identifier ≡ format_int (pos n)
      → n < 2 ^ 63
      → find_by_identifier parse_time zero_time identifier rows
        ≡ scan_found parse_time zero_time (project_by_id (pos n) rows)
  unfolding find_by_identifier scan_found
  numeric identifier n rows c h =
      let reads : parse_int (codes identifier) ≡ some (pos n) =
        rw c (parse_int-format_int (pos n) h) in
      rw (find_by_identifier, reads) refl

  -- A project is found by the decimal digits of its id, whatever other projects are named. It is stated for
  -- distinct ids, an id that an int64 holds, and a row whose timestamps can be read.
  pub find_by_identifier-id :
      (identifier : String) (r : ProjectRow) (p : Project) (rows : List ProjectRow)
      → IsDistinct (λ (q : ProjectRow). q.id) rows
      → In r rows
      → codes identifier ≡ format_int (pos r.id)
      → r.id < 2 ^ 63
      → scan_project parse_time zero_time r ≡ some p
      → find_by_identifier parse_time zero_time identifier rows ≡ found p
  unfolding scan_found scanned
  find_by_identifier-id identifier r p rows d i c h e =
      numeric identifier r.id rows c h ∙ rw (project_by_id-In r rows d i, e) refl

  -- A project whose name does not read as an integer is found by that name. It is stated for a name that no
  -- other row has, and a row whose timestamps can be read.
  pub find_by_identifier-name :
      (r : ProjectRow) (p : Project) (rows : List ProjectRow)
      → ((q : ProjectRow) → In q rows → q.name ≡ r.name → q ≡ r)
      → In r rows
      → parse_int (codes r.name) ≡ none
      → scan_project parse_time zero_time r ≡ some p
      → find_by_identifier parse_time zero_time r.name rows ≡ found p
  unfolding find_by_identifier scan_found scanned
  find_by_identifier-name r p rows unique i n e =
      rw (find_by_identifier, n, find_project-In r rows unique i, e) refl

  -- An identifier that is the decimal digits of a number finds nothing if no project has that id, also where a
  -- project has the identifier as its name.
  pub find_by_identifier_shadowed :
      (identifier : String) (n : ℕ) (rows : List ProjectRow)
      → codes identifier ≡ format_int (pos n)
      → n < 2 ^ 63
      → ((r : ProjectRow) → In r rows → r.id ≢ n)
      → find_by_identifier parse_time zero_time identifier rows ≡ not_found
  unfolding scan_found
  find_by_identifier_shadowed identifier n rows c h other =
      numeric identifier n rows c h ∙ rw (project_by_id-none n rows other) refl
