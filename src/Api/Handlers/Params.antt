-- ===== src/Api/Handlers/Params.antt =====
-- Which parameters the handlers of internal/api/handlers.go take.
use tracewell.Prelude.{
  ℕ, ◌+◌, ◌-◌, ◌*◌, ◌^◌, ◌<◌, ◌++◌, ◌||◌, leb, Bool-cases, inl, inr, not, ◌≤◌, ◌⊎◌, eq_iff, pos,
  String, Bool, true, false, List, [], ◌∷◌, Option, none, some, codes, str_eq, ◌==◌, ◌≡◌, refl, ap,
  ◌∙◌, arith, if◌then◌else◌,
}
use tracewell.Store.Tables.{Db}
use tracewell.Api.Queries.{page_limit, page_limit_bounds}
use tracewell.Api.Traces.{TraceFilter}
use tracewell.Strconv.{is_digit, parse_digits}
use tracewell.Strconv.Lenient.{parse_int_value, digits_value, scan_uint, clamp}
use tracewell.Api.Handlers.{
  Outside, Values, get, projects_reply, list_projects_from, is_sort, is_order, parse_time_param,
  parse_error_param, ◌>>=◌, trace_filter, project_list, project_list_within,
}

-- The parameters less one key.
unfoldable pub without : String → Values → Values
without key params k = if str_eq k key then [] else params k

-- the bytes behind a sign, if there is one
unfoldable pub after_sign : List ℕ → List ℕ
after_sign [] = []
after_sign (c ∷ cs) = if (c == b'-') || (c == b'+') then cs else c ∷ cs

parse_digits-le : (acc n : ℕ) (ds : List ℕ) → parse_digits acc ds ≡ some n → acc ≤ n
unfolding parse_digits
parse_digits-le acc n [] h = ground (arith, h)
parse_digits-le acc n (d ∷ ds) h = elim (Bool-cases (is_digit d)) [
  | inl e ↦
      let rest : parse_digits (acc * 10 + (d - b'0')) ds ≡ some n = ground (arith, h, e) in
      omega (arith, parse_digits-le (acc * 10 + (d - b'0')) n ds rest)
  | inr e ↦ absurd (ground (arith, h, e))
]

-- digits that a uint64 holds, and then a byte that is none
scan_uint_stops :
    (acc n : ℕ) (ds : List ℕ) (c : ℕ) (cs : List ℕ)
    → parse_digits acc ds ≡ some n
    → n < 2 ^ 64
    → is_digit c ≡ false
    → scan_uint acc (ds ++ c ∷ cs) ≡ none
unfolding scan_uint parse_digits
scan_uint_stops acc n [] c cs h b d = rw d refl
scan_uint_stops acc n (x ∷ ds) c cs h b d = elim (Bool-cases (is_digit x)) [
  | inl e ↦
      let next = acc * 10 + (x - b'0') in
      let rest : parse_digits next ds ≡ some n = ground (arith, h, e) in
      let fits : leb (2 ^ 64) next ≡ false = ground (arith, parse_digits-le next n ds rest, b) in
      rw (e, fits) (scan_uint_stops next n ds c cs rest b d)
  | inr e ↦ absurd (ground (arith, h, e))
]

digits_value-zero :
    (negative : Bool) (s : List ℕ) → scan_uint 0 s ≡ none → digits_value negative s ≡ pos 0
unfolding digits_value clamp
digits_value-zero negative [] h = refl
digits_value-zero negative (c ∷ cs) h = rw h refl

syntax-error :
    (s ds : List ℕ) (n c : ℕ) (cs : List ℕ)
    → after_sign s ≡ ds ++ c ∷ cs
    → parse_digits 0 ds ≡ some n
    → n < 2 ^ 64
    → is_digit c ≡ false
    → parse_int_value s ≡ pos 0
unfolding parse_int_value after_sign
syntax-error [] ds n c cs e h b d = refl
syntax-error (x ∷ xs) ds n c cs e h b d =
    let stops = scan_uint_stops 0 n ds c cs h b d in
    elim (Bool-cases (x == b'-')) [
      | inl m ↦
          let same : xs ≡ ds ++ c ∷ cs = ground (arith, e, m) in
          rw m (digits_value-zero true xs (ap (scan_uint 0) same ∙ stops))
      | inr m ↦ elim (Bool-cases (x == b'+')) [
        | inl p ↦
            let same : xs ≡ ds ++ c ∷ cs = ground (arith, e, m, p) in
            rw (m, p) (digits_value-zero false xs (ap (scan_uint 0) same ∙ stops))
        | inr p ↦
            let same : x ∷ xs ≡ ds ++ c ∷ cs = ground (arith, e, m, p) in
            rw (m, p) (digits_value-zero false (x ∷ xs) (ap (scan_uint 0) same ∙ stops))
      ]
    ]

no_cursor :
    (o : Outside) (db : Db) (params : Values)
    → parse_int_value (codes (get "cursor" params)) ≡ pos 0
    → (limit : Option ℕ)
    → project_list_within o db params limit
      ≡ project_list_within o db (without "cursor" params) limit
unfolding project_list_within without get parse_int_value
no_cursor o db params z none = refl
no_cursor o db params z (some limit) =
    ap (λ c. projects_reply (list_projects_from o limit c db.projects)) z

-- GET /v1/projects with a cursor that, behind a sign if there is one, has a byte that is no digit, after digits that
-- a uint64 holds or after none, answers as with no cursor at all: with the first page. (For larger digits
-- ParseInt stops at the range error before it comes to the byte.)
pub project_list_bad_cursor :
    (o : Outside) (db : Db) (params : Values) (ds : List ℕ) (n c : ℕ) (cs : List ℕ)
    → after_sign (codes (get "cursor" params)) ≡ ds ++ c ∷ cs
    → parse_digits 0 ds ≡ some n
    → n < 2 ^ 64
    → is_digit c ≡ false
    → project_list o db params ≡ project_list o db (without "cursor" params)
unfolding project_list without get
project_list_bad_cursor o db params ds n c cs e h b d =
    no_cursor o db params (syntax-error (codes (get "cursor" params)) ds n c cs e h b d)
      (page_limit (codes (get "limit" params)))

-- What a filter of the trace list may hold.
pub record IsChecked (f : TraceFilter) : Type 0 where
  pub positive : 1 ≤ f.limit
  pub bounded : f.limit ≤ 1000
  pub sorted : (f.sort ≡ "") ⊎ (f.sort ≡ "start_time") ⊎ (f.sort ≡ "latency_ms")
  pub ordered : (f.order ≡ "") ⊎ (f.order ≡ "asc") ⊎ (f.order ≡ "desc")

is_sort_lem : (s : String) → is_sort s ≡ true → (s ≡ "") ⊎ (s ≡ "start_time") ⊎ (s ≡ "latency_ms")
unfolding is_sort
is_sort_lem s h = ground (arith, eq_iff s "", eq_iff s "start_time", eq_iff s "latency_ms")

is_order_lem : (s : String) → is_order s ≡ true → (s ≡ "") ⊎ (s ≡ "asc") ⊎ (s ≡ "desc")
unfolding is_order
is_order_lem s h = ground (arith, eq_iff s "", eq_iff s "asc", eq_iff s "desc")

bind-some :
    {A B : Type 0} (x : Option A) (k : A → Option B) (b : B)
    → (x >>= k) ≡ some b
    → (a : A) × (x ≡ some a) × (k a ≡ some b)
bind-some none k b h = absurd (ground (arith, h))
bind-some (some a) k b h = (a, refl, h)

guard-some :
    {B : Type 0} (t : Bool) (x : Option B) (b : B)
    → (if not t then none else x) ≡ some b
    → (t ≡ true) × (x ≡ some b)
guard-some true x b h = (refl, h)
guard-some false x b h = absurd (ground (arith, h))

-- What each parameter gave to a filter.
pub record Parsed (params : Values) (f : TraceFilter) : Type 0 where
  pub limited : page_limit (codes (get "limit" params)) ≡ some f.limit
  pub sort : is_sort f.sort ≡ true
  pub order : is_order f.order ≡ true

pub trace_filter-Parsed :
    (o : Outside) (params : Values) (f : TraceFilter)
    → trace_filter o params ≡ some f
    → Parsed params f
unfolding trace_filter
trace_filter-Parsed o params f h =
    let (limit, l, h₁) = bind-some (page_limit (codes (get "limit" params))) _ f h in
    let (start, s, h₂) = bind-some (parse_time_param o (get "start_time" params)) _ f h₁ in
    let (finish, e, h₃) = bind-some (parse_time_param o (get "end_time" params)) _ f h₂ in
    let (sort, h₄) = guard-some (is_sort (get "sort" params)) _ f h₃ in
    let (order, h₅) = guard-some (is_order (get "order" params)) _ f h₄ in
    let (has_error, r, h₆) = bind-some (parse_error_param (get "error" params)) _ f h₅ in
    let same_limit : limit ≡ f.limit = ground (arith, h₆) in
    let same_sort : f.sort ≡ get "sort" params = ground (arith, h₆) in
    let same_order : f.order ≡ get "order" params = ground (arith, h₆) in
    record {
      limited = l ∙ ap some same_limit;
      sort = rw same_sort sort;
      order = rw same_order order;
    }

-- Every filter that the trace list accepts has a limit of 1 to 1000, sorts by nothing, start_time or latency_ms, and
-- orders by nothing, asc or desc.
pub trace_filter-IsChecked :
    (o : Outside) (params : Values) (f : TraceFilter) → trace_filter o params ≡ some f → IsChecked f
trace_filter-IsChecked o params f h =
    let p = trace_filter-Parsed o params f h in
    let (low, high) = page_limit_bounds (codes (get "limit" params)) f.limit p.limited in
    record {
      positive = low;
      bounded = high;
      sorted = is_sort_lem f.sort p.sort;
      ordered = is_order_lem f.order p.order;
    }
