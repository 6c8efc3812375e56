-- ===== src/Server/Routes/Reached.antt =====
-- Which requests the routes take.
use tracewell.Prelude.{
  String, Bool, true, false, ◌||◌, if◌then◌else◌, List, [], ◌∷◌, Option, none, some, ◌≡◌, refl, sym,
  ap, ◌∙◌, subst, arith, In, inl, inr, Bool-cases, Option-cases,
}
use tracewell.Api.Handlers.{ProjectRoute, project_get, trace_list, span_list, trace_span_list}
use tracewell.Server.Mux.{
  Part, literal, wildcard, UrlPath, Values, path_value, takes_method, match_path, Entry, Routed,
  reached, redirected, not_allowed, missing, find_entry, is_path_of, unmatched, route, with_slash,
}
use tracewell.Server.Mux.Matched.{Matches, match_path_exact, find_entry_sound}
use tracewell.Server.Routes.{
  TopHandler, health, ingestion, query_api, new_handler, ApiHandler, projects_handler,
  project_handler, traces_handler, spans_handler, trace_spans_handler, get_entry, below_project,
  api_handler, Target, healthz, uploads, all_projects, below, target_of, api_target, top_target,
  dispatch,
}

unfoldable pub method_of : Target → String
method_of uploads = "POST"
method_of _ = "GET"

unfoldable pub project_path : ProjectRoute → List String
project_path project_get = []
project_path trace_list = "traces" ∷ []
project_path span_list = "spans" ∷ []
project_path (trace_span_list t) = "traces" ∷ t ∷ "spans" ∷ []

unfoldable pub segments_of : Target → List String
unfolding project_path
segments_of healthz = "healthz" ∷ []
segments_of uploads = "v1" ∷ "traces" ∷ []
segments_of all_projects = "v1" ∷ "projects" ∷ []
segments_of (below identifier r) = "v1" ∷ "projects" ∷ identifier ∷ project_path r

unfoldable pub path_of : Target → UrlPath
unfolding segments_of
path_of t = record { path_segments = segments_of t; final_slash = false }

-- The targets that need no database.
unfoldable pub is_served : Bool → Target → Bool
is_served has_db healthz = true
is_served has_db uploads = true
is_served has_db _ = has_db

route_found :
    {H : Type 0} (es : List (Entry H)) (m : String) (u : UrlPath) (x : H × Values)
    → route es m u ≡ reached x
    → find_entry es m u ≡ some x
unfolding route
route_found {H = H} es m u x h = elim (Option-cases (find_entry es m u)) [
  | inl e ↦
      let missed : route es m u
          ≡ unmatched es u (if u.final_slash then none else find_entry es m (with_slash u)) =
        rw (e, route) refl in
      absurd (
        not_reached (if u.final_slash then none else find_entry es m (with_slash u))
          (sym missed ∙ h))
  | inr (y, e) ↦
      let found : route es m u ≡ reached y = rw (e, route) refl in
      e ∙ ap some (ground (arith, sym found ∙ h))
]
  where
    not_reached : (r : Option (H × Values)) → unmatched es u r ≡ reached x → ⊥
    not_reached (some y) q = absurd (ground (arith, q))
    not_reached none q = elim (Bool-cases (is_path_of es u || is_path_of es (with_slash u))) [
      | inl b ↦ absurd (ground (arith, q, b))
      | inr b ↦ absurd (ground (arith, q, b))
    ]

-- the parts of each pattern of the API
abbrev parts : ApiHandler → List Part
parts projects_handler = literal "v1" ∷ literal "projects" ∷ []
parts project_handler = below_project []
parts traces_handler = below_project (literal "traces" ∷ [])
parts spans_handler = below_project (literal "spans" ∷ [])
parts trace_spans_handler =
    below_project (literal "traces" ∷ wildcard "trace_id" ∷ literal "spans" ∷ [])

filled :
    (h : ApiHandler) (u : UrlPath) (vs : Values)
    → Matches (parts h) u.path_segments vs []
    → u.final_slash ≡ false
    → u ≡ path_of (target_of h vs)
unfolding path_of segments_of project_path target_of path_value
filled projects_handler u vs (s, a, (s', b, (l, d))) z = ground (arith, a, b, d, z)
filled project_handler u vs (s, a, (s', b, (v, s'', ws, c, k, (l, d)))) z =
    rw k (ground (arith, a, b, c, d, z))
filled traces_handler u vs (s, a, (s', b, (v, s'', ws, c, k, (t, e, (l, d))))) z =
    rw k (ground (arith, a, b, c, e, d, z))
filled spans_handler u vs (s, a, (s', b, (v, s'', ws, c, k, (t, e, (l, d))))) z =
    rw k (ground (arith, a, b, c, e, d, z))
filled trace_spans_handler u vs
      (s, a, (s', b, (v, s'', ws, c, k, (t, e, (w, s3, ws', f, k', (p, g, (l, d))))))) z =
    rw (k, k') (ground (arith, a, b, c, e, f, g, d, z))

from_entry :
    (x : ApiHandler) (e : Entry ApiHandler) (m : String) (u : UrlPath) (h : ApiHandler)
    (vs : Values)
    → e ≡ get_entry (parts x) x
    → e.handler ≡ h
    → takes_method e.pattern.method m ≡ true
    → match_path e.pattern u ≡ some vs
    → (takes_method "GET" m ≡ true) × (u ≡ path_of (target_of h vs))
from_entry x e m u h vs p same t f =
    let (ms, z) =
      match_path_exact (get_entry (parts x) x).pattern u vs refl
        (subst (λ (y : Entry ApiHandler). match_path y.pattern u ≡ some vs) p f) in
    let is_h : x ≡ h = ap (λ (y : Entry ApiHandler). y.handler) (sym p) ∙ same in
    (
      subst (λ (y : Entry ApiHandler). takes_method y.pattern.method m ≡ true) p t,
      filled x u vs ms z ∙ ap (λ y. path_of (target_of y vs)) is_h,
    )

-- what reaches a handler of the API
api_sound :
    (m : String) (u : UrlPath) (h : ApiHandler) (vs : Values)
    → find_entry api_handler m u ≡ some (h, vs)
    → (takes_method "GET" m ≡ true) × (u ≡ path_of (target_of h vs))
api_sound m u h vs q =
    let (e, i, same, t, f) = find_entry_sound api_handler m u h vs q in by_entry e i same t f
  where
    by_entry :
        (e : Entry ApiHandler)
        → In e api_handler
        → e.handler ≡ h
        → takes_method e.pattern.method m ≡ true
        → match_path e.pattern u ≡ some vs
        → (takes_method "GET" m ≡ true) × (u ≡ path_of (target_of h vs))
    by_entry e (inl p) = from_entry projects_handler e m u h vs p
    by_entry e (inr (inl p)) = from_entry project_handler e m u h vs p
    by_entry e (inr (inr (inl p))) = from_entry traces_handler e m u h vs p
    by_entry e (inr (inr (inr (inl p)))) = from_entry spans_handler e m u h vs p
    by_entry e (inr (inr (inr (inr (inl p))))) = from_entry trace_spans_handler e m u h vs p
    by_entry e (inr (inr (inr (inr (inr x))))) = elim x [ ]

-- What the table of NewHandler tells of the request.
abbrev Top : Bool → TopHandler → String → UrlPath → Type 0
Top has_db health m u = (takes_method "GET" m ≡ true) × (u ≡ path_of healthz)
Top has_db ingestion m u = (takes_method "POST" m ≡ true) × (u ≡ path_of uploads)
Top has_db query_api m u = has_db ≡ true

-- one entry of it
Says : Bool → String → UrlPath → Values → Entry TopHandler → Type 0
Says has_db m u vs e =
    takes_method e.pattern.method m ≡ true
    → match_path e.pattern u ≡ some vs
    → Top has_db e.handler m u

top_entry :
    (has_db : Bool) (e : Entry TopHandler) (m : String) (u : UrlPath) (vs : Values)
    → In e (new_handler has_db)
    → Says has_db m u vs e
unfolding Says path_of segments_of
top_entry has_db e m u vs (inl p) =
    subst (Says has_db m u vs) (sym p) λ t f.
      let ((s, a, (l, d)), z) = match_path_exact _ u vs refl f in (t, ground (arith, a, d, z))
top_entry has_db e m u vs (inr (inl p)) = subst (Says has_db m u vs) (sym p) λ t f.
    let ((s, a, (s', b, (l, d))), z) = match_path_exact _ u vs refl f in
    (t, ground (arith, a, b, d, z))
top_entry true e m u vs (inr (inr (inl p))) = subst (Says true m u vs) (sym p) λ t f. refl
top_entry true e m u vs (inr (inr (inr x))) = elim x [ ]
top_entry false e m u vs (inr (inr x)) = elim x [ ]

route-Top :
    (has_db : Bool) (m : String) (u : UrlPath) (h : TopHandler) (vs : Values)
    → route (new_handler has_db) m u ≡ reached (h, vs)
    → Top has_db h m u
unfolding Says
route-Top has_db m u h vs q =
    let (e, i, same, t, f) =
      find_entry_sound (new_handler has_db) m u h vs
        (route_found (new_handler has_db) m u (h, vs) q) in
    subst (λ x. Top has_db x m u) same (top_entry has_db e m u vs i t f)

-- The request is one for the target: its method, its path, and a database where the target needs one.
abbrev pub IsFor : Bool → String → UrlPath → Target → Type 0
IsFor has_db m u t =
    (takes_method (method_of t) m ≡ true) × (u ≡ path_of t) × (is_served has_db t ≡ true)

method_of_target : (h : ApiHandler) (vs : Values) → method_of (target_of h vs) ≡ "GET"
unfolding method_of target_of
method_of_target projects_handler vs = refl
method_of_target project_handler vs = refl
method_of_target traces_handler vs = refl
method_of_target spans_handler vs = refl
method_of_target trace_spans_handler vs = refl

is_served_target :
    (has_db : Bool) (h : ApiHandler) (vs : Values) → is_served has_db (target_of h vs) ≡ has_db
unfolding is_served target_of
is_served_target has_db projects_handler vs = refl
is_served_target has_db project_handler vs = refl
is_served_target has_db traces_handler vs = refl
is_served_target has_db spans_handler vs = refl
is_served_target has_db trace_spans_handler vs = refl

api_IsFor :
    (has_db : Bool) (m : String) (u : UrlPath) (t : Target) (r : Routed (ApiHandler × Values))
    → has_db ≡ true
    → route api_handler m u ≡ r
    → api_target r ≡ reached t
    → IsFor has_db m u t
unfolding api_target
api_IsFor has_db m u t (reached (h, vs)) d e q =
    let (takes, path) = api_sound m u h vs (route_found api_handler m u (h, vs) e) in
    let same : target_of h vs ≡ t = ground (arith, q) in
    subst (IsFor has_db m u) same
      (rw (method_of_target h vs) takes, path, is_served_target has_db h vs ∙ d)
api_IsFor has_db m u t redirected d e q = absurd (ground (arith, q))
api_IsFor has_db m u t not_allowed d e q = absurd (ground (arith, q))
api_IsFor has_db m u t missing d e q = absurd (ground (arith, q))

at_health :
    (has_db : Bool) (m : String) (u : UrlPath) → Top has_db health m u → IsFor has_db m u healthz
unfolding method_of is_served
at_health has_db m u (t, p) = (t, p, refl)

at_uploads :
    (has_db : Bool) (m : String) (u : UrlPath) → Top has_db ingestion m u → IsFor has_db m u uploads
unfolding method_of is_served
at_uploads has_db m u (t, p) = (t, p, refl)

pub dispatch_sound :
    (has_db : Bool) (m : String) (u : UrlPath) (t : Target)
    → dispatch has_db m u ≡ reached t
    → IsFor has_db m u t
unfolding dispatch top_target
dispatch_sound has_db m u t q = go (route (new_handler has_db) m u) refl q
  where
    go :
        (r : Routed (TopHandler × Values))
        → route (new_handler has_db) m u ≡ r
        → top_target m u r ≡ reached t
        → IsFor has_db m u t
    go (reached (health, vs)) e q =
        subst (IsFor has_db m u) (ground (arith, q))
          (at_health has_db m u (route-Top has_db m u health vs e))
    go (reached (ingestion, vs)) e q =
        subst (IsFor has_db m u) (ground (arith, q))
          (at_uploads has_db m u (route-Top has_db m u ingestion vs e))
    go (reached (query_api, vs)) e q =
        api_IsFor has_db m u t (route api_handler m u) (route-Top has_db m u query_api vs e) refl q
    go redirected e q = absurd (ground (arith, q))
    go not_allowed e q = absurd (ground (arith, q))
    go missing e q = absurd (ground (arith, q))
