-- ===== src/Server/Mux.antt =====
-- What internal/server/handler.go and internal/api/handlers.go use of net/http's ServeMux: patterns of a method and a
-- path, on paths that are clean, with the redirect to a path with a final slash.
pub mod Matched
use tracewell.Prelude.{
  String, Bool, true, false, not, ◌&&◌, ◌||◌, List, [], ◌∷◌, Option, none, some, str_eq,
  if◌then◌else◌, ◌≡◌, refl, sym, ap, subst, arith, In, inl, inr, Bool-cases, eq_iff, Option-cases,
}

pub data Part : Type 0 where
  literal : String → Part
  wildcard : String → Part

-- `subtree`: the pattern ends in a slash.
pub record Pattern : Type 0 where
  pub method : String
  pub parts : List Part
  pub subtree : Bool

-- the unescaped segments of a clean path, and whether a slash follows them
pub record UrlPath : Type 0 where
  pub path_segments : List String
  pub final_slash : Bool

-- the wildcards of a pattern with their segments
abbrev pub Values : Type 0
Values = List (String × String)

-- PathValue
unfoldable pub path_value : String → Values → String
path_value name [] = ""
path_value name ((n, v) ∷ vs) = if str_eq n name then v else path_value name vs

-- what a query of the tree finds, with the wildcards before it
unfoldable pub bound_to :
    String → String → Option (Values × List String) → Option (Values × List String)
bound_to n v none = none
bound_to n v (some (vs, rest)) = some ((n, v) ∷ vs, rest)

-- the segments that the parts of a pattern leave
unfoldable pub match_parts : List Part → List String → Option (Values × List String)
unfolding bound_to
match_parts [] ss = some ([], ss)
match_parts (p ∷ ps) [] = none
match_parts (literal l ∷ ps) (s ∷ ss) = elim (str_eq l s) [
  | true ↦ match_parts ps ss
  | false ↦ none
]
match_parts (wildcard n ∷ ps) (s ∷ ss) = bound_to n s (match_parts ps ss)

-- A pattern with a final slash takes every path below it, another one its own path.
unfoldable pub ends : Bool → Bool → Option (Values × List String) → Option Values
ends subtree slash none = none
ends true slash (some (vs, [])) = if slash then some vs else none
ends true slash (some (vs, s ∷ ss)) = some vs
ends false slash (some (vs, [])) = if slash then none else some vs
ends false slash (some (vs, s ∷ ss)) = none

unfoldable pub match_path : Pattern → UrlPath → Option Values
unfolding match_parts ends
match_path p u = ends p.subtree u.final_slash (match_parts p.parts u.path_segments)

-- GET also takes HEAD.
unfoldable pub takes_method : String → String → Bool
takes_method pattern m = str_eq pattern m || (str_eq pattern "GET" && str_eq m "HEAD")

-- mux.Handle
pub record Entry (H : Type 0) : Type 0 where
  pub pattern : Pattern
  pub handler : H

pub data Routed (A : Type 0) : Type 0 where
  reached : A → Routed A
  redirected : Routed A
  not_allowed : Routed A
  missing : Routed A

unfoldable pub with_slash : UrlPath → UrlPath
with_slash u = record u { final_slash = true }

module _ {H : Type 0} where
  unfoldable pub match_entry : Entry H → String → UrlPath → Option Values
  unfolding match_path takes_method
  match_entry e m u = elim (takes_method e.pattern.method m) [
    | true ↦ match_path e.pattern u
    | false ↦ none
  ]

  -- The entry that takes the request; the patterns here never conflict.
  unfoldable pub find_entry : List (Entry H) → String → UrlPath → Option (H × Values)
  unfolding match_entry
  find_entry [] m u = none
  find_entry (e ∷ es) m u = elim (match_entry e m u) [
    | none ↦ find_entry es m u
    | some vs ↦ some (e.handler, vs)
  ]

  unfoldable pub is_path_of : List (Entry H) → UrlPath → Bool
  unfolding match_path
  is_path_of [] u = false
  is_path_of (e ∷ es) u = elim (match_path e.pattern u) [ none ↦ is_path_of es u | some vs ↦ true ]

  -- where no entry takes the request
  unfoldable pub unmatched : List (Entry H) → UrlPath → Option (H × Values) → Routed (H × Values)
  unfolding is_path_of with_slash
  unmatched es u (some found) = redirected
  unmatched es u none =
      if is_path_of es u || is_path_of es (with_slash u) then not_allowed else missing

  -- findHandler
  unfoldable pub route : List (Entry H) → String → UrlPath → Routed (H × Values)
  unfolding find_entry unmatched with_slash
  route es m u = elim (find_entry es m u) [
    | some found ↦ reached found
    | none ↦ unmatched es u (if u.final_slash then none else find_entry es m (with_slash u))
  ]
