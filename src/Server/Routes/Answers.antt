-- ===== src/Server/Routes/Answers.antt =====
-- What the whole program answers below a project, from the mux to the query.
use tracewell.Prelude.{
  String, Bool, true, false, ◌==◌, ==_iff, ◌≡◌, ◌↔◌, refl, sym, subst, arith, Bool-cases, inl, inr,
}
use tracewell.Store.Tables.{Db}
use tracewell.Api.FindProject.{not_found, find_by_identifier}
use tracewell.Api.Handlers.{Outside, Reply, ProjectRoute, serve}
use tracewell.Api.Handlers as Handlers
use tracewell.Api.Handlers.Status.{serve-not_found}
use tracewell.Server.Mux.{takes_method}
use tracewell.Server.Routes.{below, Answer, replied, refused, answer_target, answer}
use tracewell.Server.Routes.Reached.{method_of, path_of, is_served}
use tracewell.Server.Routes.Taken.{is_upload, served_complete, dispatch_wrong_method}

-- The answer has the status 404.
unfoldable pub is_not_found : Answer → Bool
is_not_found (replied r) = r.status == 404
is_not_found (refused n) = n == 404
is_not_found _ = false

-- At the path of a route below a project the program answers 404 exactly if the method is GET or HEAD and FindProject does
-- not find the project; other methods are refused before the project is looked up.
pub answer-not_found :
    (o : Outside) (db : Db) (m identifier : String) (params : Handlers.Values) (r : ProjectRoute)
    → (is_not_found (answer o db m (path_of (below identifier r)) params) ≡ true) ↔ (
        (takes_method "GET" m ≡ true)
        × (find_by_identifier o.queries.parse_time o.zero_time identifier db.projects ≡ not_found))
unfolding answer answer_target is_not_found method_of is_served is_upload
answer-not_found o db m identifier params r = elim (Bool-cases (takes_method "GET" m)) [
  | inl e ↦
      let there = served_complete true m (below identifier r) e refl in
      let (to, from) = serve-not_found o db identifier params r in
      (
        λ h. (
          e,
          to (
              (==_iff _ 404).0
                (subst (λ t. is_not_found (answer_target o db params t) ≡ true) there h)),
        ),
        λ h.
            subst (λ t. is_not_found (answer_target o db params t) ≡ true) (sym there)
              ((==_iff _ 404).1 (from h.1)),
      )
  | inr e ↦
      let refused_ = dispatch_wrong_method m (below identifier r) e in
      (
        λ h. absurd (
            ground
              (arith, subst (λ t. is_not_found (answer_target o db params t) ≡ true) refused_ h)),
        λ h. absurd (ground (arith, h.0, e)),
      )
]
