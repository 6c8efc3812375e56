-- ===== src/Trace/Kinds.antt =====
-- SpanKindFromAttribute of internal/trace/span.go reads the names of the kinds in any case.
use tracewell.Prelude.{
  String, true, [], some, ◌≡◌, refl, sym, ap, ◌∙◌, str_eq, codes, Bool-cases, inl, inr, eq_iff,
}
use tracewell.Value.{str}
use tracewell.Trace.{
  SpanKind, tool, chain, llm, prompt, retriever, embedding, agent, reranker, evaluator, guardrail,
  unknown, kind_text, known_kinds, match_kind, to_upper_ascii, span_kind_from_attribute,
}

match_kind-kind_text : (k : SpanKind) → match_kind (codes (kind_text k)) known_kinds ≡ k
unfolding match_kind
match_kind-kind_text tool = refl
match_kind-kind_text chain = refl
match_kind-kind_text llm = refl
match_kind-kind_text prompt = refl
match_kind-kind_text retriever = refl
match_kind-kind_text embedding = refl
match_kind-kind_text agent = refl
match_kind-kind_text reranker = refl
match_kind-kind_text evaluator = refl
match_kind-kind_text guardrail = refl
match_kind-kind_text unknown = refl

match_kind-empty : match_kind [] known_kinds ≡ unknown
unfolding match_kind
match_kind-empty = refl

to_upper_ascii-empty : (s : String) → str_eq s "" ≡ true → to_upper_ascii (codes s) ≡ []
unfolding to_upper_ascii
to_upper_ascii-empty s e = let same : s ≡ "" = (eq_iff s "").0 e in rw same refl

-- Every text whose ASCII upper case is the name of a kind is read as that kind.
pub span_kind_from_attribute-kind_text :
    (s : String) (k : SpanKind)
    → to_upper_ascii (codes s) ≡ codes (kind_text k)
    → span_kind_from_attribute (some (str s)) ≡ k
unfolding span_kind_from_attribute
span_kind_from_attribute-kind_text s k h = elim (Bool-cases (str_eq s "")) [
  | inl e ↦
      let none_left : codes (kind_text k) ≡ [] = sym h ∙ to_upper_ascii-empty s e in
      rw e (
        sym match_kind-empty
        ∙ ap (λ c. match_kind c known_kinds) (sym none_left)
        ∙ match_kind-kind_text k)
  | inr e ↦ rw (e, h) (match_kind-kind_text k)
]
