-- ===== src/Collector/Decode/Flattened.antt =====
-- What DecodeSpans of internal/collector/decode.go returns for nested resources and scopes.
use tracewell.Prelude.{
  String, List, [], ◌∷◌, ◌++◌, map, Option, append_assoc, map-append, append-nil, ◌≡◌, sym, ap, ◌∙◌,
}
use tracewell.Value.{Value}
use tracewell.Semconv.Extract.{Outside}
use tracewell.Collector.Batcher.{SpanWithProject}
use tracewell.Collector.Decode.{project_name}
use tracewell.Collector.Decode.Spans.{
  ProtoSpan, ResourceSpans, tagged, append_scopes, append_resources, decode_spans,
}

concat : {A : Type 0} → List (List A) → List A
concat [] = []
concat (xs ∷ xss) = xs ++ concat xss

module _ (o : Outside) (unmarshal : String → Option Value) where
  -- an independent description: resource by resource, all spans of its scopes under its own project
  pub flattened : List ResourceSpans → List SpanWithProject
  unfolding concat
  flattened [] = []
  flattened (r ∷ rs) =
      map (tagged o unmarshal (project_name r.attributes)) (concat r.scope_spans) ++ flattened rs

  append_scopes-concat :
      (project : String) (scopes : List (List ProtoSpan)) (out : List SpanWithProject)
      → append_scopes o unmarshal project scopes out
        ≡ out ++ map (tagged o unmarshal project) (concat scopes)
  unfolding append_scopes concat
  append_scopes-concat project [] out = sym (append-nil out)
  append_scopes-concat project (spans ∷ scopes) out =
      append_scopes-concat project scopes (out ++ map (tagged o unmarshal project) spans)
      ∙ append_assoc out (map (tagged o unmarshal project) spans)
          (map (tagged o unmarshal project) (concat scopes))
      ∙ ap (λ l. out ++ l) (sym (map-append (tagged o unmarshal project) spans (concat scopes)))

  append_resources-flattened :
      (rs : List ResourceSpans) (out : List SpanWithProject)
      → append_resources o unmarshal rs out ≡ out ++ flattened rs
  unfolding append_resources flattened
  append_resources-flattened [] out = sym (append-nil out)
  append_resources-flattened (r ∷ rs) out =
      append_resources-flattened rs
        (append_scopes o unmarshal (project_name r.attributes) r.scope_spans out)
      ∙ ap (λ l. l ++ flattened rs)
          (append_scopes-concat (project_name r.attributes) r.scope_spans out)
      ∙ append_assoc out
          (map (tagged o unmarshal (project_name r.attributes)) (concat r.scope_spans))
          (flattened rs)

  -- DecodeSpans returns every span of the request once, in the order of the request, each decoded for itself
  -- and with the project of its own resource.
  pub decode_spans-flattened :
      (rs : List ResourceSpans) → decode_spans o unmarshal rs ≡ flattened rs
  unfolding decode_spans
  decode_spans-flattened rs = append_resources-flattened rs []
