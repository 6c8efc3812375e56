-- ===== src/Collector/Handler/Outcomes.antt =====
-- Which requests the handler of internal/collector/handler.go takes, and how it answers the others.
use tracewell.Prelude.{
  ℕ, true, List, Option, none, some, str_eq, eq_iff, ◌≡◌, refl, ap, arith, ◌⊎◌, inl, inr, ◌↔◌,
  Bool-cases, Option-cases,
}
use tracewell.Collector.Batcher.{SpanWithProject}
use tracewell.Collector.Decode.Spans.{ResourceSpans, decode_spans}
use tracewell.Collector.Handler.{
  Request, Body, refused, bytes_read, Outside, Handled, content_type_proto_buf, http_error,
  rejected, decode_body, respond, accept, handle_body, handle,
}

-- An upload that decodes to these spans.
pub record Uploads (o : Outside) (r : Request) (spans : List SpanWithProject) : Type 0 where
  pub body : List ℕ
  pub resources : List ResourceSpans
  pub posted : r.method ≡ "POST"
  pub typed : r.content_type ≡ content_type_proto_buf
  pub readable : decode_body o r ≡ bytes_read body
  pub unmarshalled : o.unmarshal_request body ≡ some resources
  pub decodes : decode_spans o.semconv o.unmarshal_json resources ≡ spans

module _ (o : Outside) where
  -- what the handler does with a body
  Takes : Handled → Type 0
  Takes h =
      ((s : List SpanWithProject) × (h.sunk ≡ some s)
        × ((h.response.status ≡ 200) ⊎ (h.response.status ≡ 500)))

  Refuses : Handled → Type 0
  Refuses h =
      (h.sunk ≡ none)
      × ((h.response.status ≡ 405) ⊎ (h.response.status ≡ 415) ⊎ (h.response.status ≡ 422))

  accept-status :
      (u : Option (List ResourceSpans)) → Takes (accept o true u) ⊎ Refuses (accept o true u)
  unfolding accept respond rejected http_error Takes Refuses
  accept-status none = inr (refl, inr (inr refl))
  accept-status (some resources) = elim (Option-cases o.marshal_response) [
    | inl e ↦
        inl (decode_spans o.semconv o.unmarshal_json resources, refl, inr (rw (e, respond) refl))
    | inr (b, e) ↦
        inl (decode_spans o.semconv o.unmarshal_json resources, refl, inl (rw (e, respond) refl))
  ]

  handle_body-status : (b : Body) → Takes (handle_body o true b) ⊎ Refuses (handle_body o true b)
  unfolding handle_body rejected http_error Refuses
  handle_body-status (refused error) = inr (refl, inr (inl refl))
  handle_body-status (bytes_read bytes) = accept-status (o.unmarshal_request bytes)

-- A handler with a callback either passes the spans to it and answers 200 or 500, or does not call it and answers
-- 405, 415 or 422: a client that is told of a bad request has stored nothing.
pub handle-status :
    (o : Outside) (r : Request)
    → ((s : List SpanWithProject) × ((handle o true r).sunk ≡ some s)
        × (((handle o true r).response.status ≡ 200) ⊎ ((handle o true r).response.status ≡ 500)))
      ⊎ (((handle o true r).sunk ≡ none)
          × (((handle o true r).response.status ≡ 405)
              ⊎ ((handle o true r).response.status ≡ 415)
              ⊎ ((handle o true r).response.status ≡ 422)))
unfolding handle rejected http_error Takes Refuses
handle-status o r = elim (Bool-cases (str_eq r.method "POST")) [
  | inl m ↦ elim (Bool-cases (str_eq r.content_type content_type_proto_buf)) [
    | inl t ↦ rw (m, t) (handle_body-status o (decode_body o r))
    | inr t ↦ rw (m, t) (inr (refl, inr (inl refl)))
  ]
  | inr m ↦ rw m (inr (refl, inl refl))
]

uploaded :
    (o : Outside) (r : Request) (spans : List SpanWithProject)
    → r.method ≡ "POST"
    → r.content_type ≡ content_type_proto_buf
    → (b : Body) → decode_body o r ≡ b
    → (handle_body o true b).sunk ≡ some spans
    → Uploads o r spans
unfolding handle_body accept rejected
uploaded o r spans m t (refused error) e h = absurd (ground (arith, h))
uploaded o r spans m t (bytes_read body) e h = elim (Option-cases (o.unmarshal_request body)) [
  | inl u ↦ absurd (ground (arith, u, h))
  | inr (resources, u) ↦ record {
    body = body;
    resources = resources;
    posted = m;
    typed = t;
    readable = e;
    unmarshalled = u;
    decodes = ground (arith, u, h);
  }
]

pub handle-Uploads :
    (o : Outside) (r : Request) (spans : List SpanWithProject)
    → Uploads o r spans
    → (handle o true r).sunk ≡ some spans
unfolding handle handle_body accept
handle-Uploads o r spans u =
    let post : str_eq r.method "POST" ≡ true = (eq_iff r.method "POST").1 u.posted in
    let typed : str_eq r.content_type content_type_proto_buf ≡ true =
      (eq_iff r.content_type content_type_proto_buf).1 u.typed in
    rw (post, typed, u.readable, handle_body, u.unmarshalled, accept) (ap some u.decodes)

-- The callback gets some spans exactly if the request is a POST of OTLP protobuf whose body can be read within the
-- limit and unmarshals to a request that DecodeSpans turns into those spans.
pub handle_iff :
    (o : Outside) (r : Request) (spans : List SpanWithProject)
    → ((handle o true r).sunk ≡ some spans) ↔ Uploads o r spans
unfolding handle rejected
handle_iff o r spans = (sinks, handle-Uploads o r spans)
  where
    sinks : (handle o true r).sunk ≡ some spans → Uploads o r spans
    sinks h = elim (Bool-cases (str_eq r.method "POST")) [
      | inl m ↦ elim (Bool-cases (str_eq r.content_type content_type_proto_buf)) [
        | inl t ↦
            uploaded o r spans ((eq_iff r.method "POST").0 m)
              ((eq_iff r.content_type content_type_proto_buf).0 t) (decode_body o r) refl
              (ground (arith, m, t, h))
        | inr t ↦ absurd (ground (arith, m, t, h))
      ]
      | inr m ↦ absurd (ground (arith, m, h))
    ]
