-- ===== src/Collector/Ingest.antt =====
-- The handler of internal/collector/handler.go with AddAll of internal/collector/batcher.go as its callback, as
-- cmd/tracewell/main.go connects them.
mod Examples
use tracewell.Prelude.{
  ℕ, suc, ◌+◌, ◌<◌, ◌≤◌, String, true, false, List, [], ◌∷◌, ◌++◌, Option, none, some, ◌≡◌, refl,
  sym, ap, ◌∙◌, subst, ltb, length, length-append, append_assoc, append-nil, arith, All,
}
use tracewell.Store.Session.{Session}
use tracewell.Store.Correct.{FreshRowids, Fits}
use tracewell.Store.Sound.{IsSound}
use tracewell.Store.Columns.{Outside}
use tracewell.Collector.Batcher.{
  SpanWithProject, Batcher, buffer_capacity, Sent, accepted, blocked, panicked, send, close, flush,
  Runs, start, then_, sends,
}
use tracewell.Collector.Batcher.Drain.{finished, close_drains}
use tracewell.Collector.Handler as Handler
use tracewell.Collector.Handler.{Request, Response, Handled, handle}
use tracewell.Collector.Handler.Outcomes.{Uploads, handle-Uploads}

-- AddAll, while no other goroutine takes a turn
unfoldable pub add_all : List SpanWithProject → Batcher → Sent
add_all [] b = accepted b
add_all (p ∷ ps) b = elim (send p b) [
  | accepted b' ↦ add_all ps b'
  | blocked ↦ blocked
  | panicked ↦ panicked
]

unfoldable pub sink : Option (List SpanWithProject) → Batcher → Sent
unfolding add_all
sink none b = accepted b
sink (some spans) b = add_all spans b

-- one request to POST /v1/traces
unfoldable pub ingest : Handler.Outside → Request → Batcher → Response × Sent
unfolding sink
ingest wire r b = ((handle wire true r).response, sink (handle wire true r).sunk b)

abbrev queued : List SpanWithProject → Batcher → Batcher
queued spans b = record b { queue = b.queue ++ spans }

send-room :
    (p : SpanWithProject) (b : Batcher)
    → b.closed ≡ false
    → length b.queue < buffer_capacity
    → send p b ≡ accepted (queued (p ∷ []) b)
unfolding send
send-room p b c room =
    let fits : ltb (length b.queue) buffer_capacity ≡ true = ground arith in rw (c, fits) refl

add_all-room :
    (spans : List SpanWithProject) (b : Batcher)
    → b.closed ≡ false
    → length b.queue + length spans ≤ buffer_capacity
    → add_all spans b ≡ accepted (queued spans b)
unfolding add_all
add_all-room [] b c room = rw append-nil refl
add_all-room (p ∷ ps) b c room =
    let here : send p b ≡ accepted (queued (p ∷ []) b) = send-room p b c (omega arith) in
    let rest : add_all ps (queued (p ∷ []) b) ≡ accepted (queued ps (queued (p ∷ []) b)) =
      add_all-room ps (queued (p ∷ []) b) c (omega (arith, length-append b.queue (p ∷ []))) in
    rw (add_all, here)
      (rest ∙ ap (λ q. accepted (record b { queue = q })) (append_assoc b.queue (p ∷ []) ps))

module _ (o : Outside) (steps : ℕ) (now : String) where
  sends_all :
      (spans sent : List SpanWithProject) (b₀ b : Batcher)
      → Runs o steps now b₀ b sent
      → b.closed ≡ false
      → length b.queue + length spans ≤ buffer_capacity
      → Runs o steps now b₀ (queued spans b) (sent ++ spans)
  sends_all [] sent b₀ b r c room = rw (append-nil, append-nil) r
  sends_all (p ∷ ps) sent b₀ b r c room =
      let first : Runs o steps now b₀ (queued (p ∷ []) b) (sent ++ p ∷ []) =
        then_ {b'' = queued (p ∷ []) b} r (sends p (send-room p b c (omega arith))) refl in
      let rest : Runs o steps now b₀ (queued ps (queued (p ∷ []) b)) ((sent ++ p ∷ []) ++ ps) =
        sends_all ps (sent ++ p ∷ []) b₀ (queued (p ∷ []) b) first c
          (omega (arith, length-append b.queue (p ∷ []))) in
      subst (λ q. Runs o steps now b₀ (record b { queue = q }) (sent ++ p ∷ ps))
        (append_assoc b.queue (p ∷ []) ps)
        (subst (Runs o steps now b₀ (queued ps (queued (p ∷ []) b))) (append_assoc sent (p ∷ []) ps)
          rest)

-- The spans of an upload are stored: with an open channel and room for them in the buffer, the handler hands them
-- all over in order; if Close runs then, the writer's turns hand what it held and then these spans to InsertSpan,
-- in order, and exit, and the tables are still sound. It is stated for rowids that are new, a sound
-- table, and spans whose ranks are above their parents', with more steps than the parents' ranks.
pub ingest-stored :
    (o : Outside) (steps : ℕ) (now : String) (rank : String → ℕ) (wire : Handler.Outside)
    (r : Request) (spans : List SpanWithProject) (b : Batcher)
    → Uploads wire r spans
    → b.closed ≡ false
    → b.done ≡ false
    → length b.queue + length spans ≤ buffer_capacity
    → FreshRowids o
    → All (λ p. Fits rank steps p.span) (b.batch ++ (b.queue ++ spans))
    → IsSound rank b.store.db.spans
    → (b' : Batcher) × (s : Session) × ((ingest wire r b).1 ≡ accepted b')
      × Runs o steps now b b' spans
      × (flush o steps now (b.batch ++ (b.queue ++ spans)) b.store ≡ some s)
      × Runs o steps now (close b') (finished (close b') s) []
      × IsSound rank s.db.spans
unfolding ingest sink close
ingest-stored o steps now rank wire r spans b upload open_ running room fresh fits sound =
    let b' = queued spans b in
    let (s, stored, exits, sound') =
      close_drains o steps now rank (close b') fresh refl running fits sound in
    (
      b',
      s,
      ap (λ u. sink u b) (handle-Uploads wire r spans upload) ∙ add_all-room spans b open_ room,
      sends_all o steps now spans [] b b start open_ room,
      stored,
      exits,
      sound',
    )
