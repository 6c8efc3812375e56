-- ===== src/Command/Invariant.antt =====
-- What each phase of run in cmd/tracewell/main.go tells of the spans of its requests, and one lemma for each turn.
use mathlib.Core.List.{Perm, perm_middle, perm_append_comm}
use mathlib.Core.List.Perm
use tracewell.Prelude.{
  Bool, true, false, List, [], ◌∷◌, ◌++◌, none, some, ◌≡◌, ◌≢◌, refl, sym, ◌∙◌, subst, arith,
  append_assoc, append-nil,
}
use tracewell.Collector.Batcher.{SpanWithProject, Batcher, accepted, panicked, send}
use tracewell.Command.{Phase, serving, shutting_down, closing, returned, is_returned}

unfoldable pub concat : List (List SpanWithProject) → List SpanWithProject
concat [] = []
concat (xs ∷ xss) = xs ++ concat xss

concat-append :
    (xss yss : List (List SpanWithProject)) → concat (xss ++ yss) ≡ concat xss ++ concat yss
unfolding concat
concat-append [] yss = refl
concat-append (xs ∷ xss) yss =
    rw (concat-append xss yss) (sym (append_assoc xs (concat xss) (concat yss)))

-- What a phase tells of the batcher, the connections and the handlers.
abbrev pub Holds :
    Phase
    → Bool
    → Bool
    → Bool
    → List (List SpanWithProject)
    → List SpanWithProject
    → List SpanWithProject
    → Type 0
Holds serving closed done connected handlers taken sent =
    (closed ≡ false) × Perm taken (sent ++ concat handlers)
Holds shutting_down closed done connected handlers taken sent =
    (closed ≡ false) × Perm taken (sent ++ concat handlers)
Holds (closing none) closed done connected handlers taken sent =
    (closed ≡ true) × (handlers ≡ []) × (connected ≡ false) × Perm taken sent
Holds (closing (some e)) closed done connected handlers taken sent = closed ≡ true
Holds (returned none) closed done connected handlers taken sent =
    (closed ≡ true) × (done ≡ true) × (handlers ≡ []) × Perm taken sent
Holds (returned (some e)) closed done connected handlers taken sent =
    (closed ≡ true) × (done ≡ true)

pub no_handler :
    {A : Type 0} (before after : List A) (x : A) (l : List A) → l ≡ [] → l ≢ before ++ x ∷ after
no_handler [] after x l e h = absurd (ground (arith, e, h))
no_handler (y ∷ before) after x l e h = absurd (ground (arith, e, h))

taken_more :
    (taken sent spans : List SpanWithProject) (handlers : List (List SpanWithProject))
    → Perm taken (sent ++ concat handlers)
    → Perm (taken ++ spans) ((sent ++ []) ++ concat (spans ∷ handlers))
unfolding concat
taken_more taken sent spans handlers h =
    let later : Perm (taken ++ spans) ((sent ++ concat handlers) ++ spans) =
      Perm.append_right spans h in
    let swapped : Perm (sent ++ (concat handlers ++ spans)) (sent ++ (spans ++ concat handlers)) =
      Perm.append_left sent (perm_append_comm (concat handlers) spans) in
    rw (append-nil sent) (Perm.trans later (rw (append_assoc sent (concat handlers) spans) swapped))

handed_over :
    (taken sent : List SpanWithProject) (before after : List (List SpanWithProject))
    (q : SpanWithProject) (qs : List SpanWithProject)
    → Perm taken (sent ++ concat (before ++ (q ∷ qs) ∷ after))
    → Perm (taken ++ []) ((sent ++ q ∷ []) ++ concat (before ++ qs ∷ after))
unfolding concat
handed_over taken sent before after q qs h =
    let to_front : Perm (concat before ++ (q ∷ (qs ++ concat after)))
        (q ∷ (concat before ++ (qs ++ concat after))) =
      perm_middle (concat before) (qs ++ concat after) in
    let source : concat (before ++ (q ∷ qs) ∷ after) ≡ concat before ++ (q ∷ (qs ++ concat after)) =
      concat-append before ((q ∷ qs) ∷ after) in
    let target : concat (before ++ qs ∷ after) ≡ concat before ++ (qs ++ concat after) =
      concat-append before (qs ∷ after) in
    let whole : Perm taken (sent ++ (q ∷ (concat before ++ (qs ++ concat after)))) =
      Perm.trans (subst (λ l. Perm taken (sent ++ l)) source h) (Perm.append_left sent to_front) in
    rw (append-nil taken, append_assoc sent (q ∷ []) (concat (before ++ qs ∷ after)), target) whole

ended :
    (taken sent : List SpanWithProject) (before after : List (List SpanWithProject))
    → Perm taken (sent ++ concat (before ++ [] ∷ after))
    → Perm (taken ++ []) ((sent ++ []) ++ concat (before ++ after))
unfolding concat
ended taken sent before after h =
    let same : concat (before ++ [] ∷ after) ≡ concat (before ++ after) =
      concat-append before ([] ∷ after) ∙ sym (concat-append before after) in
    rw (append-nil taken, append-nil sent) (subst (λ l. Perm taken (sent ++ l)) same h)

pub send-closed : (q : SpanWithProject) (b : Batcher) → b.closed ≡ true → send q b ≡ panicked
unfolding send
send-closed q b c = rw c refl

pub send-open : (q : SpanWithProject) (b : Batcher) → b.closed ≡ false → send q b ≢ panicked
unfolding send
send-open q b c h = ground (arith, c, h)

pub send-accepted :
    (q : SpanWithProject) (b b' : Batcher)
    → send q b ≡ accepted b'
    → (b.closed ≡ false) × (b'.closed ≡ false) × (b'.done ≡ b.done)
unfolding send
send-accepted q b b' h = (ground (arith, h), ground (arith, h), ground (arith, h))

module _ (taken sent : List SpanWithProject) (closed done connected : Bool) where
  pub requests-Holds :
      (ph : Phase) (spans : List SpanWithProject) (handlers : List (List SpanWithProject))
      → is_returned ph ≡ false
      → connected ≡ true
      → Holds ph closed done connected handlers taken sent
      → Holds ph closed done connected (spans ∷ handlers) (taken ++ spans) (sent ++ [])
  unfolding is_returned
  requests-Holds serving spans handlers r c h = (h.0, taken_more taken sent spans handlers h.1)
  requests-Holds shutting_down spans handlers r c h =
      (h.0, taken_more taken sent spans handlers h.1)
  requests-Holds (closing none) spans handlers r c h = absurd (ground (arith, c, h))
  requests-Holds (closing (some e)) spans handlers r c h = h
  requests-Holds (returned x) spans handlers r c h = absurd (ground (arith, r))

  pub hands_over-Holds :
      (ph : Phase) (before after : List (List SpanWithProject)) (q : SpanWithProject)
      (qs : List SpanWithProject)
      → is_returned ph ≡ false
      → closed ≡ false
      → (handlers : List (List SpanWithProject)) → handlers ≡ before ++ (q ∷ qs) ∷ after
      → Holds ph closed done connected handlers taken sent
      → Holds ph false done connected (before ++ qs ∷ after) (taken ++ []) (sent ++ q ∷ [])
  unfolding is_returned
  hands_over-Holds serving before after q qs r c handlers e h = (
    refl,
    handed_over taken sent before after q qs (subst (λ l. Perm taken (sent ++ concat l)) e h.1),
  )
  hands_over-Holds shutting_down before after q qs r c handlers e h = (
    refl,
    handed_over taken sent before after q qs (subst (λ l. Perm taken (sent ++ concat l)) e h.1),
  )
  hands_over-Holds (closing none) before after q qs r c handlers e h =
      absurd (no_handler before after (q ∷ qs) handlers h.1 e)
  hands_over-Holds (closing (some x)) before after q qs r c handlers e h =
      absurd (ground (arith, c, h))
  hands_over-Holds (returned x) before after q qs r c handlers e h = absurd (ground (arith, r))

  pub answers-Holds :
      (ph : Phase) (before after : List (List SpanWithProject))
      → is_returned ph ≡ false
      → (handlers : List (List SpanWithProject)) → handlers ≡ before ++ [] ∷ after
      → Holds ph closed done connected handlers taken sent
      → Holds ph closed done connected (before ++ after) (taken ++ []) (sent ++ [])
  unfolding is_returned
  answers-Holds serving before after r handlers e h =
      (h.0, ended taken sent before after (subst (λ l. Perm taken (sent ++ concat l)) e h.1))
  answers-Holds shutting_down before after r handlers e h =
      (h.0, ended taken sent before after (subst (λ l. Perm taken (sent ++ concat l)) e h.1))
  answers-Holds (closing none) before after r handlers e h =
      absurd (no_handler before after [] handlers h.1 e)
  answers-Holds (closing (some x)) before after r handlers e h = h
  answers-Holds (returned x) before after r handlers e h = absurd (ground (arith, r))

  pub panics-Holds :
      (ph : Phase) (before after : List (List SpanWithProject)) (q : SpanWithProject)
      (qs : List SpanWithProject)
      → is_returned ph ≡ false
      → closed ≢ false
      → (handlers : List (List SpanWithProject)) → handlers ≡ before ++ (q ∷ qs) ∷ after
      → Holds ph closed done connected handlers taken sent
      → Holds ph closed done connected (before ++ after) (taken ++ []) (sent ++ [])
  unfolding is_returned
  panics-Holds serving before after q qs r c handlers e h = absurd (c h.0)
  panics-Holds shutting_down before after q qs r c handlers e h = absurd (c h.0)
  panics-Holds (closing none) before after q qs r c handlers e h =
      absurd (no_handler before after (q ∷ qs) handlers h.1 e)
  panics-Holds (closing (some x)) before after q qs r c handlers e h = h
  panics-Holds (returned x) before after q qs r c handlers e h = absurd (ground (arith, r))

  pub writes-Holds :
      (ph : Phase) (handlers : List (List SpanWithProject)) (done' : Bool)
      → is_returned ph ≡ false
      → Holds ph closed done connected handlers taken sent
      → Holds ph closed done' connected handlers (taken ++ []) (sent ++ [])
  unfolding is_returned
  writes-Holds serving handlers d r h = rw (append-nil taken, append-nil sent) h
  writes-Holds shutting_down handlers d r h = rw (append-nil taken, append-nil sent) h
  writes-Holds (closing none) handlers d r h = rw (append-nil taken, append-nil sent) h
  writes-Holds (closing (some e)) handlers d r h = h
  writes-Holds (returned x) handlers d r h = absurd (ground (arith, r))
