-- ===== src/Server/Mux/Matched.antt =====
-- What a match of internal/server's routes tells of the request.
use tracewell.Prelude.{
  String, true, false, List, [], ◌∷◌, Option, none, some, str_eq, ◌≡◌, refl, sym, ap, ◌∙◌, subst,
  arith, In, inl, inr, Bool-cases, eq_iff, Option-cases,
}
use tracewell.Server.Mux.{
  Part, literal, wildcard, Pattern, UrlPath, Values, bound_to, match_parts, ends, match_path,
  takes_method, Entry, match_entry, find_entry,
}

-- What a match tells of the segments.
abbrev pub Matches : List Part → List String → Values → List String → Type 0
Matches [] ss vs rest = (vs ≡ []) × (ss ≡ rest)
Matches (literal l ∷ ps) ss vs rest = (ss' : List String) × (ss ≡ l ∷ ss') × Matches ps ss' vs rest
Matches (wildcard n ∷ ps) ss vs rest =
    (v : String) × (ss' : List String) × (vs' : Values) × (ss ≡ v ∷ ss')
    × (vs ≡ (n, v) ∷ vs')
    × Matches ps ss' vs' rest

pub match_parts-Matches :
    (ps : List Part) (ss : List String) (vs : Values) (rest : List String)
    → match_parts ps ss ≡ some (vs, rest)
    → Matches ps ss vs rest
unfolding match_parts bound_to
match_parts-Matches [] ss vs rest h = (ground (arith, h), ground (arith, h))
match_parts-Matches (literal l ∷ ps) [] vs rest h = absurd (ground (arith, h))
match_parts-Matches (wildcard n ∷ ps) [] vs rest h = absurd (ground (arith, h))
match_parts-Matches (literal l ∷ ps) (s ∷ ss) vs rest h = elim (Bool-cases (str_eq l s)) [
  | inl e ↦ (
    ss,
    ap (λ x. x ∷ ss) (sym ((eq_iff l s).0 e)),
    match_parts-Matches ps ss vs rest (ground (arith, h, e)),
  )
  | inr e ↦ absurd (ground (arith, h, e))
]
match_parts-Matches (wildcard n ∷ ps) (s ∷ ss) vs rest h =
    go (match_parts ps ss) (λ vs' e. match_parts-Matches ps ss vs' rest e) refl h
  where
    go :
        (r : Option (Values × List String))
        → ((vs' : Values) → match_parts ps ss ≡ some (vs', rest) → Matches ps ss vs' rest)
        → match_parts ps ss ≡ r
        → bound_to n s r ≡ some (vs, rest)
        → Matches (wildcard n ∷ ps) (s ∷ ss) vs rest
    go none k e q = absurd (ground (arith, q))
    go (some (vs', rest')) k e q =
        let same : rest' ≡ rest = ground (arith, q) in
        let all : vs ≡ (n, s) ∷ vs' = ground (arith, q) in
        (s, ss, vs', refl, all, k vs' (subst (λ x. match_parts ps ss ≡ some (vs', x)) same e))

-- A pattern without a final slash takes its own paths.
pub match_path_exact :
    (p : Pattern) (u : UrlPath) (vs : Values)
    → p.subtree ≡ false
    → match_path p u ≡ some vs
    → Matches p.parts u.path_segments vs [] × (u.final_slash ≡ false)
unfolding match_path ends
match_path_exact p u vs z h =
    go (match_parts p.parts u.path_segments) refl
      (subst (λ b. ends b u.final_slash (match_parts p.parts u.path_segments) ≡ some vs) z h)
  where
    go :
        (r : Option (Values × List String))
        → match_parts p.parts u.path_segments ≡ r
        → ends false u.final_slash r ≡ some vs
        → Matches p.parts u.path_segments vs [] × (u.final_slash ≡ false)
    go none e q = absurd (ground (arith, q))
    go (some (vs', [])) e q =
        let same : vs' ≡ vs = ground (arith, q) in
        (
          match_parts-Matches p.parts u.path_segments vs []
              (subst (λ x. match_parts p.parts u.path_segments ≡ some (x, [])) same e),
          ground (arith, q),
        )
    go (some (vs', s ∷ ss)) e q = absurd (ground (arith, q))

-- What is found is an entry of the table that takes the method and the path.
pub find_entry_sound :
    {H : Type 0} (es : List (Entry H)) (m : String) (u : UrlPath) (h : H) (vs : Values)
    → find_entry es m u ≡ some (h, vs)
    → (e : Entry H) × In e es
      × (e.handler ≡ h)
      × (takes_method e.pattern.method m ≡ true)
      × (match_path e.pattern u ≡ some vs)
unfolding find_entry match_entry
find_entry_sound [] m u h vs q = absurd (ground (arith, q))
find_entry_sound (e ∷ es) m u h vs q = elim (Bool-cases (takes_method e.pattern.method m)) [
  | inl t ↦ elim (Option-cases (match_path e.pattern u)) [
    | inl f ↦
        let skip : find_entry (e ∷ es) m u ≡ find_entry es m u =
          rw (t, f, find_entry, match_entry) refl in
        let (x, i, same, takes, match) = find_entry_sound es m u h vs (sym skip ∙ q) in
        (x, inr i, same, takes, match)
    | inr (vs', f) ↦
        let here : find_entry (e ∷ es) m u ≡ some (e.handler, vs') =
          rw (t, f, find_entry, match_entry) refl in
        let both : some (e.handler, vs') ≡ some (h, vs) = sym here ∙ q in
        (e, inl refl, ground (arith, both), t, f ∙ ap some (ground (arith, both)))
  ]
  | inr t ↦
      let skip : find_entry (e ∷ es) m u ≡ find_entry es m u =
        rw (t, find_entry, match_entry) refl in
      let (x, i, same, takes, match) = find_entry_sound es m u h vs (sym skip ∙ q) in
      (x, inr i, same, takes, match)
]
