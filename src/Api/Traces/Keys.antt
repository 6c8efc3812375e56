-- ===== src/Api/Traces/Keys.antt =====
-- The keys of the trace query, where it sorts by start_time, are strictly ordered.
use tracewell.Prelude.{
  ℕ, ℤ, pos, negsuc, Bool, true, false, ◌&&◌, ◌||◌, not, List, ◌≡◌, ◌≢◌, refl, sym, ◌∙◌, subst,
  arith, codes_ltb, codes_eq, inl, inr, Bool-cases,
}
use tracewell.Prelude.TextOrder.{
  codes_ltb_irrefl, codes_ltb_trans, codes_ltb-total, codes_eq_refl, eq_of_codes_eq,
}
use tracewell.Api.Traces.Sql.{text, Reals, Key, int_lt, sql_lt, key_lt, order_lt, is_null, row_lt}

abbrev pub text_key : List ℕ → ℤ → Key
text_key s i = record { sort_value = text s; row_id = i }

int_lt_irrefl : (i : ℤ) → int_lt i i ≡ false
unfolding int_lt
int_lt_irrefl (pos n) = ground arith
int_lt_irrefl (negsuc n) = ground arith

int_lt_trans : (i j k : ℤ) → int_lt i j ≡ true → int_lt j k ≡ true → int_lt i k ≡ true
unfolding int_lt
int_lt_trans (pos i) (pos j) (pos k) h g = ground arith
int_lt_trans (pos i) (pos j) (negsuc k) h g = ground arith
int_lt_trans (pos i) (negsuc j) k h g = ground arith
int_lt_trans (negsuc i) (pos j) (pos k) h g = refl
int_lt_trans (negsuc i) (pos j) (negsuc k) h g = ground arith
int_lt_trans (negsuc i) (negsuc j) (pos k) h g = refl
int_lt_trans (negsuc i) (negsuc j) (negsuc k) h g = ground arith

-- the keyset condition on two texts and two ids, upward
abbrev up_lt : List ℕ → ℤ → List ℕ → ℤ → Bool
up_lt s i t j = codes_ltb s t || (codes_eq t s && int_lt i j)

up_lt_trans :
    (s t u : List ℕ) (i j k : ℤ)
    → up_lt s i t j ≡ true
    → up_lt t j u k ≡ true
    → up_lt s i u k ≡ true
up_lt_trans s t u i j k h g = elim (Bool-cases (codes_ltb s t)) [
  | inl a ↦ elim (Bool-cases (codes_ltb t u)) [
    | inl b ↦ ground (arith, codes_ltb_trans s t u a b)
    | inr b ↦
        let same : u ≡ t = eq_of_codes_eq u t (ground arith) in
        let c : codes_ltb s u ≡ true = rw same a in ground (arith, c)
  ]
  | inr a ↦
      let same : t ≡ s = eq_of_codes_eq t s (ground arith) in
      elim (Bool-cases (codes_ltb t u)) [
        | inl b ↦
            let c : codes_ltb s u ≡ true = subst (λ x. codes_ltb x u ≡ true) same b in
            ground (arith, c)
        | inr b ↦
            let eq : codes_eq u s ≡ true = subst (λ x. codes_eq u x ≡ true) same (ground arith) in
            let ij : int_lt i j ≡ true = ground arith in
            let jk : int_lt j k ≡ true = ground arith in
            ground (arith, eq, int_lt_trans i j k ij jk)
      ]
]

up_lt_irrefl : (s : List ℕ) (i : ℤ) → up_lt s i s i ≡ false
up_lt_irrefl s i = ground (arith, codes_ltb_irrefl s, int_lt_irrefl i)

int_lt-total : (m n : ℕ) → m ≢ n → int_lt (pos m) (pos n) ≡ false → int_lt (pos n) (pos m) ≡ true
unfolding int_lt
int_lt-total m n d h = ground (arith, d)

up_lt-total :
    (s t : List ℕ) (m n : ℕ)
    → m ≢ n
    → up_lt s (pos m) t (pos n) ≡ false
    → up_lt t (pos n) s (pos m) ≡ true
up_lt-total s t m n d h = elim (codes_ltb-total s t) [
  | inl below ↦ absurd (ground arith)
  | inr (inl same) ↦
      let eq : codes_eq t s ≡ true = rw same (codes_eq_refl t) in
      let eq' : codes_eq s t ≡ true = rw same (codes_eq_refl t) in
      ground (arith, eq, eq', int_lt-total m n d)
  | inr (inr above) ↦ ground arith
]

codes_eq_comm : (s t : List ℕ) → codes_eq s t ≡ codes_eq t s
codes_eq_comm s t = elim (Bool-cases (codes_eq s t)) [
  | inl e ↦
      let same : s ≡ t = eq_of_codes_eq s t e in
      let back : codes_eq t s ≡ true = rw same (codes_eq_refl t) in ground (arith, e, back)
  | inr e ↦ elim (Bool-cases (codes_eq t s)) [
    | inl b ↦
        let same : t ≡ s = eq_of_codes_eq t s b in
        let back : codes_eq s t ≡ true = rw same (codes_eq_refl s) in
        absurd (ground (arith, e, back))
    | inr b ↦ ground (arith, e, b)
  ]
]

-- ORDER BY and the keyset condition agree on texts.
up_lt-order :
    (s t : List ℕ) (i j : ℤ)
    → (codes_ltb s t || (not (codes_ltb t s) && int_lt i j)) ≡ up_lt s i t j
up_lt-order s t i j = elim (codes_ltb-total s t) [
  | inl below ↦ ground arith
  | inr (inl same) ↦
      let eq : codes_eq t s ≡ true = rw same (codes_eq_refl t) in
      let no_less : codes_ltb t s ≡ false = rw same (codes_ltb_irrefl t) in
      ground (arith, eq, no_less)
  | inr (inr above) ↦ elim (Bool-cases (codes_eq t s)) [
    | inl e ↦
        let same : t ≡ s = eq_of_codes_eq t s e in
        let no_less : codes_ltb t s ≡ false = rw same (codes_ltb_irrefl s) in
        absurd (ground (arith, above, no_less))
    | inr e ↦ ground (arith, above, e)
  ]
]

module _ (lt : Reals) where
  key_lt-up :
      (s t : List ℕ) (i j : ℤ) → key_lt lt true (text_key s i) (text_key t j) ≡ up_lt s i t j
  unfolding key_lt
  key_lt-up s t i j = refl

  key_lt-down :
      (s t : List ℕ) (i j : ℤ) → key_lt lt false (text_key s i) (text_key t j) ≡ up_lt t j s i
  unfolding key_lt
  key_lt-down s t i j = rw (codes_eq_comm t s) refl

  pub key_lt_irrefl :
      (asc : Bool) (s : List ℕ) (i : ℤ) → key_lt lt asc (text_key s i) (text_key s i) ≡ false
  key_lt_irrefl true s i = key_lt-up s s i i ∙ up_lt_irrefl s i
  key_lt_irrefl false s i = key_lt-down s s i i ∙ up_lt_irrefl s i

  pub key_lt_trans :
      (asc : Bool) (s t u : List ℕ) (i j k : ℤ)
      → key_lt lt asc (text_key s i) (text_key t j) ≡ true
      → key_lt lt asc (text_key t j) (text_key u k) ≡ true
      → key_lt lt asc (text_key s i) (text_key u k) ≡ true
  key_lt_trans true s t u i j k h g =
      key_lt-up s u i k
      ∙ up_lt_trans s t u i j k (sym (key_lt-up s t i j) ∙ h) (sym (key_lt-up t u j k) ∙ g)
  key_lt_trans false s t u i j k h g =
      key_lt-down s u i k
      ∙ up_lt_trans u t s k j i (sym (key_lt-down t u j k) ∙ g) (sym (key_lt-down s t i j) ∙ h)

  pub key_lt-total :
      (asc : Bool) (s t : List ℕ) (m n : ℕ)
      → m ≢ n
      → key_lt lt asc (text_key s (pos m)) (text_key t (pos n)) ≡ false
      → key_lt lt asc (text_key t (pos n)) (text_key s (pos m)) ≡ true
  key_lt-total true s t m n d h =
      key_lt-up t s (pos n) (pos m)
      ∙ up_lt-total s t m n d (sym (key_lt-up s t (pos m) (pos n)) ∙ h)
  key_lt-total false s t m n d h =
      key_lt-down t s (pos n) (pos m)
      ∙ up_lt-total t s n m (λ e. d (sym e)) (sym (key_lt-down s t (pos m) (pos n)) ∙ h)

  pub row_lt-eq-key_lt :
      (asc : Bool) (s t : List ℕ) (i j : ℤ)
      → row_lt lt asc (text_key s i) (text_key t j) ≡ key_lt lt asc (text_key s i) (text_key t j)
  unfolding row_lt order_lt is_null sql_lt
  row_lt-eq-key_lt true s t i j = up_lt-order s t i j ∙ sym (key_lt-up s t i j)
  row_lt-eq-key_lt false s t i j = up_lt-order t s j i ∙ sym (key_lt-down s t i j)
