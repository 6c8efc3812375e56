-- ===== src/Api/Traces/Order.antt =====
-- In a list that is sorted by a strict order, the rows past a row are the rows after it.
use tracewell.Prelude.{
  ℕ, Bool, true, false, ◌&&◌, List, [], ◌∷◌, ◌++◌, ◌≡◌, ◌≢◌, refl, sym, subst, arith, if◌then◌else◌,
  Bool-cases, inl, inr, In, All, In-All, All-In,
}
use tracewell.Api.Page.{IsDistinct}
use tracewell.Api.Traces.Sql.{keep, insert_by, order_by}

module _ {A : Type 0} where
  pub In-keep : (p : A → Bool) (x : A) (xs : List A) → In x (keep p xs) → In x xs
  unfolding keep
  In-keep p x [] i = i
  In-keep p x (y ∷ xs) i = In-if (p y) (λ j. In-keep p x xs j) i
    where
      In-if :
          (b : Bool)
          → (In x (keep p xs) → In x xs)
          → In x (if b then y ∷ keep p xs else keep p xs)
          → In x (y ∷ xs)
      In-if true k (inl e) = inl e
      In-if true k (inr j) = inr (k j)
      In-if false k j = inr (k j)

  pub In-middle : (x : A) (pre post : List A) → In x (pre ++ x ∷ post)
  In-middle x [] post = inl refl
  In-middle x (y ∷ pre) post = inr (In-middle x pre post)

  pub keep-ext : (p q : A → Bool) (xs : List A) → All (λ x. p x ≡ q x) xs → keep p xs ≡ keep q xs
  unfolding keep
  keep-ext p q [] a = refl
  keep-ext p q (x ∷ xs) a = rw (a.0, keep-ext p q xs a.1) refl

  module _ (lt : A → A → Bool) where
    abbrev pub IsSorted : List A → Type 0
    IsSorted [] = Unit {0}
    IsSorted (x ∷ xs) = All (λ y. lt x y ≡ true) xs × IsSorted xs

    module _ (irrefl : (a : A) → lt a a ≡ false)
        (trans : (a b c : A) → lt a b ≡ true → lt b c ≡ true → lt a c ≡ true) where
      asym : (a b : A) → lt a b ≡ true → lt b a ≡ false
      asym a b h = elim (Bool-cases (lt b a)) [
        | inl k ↦ absurd (ground (arith, trans a b a h k, irrefl a))
        | inr k ↦ k
      ]

      -- a row before `x` is not past it
      not_past :
          (m p : A → Bool) (y : A) (xs : List A)
          → IsSorted (y ∷ xs)
          → (pre : List A) (x : A) (post : List A) → keep (λ t. m t && p t) xs ≡ pre ++ x ∷ post
          → lt x y ≡ false
      not_past m p y xs s pre x post h =
          let i : In x xs =
            In-keep (λ t. m t && p t) x xs (subst (In x) (sym h) (In-middle x pre post)) in
          asym y x (In-All _ xs s.0 x i)

      -- the rows that satisfy `m` and are past `x`, out of those that satisfy `m` and an upward closed `p`
      pub keep-past :
          (m p : A → Bool)
          → ((a b : A) → p a ≡ true → lt a b ≡ true → p b ≡ true)
          → (xs : List A) → IsSorted xs
          → (pre : List A) (x : A) (post : List A) → keep (λ t. m t && p t) xs ≡ pre ++ x ∷ post
          → keep (λ t. m t && lt x t) xs ≡ post
      unfolding keep
      keep-past m p up [] s [] x post h = absurd (ground arith)
      keep-past m p up [] s (z ∷ pre) x post h = absurd (ground arith)
      keep-past m p up (y ∷ xs) s [] x post h = elim (Bool-cases (m y && p y)) [
        | inl e ↦
            let same : y ≡ x = ground arith in
            let rest : keep (λ t. m t && p t) xs ≡ post = ground arith in
            let py : p y ≡ true = ground arith in
            let here : lt x y ≡ false = subst (λ z. lt x z ≡ false) (sym same) (irrefl x) in
            let both : All (λ z. (m z && lt x z) ≡ (m z && p z)) xs = All-In _ xs λ z i.
              let after : lt y z ≡ true = In-All _ xs s.0 z i in
              let after' : lt x z ≡ true = subst (λ w. lt w z ≡ true) same after in
              ground (arith, after', up y z py after) in
            ground (arith, here, keep-ext (λ t. m t && lt x t) (λ t. m t && p t) xs both, rest)
        | inr e ↦
            let rest : keep (λ t. m t && p t) xs ≡ x ∷ post = ground arith in
            ground
              (arith, not_past m p y xs s [] x post rest, keep-past m p up xs s.1 [] x post rest)
      ]
      keep-past m p up (y ∷ xs) s (z ∷ pre) x post h = elim (Bool-cases (m y && p y)) [
        | inl e ↦
            let rest : keep (λ t. m t && p t) xs ≡ pre ++ x ∷ post = ground arith in
            ground
              (arith, not_past m p y xs s pre x post rest, keep-past m p up xs s.1 pre x post rest)
        | inr e ↦
            let rest : keep (λ t. m t && p t) xs ≡ z ∷ (pre ++ x ∷ post) = ground arith in
            ground (
              arith,
              not_past m p y xs s (z ∷ pre) x post rest,
              keep-past m p up xs s.1 (z ∷ pre) x post rest,
            )
      ]

    -- ORDER BY sorts, if of two rows of different ids one comes before the other.
    module _ (id : A → ℕ) (total : (a b : A) → id a ≢ id b → lt a b ≡ false → lt b a ≡ true)
        (trans : (a b c : A) → lt a b ≡ true → lt b c ≡ true → lt a c ≡ true) where
      All-insert_by {κ} :
          (P : A → Type κ) (x : A) (ys : List A) → P x → All P ys → All P (insert_by lt x ys)
      unfolding insert_by
      All-insert_by P x [] h a = (h, tt)
      All-insert_by P x (y ∷ ys) h a = elim (Bool-cases (lt y x)) [
        | inl e ↦ rw e (a.0, All-insert_by P x ys h a.1)
        | inr e ↦ rw e (h, a)
      ]

      insert_by-IsSorted :
          (x : A) (ys : List A)
          → All (λ y. id y ≢ id x) ys
          → IsSorted ys
          → IsSorted (insert_by lt x ys)
      unfolding insert_by
      insert_by-IsSorted x [] n s = (tt, tt)
      insert_by-IsSorted x (y ∷ ys) n s = elim (Bool-cases (lt y x)) [
        | inl e ↦
            rw e (All-insert_by (λ z. lt y z ≡ true) x ys e s.0, insert_by-IsSorted x ys n.1 s.1)
        | inr e ↦
            let first : lt x y ≡ true = total y x n.0 e in
            rw e ((first, All-In _ ys λ z i. trans x y z first (In-All _ ys s.0 z i)), s)
      ]

      All-order_by {κ} : (P : A → Type κ) (xs : List A) → All P xs → All P (order_by lt xs)
      unfolding order_by
      All-order_by P [] a = tt
      All-order_by P (x ∷ xs) a = All-insert_by P x (order_by lt xs) a.0 (All-order_by P xs a.1)

      pub order_by-IsSorted : (xs : List A) → IsDistinct id xs → IsSorted (order_by lt xs)
      unfolding order_by
      order_by-IsSorted [] d = tt
      order_by-IsSorted (x ∷ xs) d =
          insert_by-IsSorted x (order_by lt xs) (All-order_by (λ y. id y ≢ id x) xs d.0)
            (order_by-IsSorted xs d.1)
