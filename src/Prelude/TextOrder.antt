-- ===== src/Prelude/TextOrder.antt =====
-- The order of texts is a strict total order.
use tracewell.Prelude.Tests.{codes_ltb, codes_eq}
use tracewell.Prelude.{ℕ, true, false, List, [], ◌∷◌, ◌≡◌, refl, arith, ◌⊎◌, inl, inr}

pub codes_ltb_irrefl : (xs : List ℕ) → codes_ltb xs xs ≡ false
unfolding codes_ltb
codes_ltb_irrefl [] = refl
codes_ltb_irrefl (x ∷ xs) = ground (arith, codes_ltb_irrefl xs)

pub codes_ltb_trans :
    (xs ys zs : List ℕ) → codes_ltb xs ys ≡ true → codes_ltb ys zs ≡ true → codes_ltb xs zs ≡ true
unfolding codes_ltb
codes_ltb_trans xs ys [] h k = ground arith
codes_ltb_trans [] ys (z ∷ zs) h k = refl
codes_ltb_trans (x ∷ xs) [] (z ∷ zs) h k = ground arith
codes_ltb_trans (x ∷ xs) (y ∷ ys) (z ∷ zs) h k = ground (arith, codes_ltb_trans xs ys zs)

pub codes_ltb-total :
    (xs ys : List ℕ) → (codes_ltb xs ys ≡ true) ⊎ (xs ≡ ys) ⊎ (codes_ltb ys xs ≡ true)
unfolding codes_ltb
codes_ltb-total [] [] = inr (inl refl)
codes_ltb-total [] (y ∷ ys) = inl refl
codes_ltb-total (x ∷ xs) [] = inr (inr refl)
codes_ltb-total (x ∷ xs) (y ∷ ys) = ground (arith, codes_ltb-total xs ys)

pub codes_eq_refl : (xs : List ℕ) → codes_eq xs xs ≡ true
codes_eq_refl [] = refl
codes_eq_refl (x ∷ xs) = ground (arith, codes_eq_refl xs)

pub eq_of_codes_eq : (xs ys : List ℕ) → codes_eq xs ys ≡ true → xs ≡ ys
eq_of_codes_eq [] [] h = refl
eq_of_codes_eq [] (y ∷ ys) h = ground arith
eq_of_codes_eq (x ∷ xs) [] h = ground arith
eq_of_codes_eq (x ∷ xs) (y ∷ ys) h = ground (arith, eq_of_codes_eq xs ys)
