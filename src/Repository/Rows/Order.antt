-- ===== src/Repository/Rows/Order.antt =====
-- ORDER BY and LIMIT: sorted rows, the same rows, and what a limit leaves out.
use secunda_homework.Base.{
  ℕ, zero, suc, ◌≤◌, Bool, true, false, ◌||◌, List, [], ◌∷◌, ◌≡◌, refl, ap, inl, inr, arith, any,
  take, length, All, Bool-cases,
}
use secunda_homework.Invariant.Tables.{Pairwise, All-weaken}
use secunda_homework.Repository.Rows.{insert_by, order_by}

module _ {A : Type 0} (before : A → A → Bool) where
  pub All-insert_by :
      (P : A → Type 0) (a : A) (xs : List A) → P a → All P xs → All P (insert_by before a xs)
  unfolding insert_by
  All-insert_by P a [] p h = (p, tt)
  All-insert_by P a (x ∷ xs) p h = elim (Bool-cases (before a x)) [
    | inl first ↦ rw first (p, h)
    | inr later ↦ rw later (h.0, All-insert_by P a xs p h.1)
  ]

  pub All-order_by : (P : A → Type 0) (xs : List A) → All P xs → All P (order_by before xs)
  unfolding order_by
  All-order_by P [] h = tt
  All-order_by P (x ∷ xs) h = All-insert_by P x (order_by before xs) h.0 (All-order_by P xs h.1)

  any-insert_by :
      (p : A → Bool) (a : A) (xs : List A) → any p (insert_by before a xs) ≡ p a || any p xs
  unfolding insert_by any
  any-insert_by p a [] = refl
  any-insert_by p a (x ∷ xs) = ground (arith, any-insert_by p a xs)

  pub any-order_by : (p : A → Bool) (xs : List A) → any p (order_by before xs) ≡ any p xs
  unfolding order_by any
  any-order_by p [] = refl
  any-order_by p (x ∷ xs) =
      ground (arith, any-insert_by p x (order_by before xs), any-order_by p xs)

  module _ (total : (a b : A) → before a b ≡ false → before b a ≡ true)
      (trans : (a b c : A) → before a b ≡ true → before b c ≡ true → before a c ≡ true) where
    Pairwise-insert_by :
        (a : A) (xs : List A)
        → Pairwise (λ x y. before x y ≡ true) xs
        → Pairwise (λ x y. before x y ≡ true) (insert_by before a xs)
    unfolding insert_by
    Pairwise-insert_by a [] h = (tt, tt)
    Pairwise-insert_by a (x ∷ xs) h = elim (Bool-cases (before a x)) [
      | inl first ↦ rw first ((first, All-weaken _ _ xs (λ y p. trans a x y first p) h.0), h)
      | inr later ↦ rw later (
        All-insert_by (λ y. before x y ≡ true) a xs (total a x later) h.0,
        Pairwise-insert_by a xs h.1,
      )
    ]

    pub Pairwise-order_by : (xs : List A) → Pairwise (λ x y. before x y ≡ true) (order_by before xs)
    unfolding order_by
    Pairwise-order_by [] = tt
    Pairwise-order_by (x ∷ xs) = Pairwise-insert_by x (order_by before xs) (Pairwise-order_by xs)

module _ {A : Type 0} where
  pub All-take : (P : A → Type 0) (n : ℕ) (xs : List A) → All P xs → All P (take n xs)
  All-take P zero xs h = tt
  All-take P (suc n) [] h = tt
  All-take P (suc n) (x ∷ xs) h = (h.0, All-take P n xs h.1)

  pub Pairwise-take :
      (B : A → A → Type 0) (n : ℕ) (xs : List A) → Pairwise B xs → Pairwise B (take n xs)
  Pairwise-take B zero xs h = tt
  Pairwise-take B (suc n) [] h = tt
  Pairwise-take B (suc n) (x ∷ xs) h = (All-take (B x) n xs h.0, Pairwise-take B n xs h.1)

  pub length-take : (n : ℕ) (xs : List A) → length (take n xs) ≤ n
  length-take zero xs = omega arith
  length-take (suc n) [] = omega arith
  length-take (suc n) (x ∷ xs) = omega (arith, length-take n xs)

  All-both : (P Q : A → Type 0) (xs : List A) → All P xs → All Q xs → All (λ a. P a × Q a) xs
  All-both P Q [] h k = tt
  All-both P Q (x ∷ xs) h k = ((h.0, k.0), All-both P Q xs h.1 k.1)

  -- A row that is selected.
  any_row :
      (Q : A → Type 0) (p : A → Bool) (xs : List A)
      → All Q xs
      → any p xs ≡ true
      → (c : A) × ((p c ≡ true) × Q c)
  unfolding any
  any_row Q p [] q h = absurd cc
  any_row Q p (x ∷ xs) q h = elim (Bool-cases (p x)) [
    | inl yes_x ↦ (x, (yes_x, q.0))
    | inr no_x ↦ any_row Q p xs q.1 (ground arith)
  ]

  -- A row that a limit leaves out comes after as many rows as the limit.
  pub beyond_take :
      (B : A → A → Type 0) (Q : A → Type 0) (p : A → Bool) (n : ℕ) (xs : List A)
      → Pairwise B xs
      → All Q xs
      → any p xs ≡ true
      → any p (take n xs) ≡ false
      → (c : A) × ((p c ≡ true) × (Q c × ((length (take n xs) ≡ n) × All (λ x. B x c) (take n xs))))
  unfolding any
  beyond_take B Q p zero xs h q some_p none_p =
      let (c, (yes_c, qc)) = any_row Q p xs q some_p in (c, (yes_c, (qc, (refl, tt))))
  beyond_take B Q p (suc n) [] h q some_p none_p = absurd cc
  beyond_take B Q p (suc n) (x ∷ xs) h q some_p none_p =
      let both : All (λ a. Q a × B x a) xs = All-both Q (B x) xs q.1 h.0 in
      let (c, (yes_c, (qc, (full, after)))) =
        beyond_take B (λ a. Q a × B x a) p n xs h.1 both (ground arith) (ground arith) in
      (c, (yes_c, (qc.0, (ap suc full, (qc.1, after)))))
