-- ===== src/Invariant/Tables.antt =====
-- Tables: keys in order, rows that are compared in pairs, and how appending and updating rows keep
-- what holds of them.
use secunda_homework.Base.{
  ℕ, suc, ◌≤◌, Bool, true, false, List, [], ◌∷◌, ◌++◌, ◌≡◌, refl, arith, any, update, All,
  All-append, if◌then◌else◌, ◌==◌,
}

module _ {A : Type 0} where
  -- The keys grow from row to row, from a first key on, and end below a last one.
  abbrev pub Keyed : (A → ℕ) → ℕ → List A → ℕ → Type 0
  Keyed key lo [] hi = lo ≤ hi
  Keyed key lo (x ∷ xs) hi = (lo ≤ key x) × Keyed key (suc (key x)) xs hi

  pub Keyed-append :
      (key : A → ℕ) (lo hi : ℕ) (xs : List A) (x : A)
      → Keyed key lo xs hi
      → key x ≡ hi
      → Keyed key lo (xs ++ x ∷ []) (suc hi)
  Keyed-append key lo hi [] x h e = (omega arith, omega arith)
  Keyed-append key lo hi (y ∷ ys) x h e = (h.0, Keyed-append key (suc (key y)) hi ys x h.1 e)

  pub Keyed-mono :
      (key : A → ℕ) (lo hi hi' : ℕ) (xs : List A)
      → hi ≤ hi'
      → Keyed key lo xs hi
      → Keyed key lo xs hi'
  Keyed-mono key lo hi hi' [] g h = omega arith
  Keyed-mono key lo hi hi' (x ∷ xs) g h = (h.0, Keyed-mono key (suc (key x)) hi hi' xs g h.1)

  pub Keyed-update :
      (key : A → ℕ) (lo hi : ℕ) (p : A → Bool) (f : A → A) (xs : List A)
      → ((x : A) → key (f x) ≡ key x)
      → Keyed key lo xs hi
      → Keyed key lo (update p f xs) hi
  unfolding update
  Keyed-update key lo hi p f [] k h = h
  Keyed-update key lo hi p f (x ∷ xs) k h =
      let same : key (if p x then f x else x) ≡ key x = ground (arith, k x) in
      rw same (h.0, Keyed-update key (suc (key x)) hi p f xs k h.1)

  Keyed-le : (key : A → ℕ) (lo hi : ℕ) (xs : List A) → Keyed key lo xs hi → lo ≤ hi
  Keyed-le key lo hi [] h = h
  Keyed-le key lo hi (x ∷ xs) h = omega (arith, h, Keyed-le key (suc (key x)) hi xs h.1)

  -- Keys are below the last one.
  pub Keyed-lt :
      (key : A → ℕ) (lo hi n : ℕ) (xs : List A)
      → Keyed key lo xs hi
      → hi ≤ n
      → any (λ x. key x == n) xs ≡ false
  unfolding any
  Keyed-lt key lo hi n [] h g = refl
  Keyed-lt key lo hi n (x ∷ xs) h g =
      let later = Keyed-le key (suc (key x)) hi xs h.1 in
      ground (arith, Keyed-lt key (suc (key x)) hi n xs h.1)

  -- Keys are not below the first one.
  pub Keyed-gt :
      (key : A → ℕ) (lo hi n : ℕ) (xs : List A)
      → Keyed key lo xs hi
      → suc n ≤ lo
      → any (λ x. key x == n) xs ≡ false
  unfolding any
  Keyed-gt key lo hi n [] h g = refl
  Keyed-gt key lo hi n (x ∷ xs) h g = ground (arith, h.0, Keyed-gt key (suc (key x)) hi n xs h.1)

  -- Any row and any later one.
  abbrev pub Pairwise : (A → A → Type 0) → List A → Type 0
  Pairwise P [] = Unit
  Pairwise P (x ∷ xs) = All (P x) xs × Pairwise P xs

  pub Pairwise-append :
      (P : A → A → Type 0) (xs : List A) (y : A)
      → Pairwise P xs
      → All (λ x. P x y) xs
      → Pairwise P (xs ++ y ∷ [])
  Pairwise-append P [] y h k = (tt, tt)
  Pairwise-append P (x ∷ xs) y h k =
      (All-append (P x) xs (y ∷ []) h.0 (k.0, tt), Pairwise-append P xs y h.1 k.1)

  pub All-of_none : (p : A → Bool) (xs : List A) → any p xs ≡ false → All (λ x. p x ≡ false) xs
  unfolding any
  All-of_none p [] h = tt
  All-of_none p (x ∷ xs) h = (ground arith, All-of_none p xs (ground arith))

  pub any-append_left : (p : A → Bool) (xs ys : List A) → any p xs ≡ true → any p (xs ++ ys) ≡ true
  unfolding any
  any-append_left p [] ys h = cc
  any-append_left p (x ∷ xs) ys h = ground (arith, any-append_left p xs ys)

  pub any-update :
      (p q : A → Bool) (f : A → A) (xs : List A)
      → ((x : A) → p (f x) ≡ p x)
      → any p (update q f xs) ≡ any p xs
  unfolding any update
  any-update p q f [] h = refl
  any-update p q f (x ∷ xs) h = ground (arith, h x, any-update p q f xs)

  pub All-weaken : (P Q : A → Type 0) (xs : List A) → ((x : A) → P x → Q x) → All P xs → All Q xs
  All-weaken P Q [] f h = tt
  All-weaken P Q (x ∷ xs) f h = (f x h.0, All-weaken P Q xs f h.1)

  choose-All :
      (P : A → Type 0) (f : A → A) (b : Bool) (x : A)
      → (P x → P (f x))
      → P x
      → P (if b then f x else x)
  choose-All P f true x k h = k h
  choose-All P f false x k h = h

  pub All-update :
      (P : A → Type 0) (q : A → Bool) (f : A → A) (xs : List A)
      → ((x : A) → P x → P (f x))
      → All P xs
      → All P (update q f xs)
  unfolding update
  All-update P q f [] k h = tt
  All-update P q f (x ∷ xs) k h = (choose-All P f (q x) x (k x) h.0, All-update P q f xs k h.1)

  pub All-snoc : (P : A → Type 0) (xs : List A) (x : A) → All P xs → P x → All P (xs ++ x ∷ [])
  All-snoc P xs x h p = All-append P xs (x ∷ []) h (p, tt)
