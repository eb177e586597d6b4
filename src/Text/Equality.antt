-- ===== src/Text/Equality.antt =====
-- The string comparison of the model decides equality.
use secunda_homework.Base.{
  true, List, [], ◌∷◌, ◌≡◌, ◌↔◌, ◌⊎◌, refl, arith, ==_iff, ==_refl, and-true, ◌==◌,
}
use secunda_homework.Text.{Bytes, beq, one_of}

beq-eq : (s t : Bytes) → beq s t ≡ true → s ≡ t
unfolding beq
beq-eq [] [] h = refl
beq-eq [] (y ∷ ys) h = cc
beq-eq (x ∷ xs) [] h = cc
beq-eq (x ∷ xs) (y ∷ ys) h =
    let (p, q) = and-true (x == y) (beq xs ys) h in cc ((==_iff x y).0 p, beq-eq xs ys q)

pub beq_refl : (s : Bytes) → beq s s ≡ true
unfolding beq
beq_refl [] = refl
beq_refl (x ∷ xs) = rw (==_refl x) (beq_refl xs)

pub beq_iff : (s t : Bytes) → (beq s t ≡ true) ↔ (s ≡ t)
beq_iff s t = (beq-eq s t, λ e. rw e (beq_refl t))

-- What a list of strings contains, as a predicate.
abbrev pub OneOf : Bytes → List Bytes → Type 0
OneOf s [] = ⊥
OneOf s (t ∷ ts) = (s ≡ t) ⊎ OneOf s ts

pub one_of_sound : (s : Bytes) (ts : List Bytes) → one_of s ts ≡ true → OneOf s ts
unfolding one_of
one_of_sound s [] h = cc
one_of_sound s (t ∷ ts) h = ground (arith, beq_iff s t, one_of_sound s ts)

pub one_of_complete : (s : Bytes) (ts : List Bytes) → OneOf s ts → one_of s ts ≡ true
unfolding one_of
one_of_complete s [] h = absurd h
one_of_complete s (t ∷ ts) h = ground (arith, beq_iff s t, one_of_complete s ts)
