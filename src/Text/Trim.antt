-- ===== src/Text/Trim.antt =====
-- Trimming: what is left is no longer, and begins and ends with no space.
use secunda_homework.Base.{
  ℕ, zero, suc, ◌-◌, ◌≤◌, Bool, [], ◌∷◌, ◌++◌, reverse, ◌≡◌, refl, sym, ap, ◌∙◌, inl, inr, arith,
  ◌==◌, Bool-cases, length, length-append,
}
use mathlib.Core.List.{reverse-reverse, reverse-append, reverse-cons}
use secunda_homework.Text.{
  Bytes, space_two, space_three, space_len, drop_spaces, trim_left, trim_right, trim_space,
}

length-reverse : (s : Bytes) → length (reverse s) ≡ length s
length-reverse [] = refl
length-reverse (c ∷ s) =
    rw reverse-cons (omega (arith, length-append (reverse s) (c ∷ []), length-reverse s))

length-drop_spaces : (len : Bytes → ℕ) (k : ℕ) (s : Bytes) → length (drop_spaces len k s) ≤ length s
unfolding drop_spaces
length-drop_spaces len zero [] = omega arith
length-drop_spaces len (suc k) [] = omega arith
length-drop_spaces len (suc k) (c ∷ s) = omega (arith, length-drop_spaces len k s)
length-drop_spaces len zero (c ∷ s) = ground (arith, length-drop_spaces len (len (c ∷ s) - 1) s)

abbrev pub front_len : Bytes → ℕ
front_len = space_len space_two space_three

abbrev pub back_len : Bytes → ℕ
back_len = space_len (λ b a. space_two a b) (λ c b a. space_three a b c)

drop_spaces-done :
    (len : Bytes → ℕ) → len [] ≡ 0 → (k : ℕ) (s : Bytes) → len (drop_spaces len k s) ≡ 0
unfolding drop_spaces
drop_spaces-done len h zero [] = h
drop_spaces-done len h (suc k) [] = h
drop_spaces-done len h (suc k) (c ∷ s) = drop_spaces-done len h k s
drop_spaces-done len h zero (c ∷ s) = ground (arith, drop_spaces-done len h (len (c ∷ s) - 1) s)

drop_spaces-id : (len : Bytes → ℕ) (s : Bytes) → len s ≡ 0 → drop_spaces len 0 s ≡ s
unfolding drop_spaces
drop_spaces-id len [] h = refl
drop_spaces-id len (c ∷ s) h = ground arith

-- A shorter front of a string begins with no space that the string does not begin with.
space_len-front :
    (two : ℕ → ℕ → Bool) (three : ℕ → ℕ → ℕ → Bool) (s t : Bytes)
    → space_len two three (s ++ t) ≡ 0
    → space_len two three s ≡ 0
unfolding space_len
space_len-front two three [] t h = refl
space_len-front two three (a ∷ []) [] h = h
space_len-front two three (a ∷ []) (b ∷ []) h = ground arith
space_len-front two three (a ∷ []) (b ∷ c ∷ t) h = ground arith
space_len-front two three (a ∷ b ∷ []) [] h = h
space_len-front two three (a ∷ b ∷ []) (c ∷ t) h = ground arith
space_len-front two three (a ∷ b ∷ c ∷ s) t h = h

-- What is dropped is a front of the string.
drop_spaces-split :
    (len : Bytes → ℕ) (k : ℕ) (s : Bytes) → (front : Bytes) × (s ≡ front ++ drop_spaces len k s)
unfolding drop_spaces
drop_spaces-split len zero [] = ([], refl)
drop_spaces-split len (suc k) [] = ([], refl)
drop_spaces-split len (suc k) (c ∷ s) =
    let (f, e) = drop_spaces-split len k s in (c ∷ f, ap (λ t. c ∷ t) e)
drop_spaces-split len zero (c ∷ s) = elim (Bool-cases (len (c ∷ s) == 0)) [
  | inl none_left ↦ ([], rw none_left)
  | inr more ↦
      let (f, e) = drop_spaces-split len (len (c ∷ s) - 1) s in (c ∷ f, rw more (ap (λ t. c ∷ t) e))
]

trim_right-split : (s : Bytes) → (back : Bytes) × (s ≡ trim_right s ++ back)
unfolding trim_right
trim_right-split s =
    let (f, e) = drop_spaces-split back_len 0 (reverse s) in
    (reverse f, sym (reverse-reverse s) ∙ ap reverse e ∙ reverse-append f _)

trim_left-done : (s : Bytes) → front_len (trim_left s) ≡ 0
unfolding trim_left
trim_left-done s = drop_spaces-done front_len refl 0 s

-- A trimmed string begins with no space.
pub trim_space-front : (s : Bytes) → front_len (trim_space s) ≡ 0
unfolding trim_space
trim_space-front s =
    let (back, e) = trim_right-split (trim_left s) in
    space_len-front space_two space_three (trim_right (trim_left s)) back
      (rw (← e) (trim_left-done s))

-- A trimmed string ends with no space.
pub trim_space-back : (s : Bytes) → back_len (reverse (trim_space s)) ≡ 0
unfolding trim_space trim_right
trim_space-back s = rw reverse-reverse (drop_spaces-done back_len refl 0 (reverse (trim_left s)))

-- A string that begins and ends with no space is left as it is.
trim_space-id : (s : Bytes) → front_len s ≡ 0 → back_len (reverse s) ≡ 0 → trim_space s ≡ s
unfolding trim_space trim_left trim_right
trim_space-id s h k =
    rw (drop_spaces-id front_len s h)
      (rw (drop_spaces-id back_len (reverse s) k) (reverse-reverse s))

-- Trimming twice is trimming once.
pub trim_space_idem : (s : Bytes) → trim_space (trim_space s) ≡ trim_space s
trim_space_idem s = trim_space-id (trim_space s) (trim_space-front s) (trim_space-back s)

-- A trimmed string is never longer.
pub length-trim_space : (s : Bytes) → length (trim_space s) ≤ length s
unfolding trim_space trim_left trim_right
length-trim_space s = omega (
  arith,
  length-reverse (drop_spaces back_len 0 (reverse (trim_left s))),
  length-drop_spaces back_len 0 (reverse (trim_left s)),
  length-reverse (trim_left s),
  length-drop_spaces front_len 0 s,
)
