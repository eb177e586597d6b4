-- ===== src/Text/Decimal.antt =====
-- Decimal output and input.
use secunda_homework.Base.{
  ℕ, zero, suc, ◌+◌, ◌-◌, ◌*◌, ◌/◌, ◌%◌, ◌<◌, false, some, [], ◌∷◌, ◌++◌, ◌≡◌, refl, sym, ap, ◌∙◌,
  inl, inr, arith, ltb, if◌then◌else◌, Bool-cases,
}
use secunda_homework.Text.{
  Bytes, digits, format_uint, is_digit, parse_digits, parse_uint, uint_mod, in_range, is_empty,
}

-- The digits at the front of a string are a number, and the rest follows.
abbrev scan : ℕ → Bytes → ℕ × Bytes
scan n [] = (n, [])
scan n (c ∷ s) = if is_digit c then scan (n * 10 + (c - b'0')) s else (n, c ∷ s)

module _ (P : ℕ → Bytes → Type 0)
    (step : (n d : ℕ) (s : Bytes) → d < 10 → P (n * 10 + d) s → P n ((b'0' + d) ∷ s)) where
  -- Whatever may be shown one digit at a time holds of a whole number in front of a string.
  digits_ind : (fuel n : ℕ) (acc : Bytes) → n < fuel → P n acc → P 0 (digits fuel n acc)
  unfolding digits
  digits_ind zero n acc h k = absurd (omega arith)
  digits_ind (suc fuel) n acc h k = elim (Bool-cases (ltb n 10)) [
    | inl small ↦
        rw small (step 0 n acc (ground arith) (let e : 0 * 10 + n ≡ n = omega arith in rw e k))
    | inr large ↦ rw large (
        digits_ind fuel (n / 10) ((b'0' + n % 10) ∷ acc) (ground arith) (
          step (n / 10) (n % 10) acc (omega arith)
            (let e : n / 10 * 10 + n % 10 ≡ n = omega arith in rw e k)))
  ]

pub parse_digits-digits : (fuel n : ℕ) → n < fuel → parse_digits 0 (digits fuel n []) ≡ some n
unfolding parse_digits
parse_digits-digits fuel n h =
    digits_ind (λ m s. parse_digits m s ≡ some n) (λ m d s low e. ground arith) fuel n [] h refl

scan-digits :
    (fuel n : ℕ) (rest : Bytes)
    → n < fuel
    → scan n rest ≡ (n, rest)
    → scan 0 (digits fuel n rest) ≡ (n, rest)
scan-digits fuel n rest h e =
    digits_ind (λ m s. scan m s ≡ (n, rest)) (λ m d s low p. ground arith) fuel n rest h e

digits-append :
    (fuel n : ℕ) (acc rest : Bytes) → digits fuel n acc ++ rest ≡ digits fuel n (acc ++ rest)
unfolding digits
digits-append zero n acc rest = refl
digits-append (suc fuel) n acc rest =
    ground (arith, digits-append fuel (n / 10) ((b'0' + n % 10) ∷ acc) rest)

-- A decimal number never is the empty string.
digits-cons : (fuel n : ℕ) (c : ℕ) (acc : Bytes) → is_empty (digits fuel n (c ∷ acc)) ≡ false
unfolding digits
digits-cons zero n c acc = refl
digits-cons (suc fuel) n c acc = ground (arith, digits-cons fuel (n / 10) (b'0' + n % 10) (c ∷ acc))

pub format_uint-ne-nil : (n : ℕ) → is_empty (format_uint n) ≡ false
unfolding format_uint
format_uint-ne-nil n = ground (arith, digits-cons n (n / 10) (b'0' + n % 10) [])

parse_uint-cons :
    (s : Bytes) → is_empty s ≡ false → parse_uint s ≡ in_range uint_mod (parse_digits 0 s)
unfolding parse_uint
parse_uint-cons [] h = cc
parse_uint-cons (c ∷ s) h = refl

-- Every 64-bit number is read back from its decimal output.
pub parse_uint-format_uint : (n : ℕ) → n < uint_mod → parse_uint (format_uint n) ≡ some n
unfolding format_uint
parse_uint-format_uint n h =
    rw
      (
        parse_uint-cons (format_uint n) (format_uint-ne-nil n),
        parse_digits-digits (suc n) n (omega arith),
      )
      (ground arith)

-- What is read as a number is a 64-bit number.
pub parse_uint-lt : (s : Bytes) {n : ℕ} → parse_uint s ≡ some n → n < uint_mod
unfolding parse_uint
parse_uint-lt [] h = cc
parse_uint-lt (c ∷ s) h = ground arith

-- Two decimal numbers, each followed by the same byte that is no digit, agree only if the numbers
-- and what follows agree.
pub format_uint_injective :
    (n m c : ℕ) (s t : Bytes)
    → is_digit c ≡ false
    → format_uint n ++ c ∷ s ≡ format_uint m ++ c ∷ t
    → (n ≡ m) × (s ≡ t)
unfolding format_uint
format_uint_injective n m c s t stop e =
    let p = scan-digits (suc n) n (c ∷ s) (omega arith) (rw stop) in
    let q = scan-digits (suc m) m (c ∷ t) (omega arith) (rw stop) in
    let r : scan 0 (digits (suc n) n (c ∷ s)) ≡ scan 0 (digits (suc m) m (c ∷ t)) =
      ap (scan 0)
        (sym (digits-append (suc n) n [] (c ∷ s)) ∙ e ∙ digits-append (suc m) m [] (c ∷ t)) in
    let whole : ◌≡◌ {A = ℕ × Bytes} (n, c ∷ s) (m, c ∷ t) = sym p ∙ r ∙ q in (cc, cc)

-- The same at the end of a string.
pub format_uint_injective_end : (n m : ℕ) → format_uint n ≡ format_uint m → n ≡ m
unfolding format_uint
format_uint_injective_end n m e =
    let p = parse_digits-digits (suc n) n (omega arith) in
    let q = parse_digits-digits (suc m) m (omega arith) in
    let r : some n ≡ some m = sym p ∙ ap (parse_digits 0) e ∙ q in cc
