-- ===== src/Text.antt =====
-- Go strings as lists of bytes, with what the program uses of Go's packages `strings` and
-- `strconv`: comparison, lower case, TrimSpace, ParseUint, Atoi and decimal output.
pub mod Equality
pub mod Trim
pub mod Decimal
use Prim.Native.Char.{code}
use Prim.Native.String
use Prim.Native.String.{String}
use secunda_homework.Base.{
  ℕ, zero, suc, ◌+◌, ◌-◌, ◌*◌, ◌/◌, ◌%◌, ◌^◌, Bool, true, false, ◌&&◌, ◌||◌, Option, none, some,
  List, [], ◌∷◌, map, reverse, ltb, leb, ◌==◌, if◌then◌else◌, ℤ, pos, negsuc, int_max,
}

abbrev pub Bytes : Type 0
Bytes = List ℕ

-- The bytes of a literal of the source, which is ASCII.
abbrev pub codes : String → Bytes
codes String.[] = []
codes (String.◌∷◌ c s) = code c ∷ codes s

-- `==` on strings.
unfoldable pub beq : Bytes → Bytes → Bool
beq [] [] = true
beq [] (y ∷ ys) = false
beq (x ∷ xs) [] = false
beq (x ∷ xs) (y ∷ ys) = x == y && beq xs ys

abbrev pub is_empty : Bytes → Bool
is_empty [] = true
is_empty (x ∷ xs) = false

-- A string is one of those listed.
unfoldable pub one_of : Bytes → List Bytes → Bool
one_of s [] = false
one_of s (t ∷ ts) = beq s t || one_of s ts

-- `c + ('a' - 'A')` on the bytes from 'A' to 'Z'.
abbrev pub lower_byte : ℕ → ℕ
lower_byte c = if leb b'A' c && leb c b'Z' then c + 32 else c

-- The characters that `unicode.IsSpace` accepts, by the length of their UTF-8 encoding.
abbrev pub space_one : ℕ → Bool
space_one a = leb 9 a && leb a 13 || a == 0x20

abbrev pub space_two : ℕ → ℕ → Bool
space_two a b = a == 0xc2 && (b == 0x85 || b == 0xa0)

abbrev pub space_three : ℕ → ℕ → ℕ → Bool
space_three a b c =
    a == 0xe1 && b == 0x9a && c == 0x80
    || a == 0xe2 && b == 0x80 && (leb 0x80 c && leb c 0x8a || c == 0xa8 || c == 0xa9 || c == 0xaf)
    || a == 0xe2 && b == 0x81 && c == 0x9f
    || a == 0xe3 && b == 0x80 && c == 0x80

-- The bytes of the space that a string begins with, 0 if it begins with none. The tests for two
-- and three bytes are arguments, so that the same code reads a reversed string.
pub space_len : (ℕ → ℕ → Bool) → (ℕ → ℕ → ℕ → Bool) → Bytes → ℕ
space_len two three [] = 0
space_len two three (a ∷ []) = if space_one a then 1 else 0
space_len two three (a ∷ b ∷ []) = if space_one a then 1 else if two a b then 2 else 0
space_len two three (a ∷ b ∷ c ∷ s) =
    if space_one a then 1 else if two a b then 2 else if three a b c then 3 else 0

-- Drops the spaces in front; the number is of bytes still to be dropped of the present space.
pub drop_spaces : (Bytes → ℕ) → ℕ → Bytes → Bytes
drop_spaces len k [] = []
drop_spaces len (suc k) (c ∷ s) = drop_spaces len k s
drop_spaces len zero (c ∷ s) =
    let rest = drop_spaces len (len (c ∷ s) - 1) s in if len (c ∷ s) == 0 then c ∷ s else rest

unfoldable pub trim_left : Bytes → Bytes
unfolding drop_spaces space_len
trim_left s = drop_spaces (space_len space_two space_three) 0 s

unfoldable pub trim_right : Bytes → Bytes
unfolding drop_spaces space_len
trim_right s =
    reverse
      (drop_spaces (space_len (λ b a. space_two a b) (λ c b a. space_three a b c)) 0 (reverse s))

-- `strings.TrimSpace`.
unfoldable pub trim_space : Bytes → Bytes
unfolding trim_left trim_right
trim_space s = trim_right (trim_left s)

-- `strconv.FormatUint(n, 10)` and `%d`: the digits are written from the last, before `acc`. The
-- fuel is one more than the number, which falls tenfold in each round.
pub digits : ℕ → ℕ → Bytes → Bytes
digits zero n acc = acc
digits (suc fuel) n acc =
    let rest = digits fuel (n / 10) ((b'0' + n % 10) ∷ acc) in
    if ltb n 10 then (b'0' + n) ∷ acc else rest

unfoldable pub format_uint : ℕ → Bytes
unfolding digits
format_uint n = digits (suc n) n []

unfoldable pub format_int : ℤ → Bytes
unfolding format_uint
format_int (pos n) = format_uint n
format_int (negsuc n) = b'-' ∷ format_uint (suc n)

abbrev pub is_digit : ℕ → Bool
is_digit c = leb b'0' c && leb c b'9'

unfoldable pub parse_digits : ℕ → Bytes → Option ℕ
parse_digits n [] = some n
parse_digits n (c ∷ s) = if is_digit c then parse_digits (n * 10 + (c - b'0')) s else none

abbrev pub uint_mod : ℕ
uint_mod = 2 ^ 64

abbrev pub in_range : ℕ → Option ℕ → Option ℕ
in_range bound none = none
in_range bound (some n) = if ltb n bound then some n else none

-- `strconv.ParseUint(s, 10, 64)`; an error is `none`.
unfoldable pub parse_uint : Bytes → Option ℕ
unfolding parse_digits
parse_uint [] = none
parse_uint (c ∷ s) = in_range uint_mod (parse_digits 0 (c ∷ s))

abbrev pub positive : Option ℕ → Option ℤ
positive none = none
positive (some n) = if ltb n int_max then some (pos n) else none

abbrev pub negative : Option ℕ → Option ℤ
negative none = none
negative (some zero) = some (pos 0)
negative (some (suc n)) = if ltb n int_max then some (negsuc n) else none

-- `strconv.Atoi`.
unfoldable pub atoi : Bytes → Option ℤ
unfolding parse_uint
atoi [] = none
atoi (c ∷ s) =
    if c == b'+'
    then positive (parse_uint s)
    else if c == b'-'
    then negative (parse_uint s)
    else positive (parse_uint (c ∷ s))
