-- ===== src/Password.antt =====
-- The password hasher of internal/auth/jwt.go over the package bcrypt, an argument.
use secunda_homework.Base.{ℤ, Bool, ◌||◌, Option, if◌then◌else◌, ltb_ℤ}
use secunda_homework.Text.{Bytes}

-- `GenerateFromPassword`, whether `CompareHashAndPassword` finds no error, and the constants.
pub record Bcrypt : Type 0 where
  pub min_cost : ℤ
  pub max_cost : ℤ
  pub default_cost : ℤ
  pub generate : Bytes → ℤ → Option Bytes
  pub compare : Bytes → Bytes → Bool

pub record PasswordHasher : Type 0 where
  pub cost : ℤ

abbrev pub new_password_hasher : Bcrypt → ℤ → PasswordHasher
new_password_hasher b cost =
    if ltb_ℤ cost b.min_cost || ltb_ℤ b.max_cost cost
    then record { cost = b.default_cost }
    else record { cost = cost }

abbrev pub hash : Bcrypt → PasswordHasher → Bytes → Option Bytes
hash b h plain = b.generate plain h.cost

abbrev pub verify : Bcrypt → Bytes → Bytes → Bool
verify b hashed plain = b.compare hashed plain
