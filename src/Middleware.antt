-- ===== src/Middleware.antt =====
-- internal/middleware/auth.go: the check of the bearer token. What the handlers after it are given
-- is a value; a request that stops there is answered with 401.
pub mod Laws
pub mod RateLimit
pub mod Metrics
use secunda_homework.Base.{
  ℕ, Bool, not, ◌||◌, List, map, if◌then◌else◌, ◌==◌, leb, length, take, drop,
}
use secunda_homework.Text.{Bytes, codes, beq, is_empty, lower_byte, trim_space}
use secunda_homework.Store.Monad.{Result, ok, err}
use secunda_homework.Token.{Claims, Jwt, TokenManager, user_id, parse_token}

pub data Outcome : Type 0 where
  missing_token invalid : Outcome
  authenticated : (id : ℕ) (email : Bytes) → Outcome

abbrev pub prefix : Bytes
prefix = codes "bearer "

-- The letters of the prefix have no foldings outside ASCII, so `strings.EqualFold` compares them
-- in lower case.
unfoldable pub extract_bearer : Bytes → Bytes
extract_bearer header =
    if is_empty header
    then codes ""
    else if leb (length header) (length prefix)
        || not (beq (map lower_byte (take (length prefix) header)) prefix)
    then codes ""
    else trim_space (drop (length prefix) header)

abbrev pub admitted : Result Claims → Outcome
admitted (err e) = invalid
admitted (ok c) = if user_id c == 0 then invalid else authenticated (user_id c) c.email

module _ (jwt : Jwt) (m : TokenManager) where
  unfoldable pub require_auth : ℕ → Bytes → Outcome
  require_auth at header =
      let raw = extract_bearer header in
      if is_empty raw then missing_token else admitted (parse_token jwt m at raw)
