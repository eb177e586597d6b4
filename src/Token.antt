-- ===== src/Token.antt =====
-- internal/auth/jwt.go: claims, the issuing and the parsing of tokens. The package
-- golang-jwt/jwt is an argument.
pub mod Laws
use secunda_homework.Base.{
  ℕ, suc, ◌+◌, ◌-◌, ℤ, pos, negsuc, Bool, true, false, Option, none, some, if◌then◌else◌, ltb,
  length, leb_ℤ,
}
use secunda_homework.Text.{Bytes, is_empty, format_uint, parse_uint}
use secunda_homework.Store.State.{Err, invalid_token, expired_token, token_signature, failed}
use secunda_homework.Store.Monad.{Result, ok, err}

abbrev pub min_secret_len : ℕ
min_secret_len = 32

pub record JwtConfig : Type 0 where
  pub secret : Bytes
  pub issuer : Bytes
  pub ttl : ℤ

-- `jwt.RegisteredClaims` are the other fields of a token that the code fills.
pub record Claims : Type 0 where
  pub email : Bytes
  pub subject : Bytes
  pub issuer : Bytes
  pub issued_at : ℕ
  pub expires_at : ℕ
  pub not_before : ℕ

pub record TokenManager : Type 0 where
  pub secret : Bytes
  pub issuer : Bytes
  pub ttl : ℤ

pub data Method : Type 0 where
  hmac other_method : Method

-- What `jwt.ParseWithClaims` returns: an error, by what `errors.Is` finds in it, or claims with the
-- flag `Valid`.
pub data Verdict : Type 0 where
  refused : (is_expired is_signature : Bool) → Verdict
  parsed : Claims → Bool → Verdict

-- The package: `jwt.NewNumericDate`, the signing of claims by HS256 with a key, and parsing for a
-- function that chooses the key, an issuer, a leeway and a time.
pub record Jwt : Type 0 where
  pub numeric_date : ℕ → ℕ
  pub sign : Bytes → Claims → Option Bytes
  pub parse : (Method → Option Bytes) → Bytes → ℕ → ℕ → Bytes → Verdict

-- `now.Add(ttl)`.
abbrev pub add_time : ℕ → ℤ → ℕ
add_time t (pos n) = t + n
add_time t (negsuc n) = t - suc n

abbrev pub read_id : Option ℕ → ℕ
read_id none = 0
read_id (some id) = id

-- `Claims.UserID`; 0 is no user.
unfoldable pub user_id : Claims → ℕ
user_id c = if is_empty c.subject then 0 else read_id (parse_uint c.subject)

-- `NewTokenManager`; the error is `none`.
unfoldable pub new_token_manager : JwtConfig → Option TokenManager
new_token_manager cfg =
    if ltb (length cfg.secret) min_secret_len
    then none
    else if is_empty cfg.issuer
    then none
    else if leb_ℤ cfg.ttl (pos 0)
    then none
    else some (record { secret = cfg.secret; issuer = cfg.issuer; ttl = cfg.ttl })

-- Thirty seconds, in nanoseconds.
abbrev pub leeway : ℕ
leeway = 30_000_000_000

-- The key function of `Parse`.
abbrev pub key_for : TokenManager → Method → Option Bytes
key_for m hmac = some m.secret
key_for m other_method = none

abbrev pub verdict_error : Verdict → Result Claims
verdict_error (refused true is_signature) = err expired_token
verdict_error (refused false true) = err token_signature
verdict_error (refused false false) = err invalid_token
verdict_error (parsed c true) = ok c
verdict_error (parsed c false) = err invalid_token

module _ (jwt : Jwt) (m : TokenManager) where
  unfoldable pub new_claims : ℕ → Bytes → ℕ → Claims
  new_claims id email at = record {
    email = email;
    subject = format_uint id;
    issuer = m.issuer;
    issued_at = jwt.numeric_date at;
    expires_at = jwt.numeric_date (add_time at m.ttl);
    not_before = jwt.numeric_date at;
  }

  -- `Issue`, at a time.
  unfoldable pub issue_at : ℕ → Bytes → ℕ → Option Bytes
  issue_at id email at = jwt.sign m.secret (new_claims id email at)

  -- `Parse`, at a time.
  unfoldable pub parse_token : ℕ → Bytes → Result Claims
  parse_token at token = verdict_error (jwt.parse (key_for m) m.issuer leeway at token)
