-- ===== src/Service/Auth.antt =====
-- internal/service/auth.go, with the password hasher of internal/auth/jwt.go, whose library is an
-- argument.
pub mod Laws
pub mod Success
use secunda_homework.Base.{ℕ, Bool, not, Option, none, some}
use secunda_homework.Text.{Bytes, trim_space}
use secunda_homework.Entity.Rows.{User}
use secunda_homework.Dto.Requests.{RegisterRequest, LoginRequest}
use secunda_homework.Dto.Responses.{AuthUser, AuthResponse}
use secunda_homework.Dto.Validation.{ValidationError, validate_register, validate_login}
use secunda_homework.Store.State.{Env, Err, validation, email_taken, invalid_credentials, failed}
use secunda_homework.Store.Monad.{M, Result, ok, err, pure, throw, lift, stop_if, ◌>>=◌, ◌>>◌}
use secunda_homework.Store.Calls.{now}
use secunda_homework.Password.{Bcrypt, PasswordHasher, hash, verify}
use secunda_homework.Token.{Jwt, TokenManager, issue_at}
use secunda_homework.Repository.Users.{create_user, find_user_by_email}

-- What the service is built with: `strings.ToLower`, `mail.ParseAddress`, bcrypt, the package of
-- tokens and the token manager.
pub record Libraries : Type 0 where
  pub to_lower : Bytes → Bytes
  pub parses_address : Bytes → Bool
  pub bcrypt : Bcrypt
  pub hasher : PasswordHasher
  pub jwt : Jwt
  pub tokens : TokenManager

abbrev pub or_failed : {A : Type 0} → Option A → Result A
or_failed none = err failed
or_failed (some a) = ok a

abbrev pub stop_on : {R : Type 0} → Option ValidationError → M R (Unit {0})
stop_on none = pure tt
stop_on (some e) = throw (validation (some e))

unfoldable pub auth_response : (ℕ → Bytes) → User → Bytes → AuthResponse
auth_response format u token = record {
  user = record { id = u.id; email = u.email; name = u.name; created_at = format u.created_at };
  token = token;
}

module _ {R : Type 0} (env : Env) (lib : Libraries) where
  -- `TokenManager.Issue`.
  unfoldable pub issue : ℕ → Bytes → M R Bytes
  issue user_id email = do
    at ← now env
    lift (or_failed (issue_at lib.jwt lib.tokens user_id email at))

  abbrev pub not_taken : Option User → M R (Unit {0})
  not_taken none = pure tt
  not_taken (some u) = throw email_taken

  unfoldable pub register : RegisterRequest → M R AuthResponse
  register req = do
    stop_on (validate_register lib.parses_address req)
    let email = lib.to_lower (trim_space req.email)
    existing ← find_user_by_email env lib.to_lower email
    not_taken existing
    hash ← lift (or_failed (hash lib.bcrypt lib.hasher req.password))
    at ← now env
    let u : User = record {
      id = 0;
      email = email;
      password_hash = hash;
      name = trim_space req.name;
      created_at = at;
      updated_at = at;
    }
    id ← create_user env lib.to_lower u
    token ← issue id email
    pure (auth_response env.format_utc (record u { id = id }) token)

  -- An unknown email and a wrong password are not told apart.
  unfoldable pub checked_password : Bytes → Option User → M R User
  checked_password password none = throw invalid_credentials
  checked_password password (some u) = do
    stop_if (not (verify lib.bcrypt u.password_hash password)) invalid_credentials
    pure u

  unfoldable pub login : LoginRequest → M R AuthResponse
  login req = do
    stop_on (validate_login lib.parses_address req)
    let email = lib.to_lower (trim_space req.email)
    found ← find_user_by_email env lib.to_lower email
    u ← checked_password req.password found
    token ← issue u.id u.email
    pure (auth_response env.format_utc u token)
