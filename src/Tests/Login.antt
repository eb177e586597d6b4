-- ===== src/Tests/Login.antt =====
-- Login at concrete requests.
use secunda_homework.Base.{true, false, none, some, pos, map, ◌≡◌, inr, refl, find}
use secunda_homework.Text.{codes, beq, trim_space, lower_byte, format_uint}
use secunda_homework.Dto.Requests.{LoginRequest}
use secunda_homework.Dto.Responses.{AuthResponse}
use secunda_homework.Dto.Validation.{validate_login}
use secunda_homework.Store.State.{invalid_credentials}
use secunda_homework.Store.Monad.{ok, err}
use secunda_homework.Password.{Bcrypt, new_password_hasher}
use secunda_homework.Token.{Jwt, TokenManager, refused, issue_at, new_claims}
use secunda_homework.Service.Auth.{Libraries, auth_response, login}
use secunda_homework.Service.Auth.Laws.{user_with, IsLoggedIn, login_refuses, login-IsLoggedIn}
use secunda_homework.Tests.{calm, start, tables, bob}

-- Stand-ins for the libraries. A token is its subject.
abbrev pub manager : TokenManager
manager = record { secret = codes "k"; issuer = codes "app"; ttl = pos 1000 }

abbrev pub plain_jwt : Jwt
plain_jwt = record {
  numeric_date = λ t. t;
  sign = λ key c. some c.subject;
  parse = λ key_of issuer slack at token. refused false false;
}

-- A hash is its password.
abbrev plain_bcrypt : Bcrypt
plain_bcrypt = record {
  min_cost = pos 4;
  max_cost = pos 31;
  default_cost = pos 10;
  generate = λ plain cost. some plain;
  compare = beq;
}

abbrev pub plain : Libraries
plain = record {
  to_lower = map lower_byte;
  parses_address = λ s. true;
  bcrypt = plain_bcrypt;
  hasher = new_password_hasher plain_bcrypt (pos 0);
  jwt = plain_jwt;
  tokens = manager;
}

abbrev right_password : LoginRequest
right_password = record { email = codes " Bob@x.io"; password = codes "h1" }

abbrev wrong_password : LoginRequest
wrong_password = record right_password { password = codes "h2" }

abbrev logged_in : AuthResponse
logged_in = auth_response format_uint bob (codes "2")

bob_logs_in : (login calm plain right_password start).0 ≡ ok logged_in
unfolding login beq find format_uint secunda_homework.Repository.Users.find_user_by_email
    secunda_homework.Service.Auth.checked_password secunda_homework.Service.Auth.issue
    secunda_homework.Store.Calls.now secunda_homework.Store.Calls.query
    secunda_homework.Store.Monad.◌>>=◌ trim_space validate_login secunda_homework.Token.issue_at
    secunda_homework.Token.new_claims
bob_logs_in = refl

login-IsLoggedIn_example :
    IsLoggedIn calm plain right_password tables
      (login calm plain right_password start).1.db
      logged_in
login-IsLoggedIn_example = login-IsLoggedIn calm plain right_password start logged_in bob_logs_in

wrong_password_valid : validate_login (λ s. true) wrong_password ≡ none
unfolding validate_login trim_space
wrong_password_valid = refl

wrong_password_user : user_with calm plain tables wrong_password.email ≡ some bob
unfolding find beq trim_space
wrong_password_user = refl

wrong_password_differs : beq bob.password_hash wrong_password.password ≡ false
unfolding beq
wrong_password_differs = refl

login_refuses_example :
    ((login calm plain wrong_password start).0 ≡ err invalid_credentials)
    × ((login calm plain wrong_password start).1.db ≡ tables)
login_refuses_example =
    login_refuses calm plain wrong_password start wrong_password_valid refl
      (inr (bob, wrong_password_user, wrong_password_differs))
