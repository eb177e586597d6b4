-- ===== src/Handler/Accounts.antt =====
-- internal/handler/auth.go.
use secunda_homework.Base.{Option}
use secunda_homework.Dto.Requests.{RegisterRequest, LoginRequest}
use secunda_homework.Store.State.{World, Env}
use secunda_homework.Service.Auth
use secunda_homework.Service.Auth.{Libraries}
use secunda_homework.Handler.{Response, auth_body, answer, with_body}

module _ {R : Type 0} (env : Env) (lib : Libraries) where
  unfoldable pub register : Option RegisterRequest → World R → Response × World R
  register = with_body (λ req.
      answer (λ resp. record { status = 201; body = auth_body resp }) (Auth.register env lib req))

  unfoldable pub login : Option LoginRequest → World R → Response × World R
  login = with_body (λ req.
      answer (λ resp. record { status = 200; body = auth_body resp }) (Auth.login env lib req))
