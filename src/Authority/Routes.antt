-- ===== src/Authority/Routes.antt =====
-- The requests of internal/router/router.go, each against the rights of the user that its token
-- names.
use secunda_homework.Base.{inl, ℕ, Bool, true, false, ◌≡◌, refl, Option, none, some}
use secunda_homework.Text.{Bytes}
use secunda_homework.Dto.Requests.{RegisterRequest, LoginRequest}
use secunda_homework.Store.State.{Db, World}
use secunda_homework.Store.Monad.{M}
use secunda_homework.Service.Auth.Laws.{Reads-login}
use secunda_homework.Middleware.{Outcome, missing_token, invalid, authenticated, require_auth}
use secunda_homework.Middleware.RateLimit.{PerUserLimiter}
use secunda_homework.Handler.{Response, answer}
use secunda_homework.Handler.Accounts
use secunda_homework.Router.{
  post_register, post_login, AuthedRoute, Request, open_request, authed_request, Deps, App, tick,
  run_public, run_authed, after_limit, rate_limit, after_auth, serve,
}
use secunda_homework.Router.Cases.{HandlerRules, each_route}
use secunda_homework.Authority.{Step, stay}
use secunda_homework.Authority.Acts.{
  Acts, Acts-Reads, Acts-invite, Acts-found, Acts-post, Acts-create, Acts-delete, Acts-update,
}
use secunda_homework.Authority.Accounts.{Join, unjoined, register-Join}

-- One step of a user, by a handler.
record Takes {R : Type 0} (uid : ℕ) (h : World R → Response × World R) : Type 0 where
  steps : (w : World R) → Step uid w.db w.seq (h w).1.db

Takes-Acts :
    {R A : Type 0} (uid : ℕ) (show : A → Response) (m : M R A)
    → Acts uid m
    → Takes uid (answer show m)
unfolding answer
Takes-Acts uid show m a = record { steps = λ w. a.steps w }

module _ {R L : Type 0} (deps : Deps R L) where
  -- The tables that a request may leave: those it found, those with a new account, or those that
  -- one step of the user makes whom the token names at the time that the clock tells.
  pub data Allowed (a : App R L) : Request → Db → Type 0 where
    unchanged : (q : Request) → Allowed a q a.world.db
    opened :
        (body : Option RegisterRequest) (d : Db)
        → Join deps.env a.world.db a.world.seq d
        → Allowed a (open_request (post_register body)) d
    acted :
        (header : Bytes) (route : AuthedRoute) (id : ℕ) (email : Bytes) (d : Db)
        → require_auth deps.lib.jwt deps.lib.tokens (deps.env.clock a.world.step) header
          ≡ authenticated id email
        → Step id a.world.db a.world.seq d
        → Allowed a (authed_request header route) d

  Takes-rules : (uid : ℕ) → HandlerRules deps uid (Takes uid)
  Takes-rules uid = record {
    stops = λ r. record { steps = λ w. stay };
    reads = λ A show m low r. Takes-Acts uid show m (Acts-Reads uid m r);
    creates = λ show req low. Takes-Acts uid show _ (Acts-create deps.env deps.cache uid req);
    updates = λ show task_id req low.
        Takes-Acts uid show _ (Acts-update deps.env deps.cache uid task_id req);
    deletes =
        λ show task_id low. Takes-Acts uid show _ (Acts-delete deps.env deps.cache uid task_id);
    invites = λ show team_id req low. Takes-Acts uid show _ (Acts-invite deps.env uid team_id req);
    posts = λ show task_id req low. Takes-Acts uid show _ (Acts-post deps.env uid task_id req);
  }

  run_authed-Takes : (uid : ℕ) (route : AuthedRoute) → Takes uid (run_authed deps uid route)
  run_authed-Takes uid route =
      each_route deps uid (Takes uid) (Takes-rules uid) route
        (inl (λ show req low. Takes-Acts uid show _ (Acts-found deps.env uid req)))

  after_limit-Step :
      (uid : ℕ) (route : AuthedRoute) (b : Bool × PerUserLimiter L) (w : World R)
      → Step uid w.db w.seq (after_limit deps uid route b w).1.world.db
  after_limit-Step uid route (true, l) w = (run_authed-Takes uid route).steps w
  after_limit-Step uid route (false, l) w = stay

  after_auth-Allowed :
      (header : Bytes) (route : AuthedRoute) (a : App R L) (o : Outcome)
      → require_auth deps.lib.jwt deps.lib.tokens (deps.env.clock a.world.step) header ≡ o
      → Allowed a (authed_request header route) (after_auth deps o route (tick deps a).1).1.world.db
  unfolding rate_limit
  after_auth-Allowed header route a missing_token e = unchanged _
  after_auth-Allowed header route a invalid e = unchanged _
  after_auth-Allowed header route a (authenticated id email) e =
      acted header route id email _ e (after_limit-Step id route _ _)

  registers :
      (body : Option RegisterRequest) (a : App R L)
      → Join deps.env a.world.db a.world.seq (Accounts.register deps.env deps.lib body a.world).1.db
  unfolding Accounts.register answer
  registers none a = unjoined
  registers (some req) a = register-Join deps.env deps.lib req a.world

  login_same :
      (body : Option LoginRequest) (w : World R)
      → (Accounts.login deps.env deps.lib body w).1.db ≡ w.db
  unfolding Accounts.login answer
  login_same none w = refl
  login_same (some req) w = (Reads-login deps.env deps.lib req).same w

  -- What a request does to the tables, with whatever call failing, is nothing, or the adding of an
  -- account by a registration, or one step of the user whom its valid token names.
  pub serve-Allowed : (q : Request) (a : App R L) → Allowed a q (serve deps q a).1.world.db
  unfolding serve run_public
  serve-Allowed (open_request (post_register body)) a = opened body _ (registers body a)
  serve-Allowed (open_request (post_login body)) a =
      rw (login_same body a.world) (unchanged (open_request (post_login body)))
  serve-Allowed (authed_request header route) a = after_auth-Allowed header route a _ refl
