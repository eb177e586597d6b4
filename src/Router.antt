-- ===== src/Router.antt =====
-- internal/router/router.go: the routes under /api/v1. A request is the route that gin has matched,
-- with the path parameter, the query, what the JSON binding makes of the body, and the
-- Authorization header.
pub mod Cases
pub mod Table
pub mod Outsiders
pub mod Counted
pub mod Laws
pub mod Trail
pub mod Refusals
use secunda_homework.Base.{ℕ, Bool, true, false, Option, List, [], ◌∷◌}
use secunda_homework.Text.{Bytes, codes}
use secunda_homework.Cache.{Cache}
use secunda_homework.Dto.Requests.{
  RegisterRequest, LoginRequest, CreateTeamRequest, InviteRequest, CreateTaskRequest,
  UpdateTaskRequest, CreateCommentRequest,
}
use secunda_homework.Store.State.{World, Env, next_step}
use secunda_homework.Service.Auth.{Libraries}
use secunda_homework.Middleware.{Outcome, missing_token, invalid, authenticated, require_auth}
use secunda_homework.Middleware.RateLimit.{Buckets, PerUserLimiter, allow_user}
use secunda_homework.Handler.{
  Response, refusal, text, code_unauthorized, code_rate_limited, create_task, get_task, list_tasks,
  update_task, delete_task, task_history,
}
use secunda_homework.Handler.Accounts
use secunda_homework.Handler.Teams
use secunda_homework.Handler.Comments
use secunda_homework.Handler.Stats

pub data PublicRoute : Type 0 where
  post_register : Option RegisterRequest → PublicRoute
  post_login : Option LoginRequest → PublicRoute

-- The routes behind `RequireAuth` and `RateLimit`.
pub data AuthedRoute : Type 0 where
  post_teams : Option CreateTeamRequest → AuthedRoute
  get_teams : AuthedRoute
  post_invite : Bytes → Option InviteRequest → AuthedRoute
  get_members : Bytes → AuthedRoute
  post_tasks : Option CreateTaskRequest → AuthedRoute
  get_tasks : (Bytes → Bytes) → AuthedRoute
  get_task_by_id : Bytes → AuthedRoute
  put_task : Bytes → Option UpdateTaskRequest → AuthedRoute
  delete_task_by_id : Bytes → AuthedRoute
  get_task_history : Bytes → AuthedRoute
  post_comments : Bytes → Option CreateCommentRequest → AuthedRoute
  get_comments : Bytes → AuthedRoute
  get_last_week : AuthedRoute
  get_top_creators : (Bytes → Bytes) → AuthedRoute
  get_orphan_tasks : AuthedRoute

pub data Request : Type 0 where
  open_request : PublicRoute → Request
  authed_request : (header : Bytes) → AuthedRoute → Request

-- What the program is put together from: the services' libraries, the cache, the buckets of the
-- limiter, and how the database prints a time.
pub record Deps (R L : Type 0) : Type 0 where
  pub env : Env
  pub lib : Libraries
  pub cache : Option (Cache R)
  pub buckets : Buckets L
  pub print : ℕ → Bytes

pub record App (R L : Type 0) : Type 0 where
  pub world : World R
  pub limiter : PerUserLimiter L

abbrev unauthorized : Bytes → Response
unauthorized message = refusal 401 code_unauthorized (text message)

module _ {R L : Type 0} (deps : Deps R L) where
  unfoldable pub run_public : PublicRoute → World R → Response × World R
  run_public (post_register body) = Accounts.register deps.env deps.lib body
  run_public (post_login body) = Accounts.login deps.env deps.lib body

  unfoldable pub run_authed : ℕ → AuthedRoute → World R → Response × World R
  run_authed uid (post_teams body) = Teams.create_team deps.env uid body
  run_authed uid get_teams = Teams.list_teams deps.env uid
  run_authed uid (post_invite id body) = Teams.invite deps.env uid id body
  run_authed uid (get_members id) = Teams.list_members deps.env uid id
  run_authed uid (post_tasks body) = create_task deps.env deps.cache uid body
  run_authed uid (get_tasks query) = list_tasks deps.env deps.cache uid query
  run_authed uid (get_task_by_id id) = get_task deps.env deps.cache uid id
  run_authed uid (put_task id body) = update_task deps.env deps.cache uid id body
  run_authed uid (delete_task_by_id id) = delete_task deps.env deps.cache uid id
  run_authed uid (get_task_history id) = task_history deps.env deps.cache uid id
  run_authed uid (post_comments id body) = Comments.create_comment deps.env uid id body
  run_authed uid (get_comments id) = Comments.list_comments deps.env uid id
  run_authed uid get_last_week = Stats.last_week deps.env
  run_authed uid (get_top_creators query) = Stats.top_creators deps.env deps.print query
  run_authed uid get_orphan_tasks = Stats.orphans deps.env

  -- The clock, outside the database.
  abbrev pub tick : App R L → ℕ × App R L
  tick a = (deps.env.clock a.world.step, record a { world = next_step a.world })

  abbrev pub after_limit : ℕ → AuthedRoute → Bool × PerUserLimiter L → World R → Response × App R L
  after_limit uid route (false, l) w = (
    refusal 429 code_rate_limited (text (codes "too many requests")),
    record { world = w; limiter = l },
  )
  after_limit uid route (true, l) w =
      let (r, w') = run_authed uid route w in (r, record { world = w'; limiter = l })

  -- `RateLimit`, which reads the clock in `get` and in `Allow`.
  unfoldable pub rate_limit : ℕ → AuthedRoute → App R L → Response × App R L
  rate_limit uid route a =
      let (used, a1) = tick a in
      let (at, a2) = tick a1 in
      after_limit uid route (allow_user deps.buckets used at uid a2.limiter) a2.world

  abbrev pub after_auth : Outcome → AuthedRoute → App R L → Response × App R L
  after_auth missing_token route a = (unauthorized (codes "missing bearer token"), a)
  after_auth invalid route a = (unauthorized (codes "invalid token"), a)
  after_auth (authenticated id email) route a = rate_limit id route a

  unfoldable pub serve : Request → App R L → Response × App R L
  serve (open_request route) a =
      let (r, w') = run_public route a.world in (r, record a { world = w' })
  serve (authed_request header route) a =
      let (at, a1) = tick a in
      after_auth (require_auth deps.lib.jwt deps.lib.tokens at header) route a1

  -- The requests that the program serves, one after another.
  unfoldable pub serve_all : List Request → App R L → App R L
  serve_all [] a = a
  serve_all (q ∷ qs) a = serve_all qs (serve q a).1
