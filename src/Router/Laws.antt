-- ===== src/Router/Laws.antt =====
-- What the program keeps of the tables from request to request.
use secunda_homework.Base.{inl, ℕ, Bool, true, false, List, [], ◌∷◌}
use secunda_homework.Dto.Requests.{UpdateTaskRequest}
use secunda_homework.Store.State.{Db, Seq, World}
use secunda_homework.Store.Keeps.{Keeps, Keeps-Reads}
use secunda_homework.Service.Auth.Laws.{Reads-login}
use secunda_homework.Middleware.{Outcome, missing_token, invalid, authenticated}
use secunda_homework.Middleware.RateLimit.{PerUserLimiter}
use secunda_homework.Handler.Accounts
use secunda_homework.Handler.Keeps.{Serves, Serves-answer, Serves-stop, Serves-with_body}
use secunda_homework.Invariant.{IsSound}
use secunda_homework.Invariant.Services.{
  Keeps-register, Keeps-create_team, Keeps-invite, Keeps-post, Keeps-create_task, Keeps-delete_task,
}
use secunda_homework.Invariant.Updates.{Keeps-update_task}
use secunda_homework.Invariant.Laws.{StatementLaws, IsSound-StatementLaws}
use secunda_homework.Service.Tasks
use secunda_homework.Router.{
  PublicRoute, post_register, post_login, AuthedRoute, Request, open_request, authed_request, Deps,
  App, run_public, run_authed, after_limit, rate_limit, after_auth, serve, serve_all,
}
use secunda_homework.Router.Cases.{HandlerRules, each_route}

module _ {R L : Type 0} (deps : Deps R L) {P : Db → Seq → Type 0} (laws : StatementLaws deps.env P)
    (updates : (actor_id task_id : ℕ) (req : UpdateTaskRequest)
      → Keeps P (Tasks.update deps.env deps.cache actor_id task_id req)) where
  Serves-public : (route : PublicRoute) → Serves P (run_public deps route)
  unfolding run_public Accounts.register Accounts.login
  Serves-public (post_register body) =
      Serves-with_body _ body (λ req. Serves-answer _ _ (Keeps-register deps.env laws deps.lib req))
  Serves-public (post_login body) =
      Serves-with_body _ body
        (λ req. Serves-answer _ _ (Keeps-Reads _ (Reads-login deps.env deps.lib req)))

  Serves-rules : (uid : ℕ) → HandlerRules deps uid (Serves P)
  Serves-rules uid = record {
    stops = Serves-stop;
    reads = λ A show m low r. Serves-answer show m (Keeps-Reads m r);
    creates =
        λ show req low. Serves-answer show _ (Keeps-create_task deps.env deps.cache laws uid req);
    updates = λ show task_id req low. Serves-answer show _ (updates uid task_id req);
    deletes = λ show task_id low.
        Serves-answer show _ (Keeps-delete_task deps.env deps.cache laws uid task_id);
    invites =
        λ show team_id req low. Serves-answer show _ (Keeps-invite deps.env laws uid team_id req);
    posts = λ show task_id req low. Serves-answer show _ (Keeps-post deps.env laws uid task_id req);
  }

  Serves-authed : (uid : ℕ) (route : AuthedRoute) → Serves P (run_authed deps uid route)
  Serves-authed uid route =
      each_route deps uid (Serves P) (Serves-rules uid) route
        (inl (λ show req low. Serves-answer show _ (Keeps-create_team deps.env laws uid req)))

  abbrev Holds : App R L → Type 0
  Holds a = P a.world.db a.world.seq

  after_limit-Holds :
      (uid : ℕ) (route : AuthedRoute) (b : Bool × PerUserLimiter L) (w : World R)
      → P w.db w.seq
      → Holds (after_limit deps uid route b w).1
  after_limit-Holds uid route (true, l) w h = ((Serves-authed uid route).serves w h).0
  after_limit-Holds uid route (false, l) w h = h

  rate_limit-Holds :
      (uid : ℕ) (route : AuthedRoute) (a : App R L)
      → Holds a
      → Holds (rate_limit deps uid route a).1
  unfolding rate_limit
  rate_limit-Holds uid route a h = after_limit-Holds uid route _ _ h

  after_auth-Holds :
      (o : Outcome) (route : AuthedRoute) (a : App R L)
      → Holds a
      → Holds (after_auth deps o route a).1
  after_auth-Holds missing_token route a h = h
  after_auth-Holds invalid route a h = h
  after_auth-Holds (authenticated id email) route a h = rate_limit-Holds id route a h

  pub serve-Holds : (q : Request) (a : App R L) → Holds a → Holds (serve deps q a).1
  unfolding serve
  serve-Holds (open_request route) a h = ((Serves-public route).serves a.world h).0
  serve-Holds (authed_request header route) a h = after_auth-Holds _ route _ h

  -- What the statements and the update of a task keep, the program keeps.
  pub serve_all-Holds : (qs : List Request) (a : App R L) → Holds a → Holds (serve_all deps qs a)
  unfolding serve_all
  serve_all-Holds [] a h = h
  serve_all-Holds (q ∷ qs) a h = serve_all-Holds qs (serve deps q a).1 (serve-Holds q a h)

-- Whatever requests the program serves, one after another, with whatever calls failing, tables that
-- are sound stay sound: keys are in order and below the next key, no two users have addresses that
-- the collation makes equal, no membership is double, every reference is to a row, and every role,
-- status, title, team name and comment is one that the checks accept.
pub serve_all-IsSound :
    {R L : Type 0} (deps : Deps R L) (qs : List Request) (a : App R L)
    → IsSound deps.env a.world.db a.world.seq
    → IsSound deps.env (serve_all deps qs a).world.db (serve_all deps qs a).world.seq
serve_all-IsSound deps qs a h =
    serve_all-Holds deps (IsSound-StatementLaws deps.env) (Keeps-update_task deps.env deps.cache) qs
      a h

pub serve-IsSound :
    {R L : Type 0} (deps : Deps R L) (q : Request) (a : App R L)
    → IsSound deps.env a.world.db a.world.seq
    → IsSound deps.env (serve deps q a).1.world.db (serve deps q a).1.world.seq
serve-IsSound deps q a h =
    serve-Holds deps (IsSound-StatementLaws deps.env) (Keeps-update_task deps.env deps.cache) q a h
