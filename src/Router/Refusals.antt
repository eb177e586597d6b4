-- ===== src/Router/Refusals.antt =====
-- Requests that are answered with an error (internal/router/router.go and the handlers behind it).
use secunda_homework.Base.{inr, ℕ, suc, ◌≤◌, Bool, true, false, Option, ◌≡◌, refl, arith}
use secunda_homework.Dto.Requests.{LoginRequest}
use secunda_homework.Store.State.{World, Err}
use secunda_homework.Store.Monad.{M, err}
use secunda_homework.Store.Effects.{Reads, Atomic, Atomic-Reads}
use secunda_homework.Service.Teams.Laws.{invite_atomic}
use secunda_homework.Service.Comments.Laws.{post_atomic}
use secunda_homework.Service.Auth.Laws.{Reads-login}
use secunda_homework.Service.Tasks.Effects.{update_atomic, create_task_atomic, delete_atomic}
use secunda_homework.Middleware.{Outcome, missing_token, invalid, authenticated}
use secunda_homework.Middleware.RateLimit.{PerUserLimiter}
use secunda_homework.Handler.{Response, answer}
use secunda_homework.Handler.Accounts
use secunda_homework.Handler.Refusals.{Refuses, Refuses-answer, Refuses-stop, Refuses-with_body}
use secunda_homework.Router.{
  post_register, post_login, AuthedRoute, Request, open_request, authed_request, Deps, App,
  run_public, run_authed, after_limit, rate_limit, after_auth, serve,
}
use secunda_homework.Router.Cases.{HandlerRules, each_route, founds}

-- The insert of an account is followed by the signing of a token, and that of a team by the insert
-- of its founder.
abbrev pub may_leave_rows : Request → Bool
may_leave_rows (open_request (post_register body)) = true
may_leave_rows (open_request (post_login body)) = false
may_leave_rows (authed_request header route) = founds route

Atomic-of :
    {R A : Type 0} (m : M R A)
    → ((w : World R) (e : Err) → (m w).0 ≡ err e → (m w).1.db ≡ w.db)
    → Atomic m
Atomic-of m f = record { undone = λ w. f w _ }

Refuses-Reads :
    {R A : Type 0} (n : ℕ) (show : A → Response) (m : M R A)
    → ((a : A) → (show a).status ≡ n)
    → suc n ≤ 400
    → Reads m
    → Refuses (answer show m)
Refuses-Reads n show m status low r =
    Refuses-answer show m (λ a. rw (status a) low) (Atomic-Reads m r)

module _ {R L : Type 0} (deps : Deps R L)
    (results_hold : (n : ℕ) → deps.env.result_fails n ≡ false) where
  Refuses-login :
      (body : Option LoginRequest) → Refuses {R = R} (Accounts.login deps.env deps.lib body)
  unfolding Accounts.login
  Refuses-login body =
      Refuses-with_body _ body
        (λ req. Refuses-Reads 200 _ _ (λ a. refl) (omega arith) (Reads-login deps.env deps.lib req))

  Refuses-rules : (uid : ℕ) → HandlerRules deps uid Refuses
  Refuses-rules uid = record {
    stops = Refuses-stop;
    reads = λ A show m low r. Refuses-answer show m low (Atomic-Reads m r);
    creates = λ show req low.
        Refuses-answer show _ low (
          Atomic-of _ (λ w e h. create_task_atomic deps.env deps.cache results_hold uid req w e h));
    updates = λ show task_id req low.
        Refuses-answer show _ low
          (Atomic-of _ (λ w e h. update_atomic deps.env deps.cache uid task_id req w e h));
    deletes = λ show task_id low.
        Refuses-answer show _ low
          (Atomic-of _ (λ w e h. delete_atomic deps.env deps.cache results_hold uid task_id w e h));
    invites = λ show team_id req low.
        Refuses-answer show _ low
          (Atomic-of _ (λ w e h. invite_atomic deps.env uid team_id req w e h));
    posts = λ show task_id req low.
        Refuses-answer show _ low
          (Atomic-of _ (λ w e h. post_atomic deps.env uid task_id req w e results_hold h));
  }

  Refuses-authed :
      (uid : ℕ) (route : AuthedRoute) → founds route ≡ false → Refuses (run_authed deps uid route)
  Refuses-authed uid route f = each_route deps uid Refuses (Refuses-rules uid) route (inr f)

  after_limit_refused :
      (uid : ℕ) (route : AuthedRoute) (b : Bool × PerUserLimiter L) (w : World R)
      → founds route ≡ false
      → 400 ≤ (after_limit deps uid route b w).0.status
      → (after_limit deps uid route b w).1.world.db ≡ w.db
  after_limit_refused uid route (true, l) w f h = (Refuses-authed uid route f).refused w h
  after_limit_refused uid route (false, l) w f h = refl

  after_auth_refused :
      (o : Outcome) (route : AuthedRoute) (a : App R L)
      → founds route ≡ false
      → 400 ≤ (after_auth deps o route a).0.status
      → (after_auth deps o route a).1.world.db ≡ a.world.db
  unfolding rate_limit
  after_auth_refused missing_token route a f h = refl
  after_auth_refused invalid route a f h = refl
  after_auth_refused (authenticated id email) route a f h = after_limit_refused id route _ _ f h

  -- With a driver whose results do not fail, a request that is answered with a status of 400 or
  -- more, whatever call failed, has changed no table, unless it registers an account or founds a
  -- team.
  pub serve_refused :
      (q : Request) (a : App R L)
      → may_leave_rows q ≡ false
      → 400 ≤ (serve deps q a).0.status
      → (serve deps q a).1.world.db ≡ a.world.db
  unfolding serve run_public
  serve_refused (open_request (post_register body)) a f h = absurd cc
  serve_refused (open_request (post_login body)) a f h = (Refuses-login body).refused a.world h
  serve_refused (authed_request header route) a f h = after_auth_refused _ route _ f h
