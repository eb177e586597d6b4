-- ===== src/Router/Outsiders.antt =====
-- The routes of one task (internal/router/router.go), asked by a user who is not in the task's team.
use secunda_homework.Base.{
  ℕ, ◌≤◌, Bool, true, false, Option, none, some, ◌≡◌, refl, sym, ◌∙◌, arith, any, find, any_of_find,
}
use secunda_homework.Text.{Bytes}
use secunda_homework.Entity.Rows.{Task}
use secunda_homework.Dto.Requests.{has_any_update}
use secunda_homework.Store.State.{Db, World}
use secunda_homework.Store.Monad.{Result, ok, err}
use secunda_homework.Store.Effects.{Reads-stop_if}
use secunda_homework.Repository.Teams.{is_member}
use secunda_homework.Repository.Tasks.{TaskPatch, has_id}
use secunda_homework.Service.Access.{visible_task}
use secunda_homework.Service.Access.Laws.{visible_task-ok}
use secunda_homework.Service.Tasks
use secunda_homework.Service.Comments
use secunda_homework.Middleware.{Outcome, missing_token, invalid, authenticated, require_auth}
use secunda_homework.Middleware.RateLimit.{PerUserLimiter}
use secunda_homework.Handler.{path_id, get_task, update_task, delete_task, task_history}
use secunda_homework.Handler.Comments as comment_routes
use secunda_homework.Handler.Denials.{
  is_err, Denied, Turns, Denied-bind, Denied-then, Turns-answer, Turns-bad, Turns-path, Turns-body,
  Turns-if,
}
use secunda_homework.Router.{
  AuthedRoute, post_teams, get_teams, post_invite, get_members, post_tasks, get_tasks,
  get_task_by_id, put_task, delete_task_by_id, get_task_history, post_comments, get_comments,
  get_last_week, get_top_creators, get_orphan_tasks, authed_request, Deps, App, run_authed,
  after_limit, rate_limit, after_auth, tick, serve,
}

-- The task that a route is about.
abbrev pub task_of : AuthedRoute → Option ℕ
task_of (get_task_by_id id) = path_id id
task_of (put_task id body) = path_id id
task_of (delete_task_by_id id) = path_id id
task_of (get_task_history id) = path_id id
task_of (post_comments id body) = path_id id
task_of (get_comments id) = path_id id
task_of (post_teams body) = none
task_of get_teams = none
task_of (post_invite id body) = none
task_of (get_members id) = none
task_of (post_tasks body) = none
task_of (get_tasks query) = none
task_of get_last_week = none
task_of (get_top_creators query) = none
task_of get_orphan_tasks = none

same_row : {t u : Task} → some t ≡ some u → t ≡ u
same_row h = cc

true-false : ¬ (true ≡ false)
true-false h = cc

module _ {R L : Type 0} (deps : Deps R L) (d : Db) (k uid : ℕ) (t : Task)
    (found : find (has_id k) d.tasks ≡ some t)
    (outside : any (is_member t.team_id uid) d.members ≡ false) where
  not_seen :
      (w : World R) (r : Result Task)
      → w.db ≡ d
      → (visible_task deps.env uid k w).0 ≡ r
      → is_err r ≡ true
  not_seen w (err e) same h = refl
  not_seen w (ok u) same h =
      let seen = visible_task-ok deps.env uid k w h in
      let same_task : u ≡ t = same_row (sym seen.0 ∙ rw same found) in
      absurd (
        true-false (
          sym (any_of_find (is_member u.team_id uid) w.db.members seen.1.1)
          ∙ rw (same, same_task) outside))

  Denied-visible : Denied {R = R} d (visible_task deps.env uid k)
  Denied-visible = record { denies = λ w same. not_seen w _ same refl }

  Denied-change :
      (patch : TaskPatch) → Denied {R = R} d (Tasks.change deps.env deps.cache uid k patch)
  unfolding Tasks.change
  Denied-change patch = Denied-bind _ _ Denied-visible

  Denied-patched :
      (o : Option (TaskPatch × Bool)) → Denied {R = R} d (Tasks.patched deps.env deps.cache uid k o)
  unfolding Tasks.get
  Denied-patched none = record { denies = λ w same. refl }
  Denied-patched (some (patch, true)) = Denied-change patch
  Denied-patched (some (patch, false)) = Denied-visible

  route-Turns : (route : AuthedRoute) → task_of route ≡ some k → Turns d (run_authed deps uid route)
  unfolding run_authed get_task update_task delete_task task_history comment_routes.create_comment
      comment_routes.list_comments Tasks.get Tasks.update Tasks.delete Tasks.history Comments.create
      Comments.list
  route-Turns (get_task_by_id id) e = Turns-path _ _ _ k e (Turns-answer _ _ Denied-visible)
  route-Turns (put_task id body) e = Turns-path _ _ _ k e (
      Turns-body _ body (λ req.
        Turns-if (has_any_update req) _ _ (Turns-answer _ _ (Denied-patched _)) (Turns-bad _)))
  route-Turns (delete_task_by_id id) e =
      Turns-path _ _ _ k e (Turns-answer _ _ (Denied-bind _ _ Denied-visible))
  route-Turns (get_task_history id) e =
      Turns-path _ _ _ k e (Turns-answer _ _ (Denied-bind _ _ Denied-visible))
  route-Turns (post_comments id body) e = Turns-path _ _ _ k e (
      Turns-body _ body (λ req.
        Turns-answer _ _
          (Denied-then _ _ (Reads-stop_if _ _) (λ x. Denied-bind _ _ Denied-visible))))
  route-Turns (get_comments id) e =
      Turns-path _ _ _ k e (Turns-answer _ _ (Denied-bind _ _ Denied-visible))
  route-Turns (post_teams body) e = cc
  route-Turns get_teams e = cc
  route-Turns (post_invite id body) e = cc
  route-Turns (get_members id) e = cc
  route-Turns (post_tasks body) e = cc
  route-Turns (get_tasks query) e = cc
  route-Turns get_last_week e = cc
  route-Turns (get_top_creators query) e = cc
  route-Turns get_orphan_tasks e = cc

module _ {R L : Type 0} (deps : Deps R L) where
  limited_turns :
      (uid k : ℕ) (t : Task) (route : AuthedRoute) (b : Bool × PerUserLimiter L) (w : World R)
      → task_of route ≡ some k
      → find (has_id k) w.db.tasks ≡ some t
      → any (is_member t.team_id uid) w.db.members ≡ false
      → 400 ≤ (after_limit deps uid route b w).0.status
  limited_turns uid k t route (true, l) w e f g =
      (route-Turns deps w.db k uid t f g route e).turns w refl
  limited_turns uid k t route (false, l) w e f g = omega arith

  authed_turns :
      (o : Outcome) (k : ℕ) (t : Task) (route : AuthedRoute) (a : App R L)
      → task_of route ≡ some k
      → find (has_id k) a.world.db.tasks ≡ some t
      → ((id : ℕ) (email : Bytes)
          → o ≡ authenticated id email
          → any (is_member t.team_id id) a.world.db.members ≡ false)
      → 400 ≤ (after_auth deps o route a).0.status
  unfolding rate_limit
  authed_turns missing_token k t route a e f out = omega arith
  authed_turns invalid k t route a e f out = omega arith
  authed_turns (authenticated id email) k t route a e f out =
      limited_turns id k t route _ _ e f (out id email refl)

  -- A request for a task, for its history or its comments, to change or delete it or to comment on
  -- it, is answered with a status of 400 or more, whatever calls fail, unless its token is that of
  -- a member of the task's team.
  pub serve_outsider :
      (header : Bytes) (route : AuthedRoute) (k : ℕ) (t : Task) (a : App R L)
      → task_of route ≡ some k
      → find (has_id k) a.world.db.tasks ≡ some t
      → ((id : ℕ) (email : Bytes)
          → require_auth deps.lib.jwt deps.lib.tokens (deps.env.clock a.world.step) header
            ≡ authenticated id email
          → any (is_member t.team_id id) a.world.db.members ≡ false)
      → 400 ≤ (serve deps (authed_request header route) a).0.status
  unfolding serve
  serve_outsider header route k t a e f out =
      authed_turns (require_auth deps.lib.jwt deps.lib.tokens (deps.env.clock a.world.step) header)
        k t route (tick deps a).1 e f out
