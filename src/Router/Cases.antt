-- ===== src/Router/Cases.antt =====
-- What is shown of every handler behind `RequireAuth` is shown from its calls: it answers at once, it
-- answers with what a service has read, or it calls one of the operations that write
-- (internal/router/router.go and the handlers).
use secunda_homework.Base.{
  ◌⊎◌, inl, inr, ◌<◌, ◌≡◌, arith, if◌then◌else◌, ℕ, ℤ, Bool, true, false, Option, none, some,
}
use secunda_homework.Text.{Bytes}
use secunda_homework.Entity.Rows.{Task, Team}
use secunda_homework.Dto.Requests.{
  CreateTeamRequest, InviteRequest, CreateTaskRequest, UpdateTaskRequest, CreateCommentRequest,
  has_any_update,
}
use secunda_homework.Store.State.{World, Env}
use secunda_homework.Store.Monad.{M}
use secunda_homework.Store.Effects.{Reads, reads_rules}
use secunda_homework.Repository.Teams.{list_teams_by_user, list_members}
use secunda_homework.Repository.Comments.{list_comments}
use secunda_homework.Repository.Stats.{team_stats_last_week, top_creators_by_team, orphan_tasks}
use secunda_homework.Service.Teams
use secunda_homework.Service.Comments
use secunda_homework.Service.Stats
use secunda_homework.Service.Tasks
use secunda_homework.Service.Tasks.Effects.{
  Reads-require_member, Reads-visible_task, Reads-get, Reads-history, Reads-list,
}
use secunda_homework.Handler.{
  Response, answer, stop, with_path, create_task, get_task, list_tasks, update_task, delete_task,
  task_history, path_id, with_body, update_with,
}
use secunda_homework.Handler.Teams as team_routes
use secunda_homework.Handler.Comments as comment_routes
use secunda_homework.Handler.Stats as stats_routes
use secunda_homework.Router.{
  AuthedRoute, post_teams, get_teams, post_invite, get_members, post_tasks, get_tasks,
  get_task_by_id, put_task, delete_task_by_id, get_task_history, post_comments, get_comments,
  get_last_week, get_top_creators, get_orphan_tasks, Deps, run_authed,
}

module _ {R : Type 0} (env : Env) where
  pub Reads-list_teams : (user_id : ℕ) → Reads {R = R} (Teams.list env user_id)
  unfolding Teams.list list_teams_by_user
  Reads-list_teams user_id = search reads_rules

  pub Reads-list_members :
      (caller_id team_id : ℕ) → Reads {R = R} (Teams.list_members env caller_id team_id)
  unfolding Teams.list_members list_members
  Reads-list_members caller_id team_id = search (reads_rules, Reads-require_member)

  pub Reads-list_comments :
      (caller_id task_id : ℕ) → Reads {R = R} (Comments.list env caller_id task_id)
  unfolding Comments.list list_comments
  Reads-list_comments caller_id task_id = search (reads_rules, Reads-visible_task)

  pub Reads-last_week : Reads {R = R} (Stats.last_week env)
  unfolding Stats.last_week team_stats_last_week
  Reads-last_week = search reads_rules

  pub Reads-top_creators :
      (print : ℕ → Bytes) (since limit : ℤ)
      → Reads {R = R} (Stats.top_creators env print since limit)
  unfolding Stats.top_creators top_creators_by_team
  Reads-top_creators print since limit = search reads_rules

  pub Reads-orphans : Reads {R = R} (Stats.orphans env)
  unfolding Stats.orphans orphan_tasks
  Reads-orphans = search reads_rules

-- The routes that found a team.
abbrev pub founds : AuthedRoute → Bool
founds (post_teams body) = true
founds _ = false

-- The answer to a success is no error.
abbrev pub Succeeds : {A : Type 0} → (A → Response) → Type 0
Succeeds {A} show = (a : A) → (show a).status < 400

module _ {R L : Type 0} (deps : Deps R L) (uid : ℕ)
    (C : (World R → Response × World R) → Type 0) where
  pub record HandlerRules : Type 1 where
    pub stops : (r : Response) → C (stop r)
    pub reads :
        (A : Type 0) (show : A → Response) (m : M R A) → Succeeds show → Reads m → C (answer show m)
    pub creates :
        (show : Task → Response) (req : CreateTaskRequest)
        → Succeeds show
        → C (answer show (Tasks.create deps.env deps.cache uid req))
    pub updates :
        (show : Task → Response) (task_id : ℕ) (req : UpdateTaskRequest)
        → Succeeds show
        → C (answer show (Tasks.update deps.env deps.cache uid task_id req))
    pub deletes :
        (show : Unit {0} → Response) (task_id : ℕ)
        → Succeeds show
        → C (answer show (Tasks.delete deps.env deps.cache uid task_id))
    pub invites :
        (show : Unit {0} → Response) (team_id : ℕ) (req : InviteRequest)
        → Succeeds show
        → C (answer show (Teams.invite deps.env uid team_id req))
    pub posts :
        (show : ℕ → Response) (task_id : ℕ) (req : CreateCommentRequest)
        → Succeeds show
        → C (answer show (Comments.create deps.env uid task_id req))

  abbrev FoundsRule : Type 0
  FoundsRule =
      (show : Team → Response) (req : CreateTeamRequest)
      → Succeeds show
      → C (answer show (Teams.create deps.env uid req))

  module _ (rules : HandlerRules) where
    open rules use {stops, reads, creates, updates, deletes, invites, posts}

    on_path :
        (message : Bytes) (run : ℕ → World R → Response × World R) (o : Option ℕ)
        → ((id : ℕ) → C (run id))
        → C (with_path message run o)
    on_path message run none k = stops _
    on_path message run (some id) k = k id

    on_body :
        {A : Type 0} (run : A → World R → Response × World R) (o : Option A)
        → ((a : A) → C (run a))
        → C (with_body run o)
    on_body run none k = stops _
    on_body run (some a) k = k a

    on_if : (b : Bool) (f g : World R → Response × World R) → C f → C g → C (if b then f else g)
    on_if true f g k l = k
    on_if false f g k l = l

    on_update :
        (id : ℕ) (body : Option UpdateTaskRequest)
        → C (with_body (update_with deps.env deps.cache uid id) body)
    on_update id none = stops _
    on_update id (some req) =
        on_if (has_any_update req) _ _ (updates _ id req (λ a. omega arith)) (stops _)

    -- Every route, given the founding of a team or a route that founds none.
    pub each_route :
        (route : AuthedRoute) → FoundsRule ⊎ (founds route ≡ false) → C (run_authed deps uid route)
    unfolding run_authed create_task get_task list_tasks update_task delete_task task_history
        team_routes.create_team team_routes.list_teams team_routes.invite team_routes.list_members
        comment_routes.create_comment comment_routes.list_comments stats_routes.last_week
        stats_routes.top_creators stats_routes.orphans
    each_route (post_teams body) (inl rule) = on_body _ body (λ req. rule _ req (λ a. omega arith))
    each_route (post_teams body) (inr none_founded) = absurd cc
    each_route get_teams f = reads _ _ _ (λ a. omega arith) (Reads-list_teams deps.env uid)
    each_route (post_invite id body) f =
        on_path _ _ (path_id id)
          (λ team_id. on_body _ body (λ req. invites _ team_id req (λ a. omega arith)))
    each_route (get_members id) f =
        on_path _ _ (path_id id)
          (λ team_id. reads _ _ _ (λ a. omega arith) (Reads-list_members deps.env uid team_id))
    each_route (post_tasks body) f = on_body _ body (λ req. creates _ req (λ a. omega arith))
    each_route (get_tasks query) f =
        reads _ _ _ (λ a. omega arith) (Reads-list deps.env deps.cache uid _)
    each_route (get_task_by_id id) f =
        on_path _ _ (path_id id)
          (λ task_id. reads _ _ _ (λ a. omega arith) (Reads-get deps.env deps.cache uid task_id))
    each_route (put_task id body) f = on_path _ _ (path_id id) (λ task_id. on_update task_id body)
    each_route (delete_task_by_id id) f =
        on_path _ _ (path_id id) (λ task_id. deletes _ task_id (λ a. omega arith))
    each_route (get_task_history id) f =
        on_path _ _ (path_id id) (λ task_id.
          reads _ _ _ (λ a. omega arith) (Reads-history deps.env deps.cache uid task_id))
    each_route (post_comments id body) f =
        on_path _ _ (path_id id)
          (λ task_id. on_body _ body (λ req. posts _ task_id req (λ a. omega arith)))
    each_route (get_comments id) f =
        on_path _ _ (path_id id)
          (λ task_id. reads _ _ _ (λ a. omega arith) (Reads-list_comments deps.env uid task_id))
    each_route get_last_week f = reads _ _ _ (λ a. omega arith) (Reads-last_week deps.env)
    each_route (get_top_creators query) f =
        reads _ _ _ (λ a. omega arith) (Reads-top_creators deps.env deps.print _ _)
    each_route get_orphan_tasks f = reads _ _ _ (λ a. omega arith) (Reads-orphans deps.env)
