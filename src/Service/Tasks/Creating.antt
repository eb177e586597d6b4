-- ===== src/Service/Tasks/Creating.antt =====
-- When a task is created, and with which fields.
use secunda_homework.Base.{ℕ, suc, false, true, ◌==◌, Option, none, some, ◌≡◌, find, any_of_find}
use secunda_homework.Text.{trim_space}
use secunda_homework.Entity.Rows.{User, Team, TeamMember}
use secunda_homework.Dto.Requests.{CreateTaskRequest}
use secunda_homework.Cache.{Cache}
use secunda_homework.Store.State.{World, Env}
use secunda_homework.Store.Monad.{ok, ◌>>=◌}
use secunda_homework.Store.Calls.{now, query, exec, check_result}
use secunda_homework.Repository.Rows.{team_exists, user_exists, assignee_exists, on_duplicate, wrap}
use secunda_homework.Repository.Teams.{is_member, get_member}
use secunda_homework.Repository.Tasks.{create_task, insert_task}
use secunda_homework.Service.Access.{not_found_as, require_member}
use secunda_homework.Service.Tasks.{is_refused, create}

module _ {R : Type 0} (env : Env) (cache : Option (Cache R)) where
  -- While neither a call of the driver nor a result fails, a task request that is not refused, from
  -- a registered member of an existing team and with an assignee who exists or none, returns a task
  -- with the next key, the team, the description, the status and the assignee of the request, its
  -- title trimmed, the caller as creator, and the times of the two calls of the clock.
  pub create_task_succeeds :
      (actor_id : ℕ) (req : CreateTaskRequest) (w : World R) (t : Team) (u : User) (m : TeamMember)
      → ((n : ℕ) → env.db_fails n ≡ false)
      → ((n : ℕ) → env.result_fails n ≡ false)
      → is_refused req ≡ false
      → find (is_member req.team_id actor_id) w.db.members ≡ some m
      → find (λ v. v.id == req.team_id) w.db.teams ≡ some t
      → find (λ v. v.id == actor_id) w.db.users ≡ some u
      → assignee_exists req.assignee_id w.db.users ≡ true
      → (create env cache actor_id req w).0
        ≡ ok (record {
          id = w.seq.task;
          team_id = req.team_id;
          title = trim_space req.title;
          description = req.description;
          status = req.status;
          assignee_id = req.assignee_id;
          created_by = actor_id;
          created_at = env.clock (suc w.step);
          updated_at = env.clock (suc (suc w.step));
          deleted_at = none;
        })
  unfolding create require_member get_member query now create_task exec insert_task check_result
      on_duplicate wrap not_found_as team_exists user_exists ◌>>=◌
  create_task_succeeds actor_id req w t u m q s fits belongs exists known assignable =
      let registered = any_of_find (λ v. v.id == actor_id) w.db.users known in
      let founded = any_of_find (λ v. v.id == req.team_id) w.db.teams exists in
      simp (fits, q, s, belongs, founded, registered, assignable)
