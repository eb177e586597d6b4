-- ===== src/Repository/Inserts.antt =====
-- What a successful INSERT has done: one row at the end of its table, under the next key.
use secunda_homework.Base.{ℕ, true, false, [], ◌∷◌, ◌++◌, ◌≡◌, arith, any, find, ◌==◌, none, some}
use secunda_homework.Text.{Bytes}
use secunda_homework.Entity.Rows.{User, Team, TeamMember, Task, TaskComment}
use secunda_homework.Store.State.{World, Env}
use secunda_homework.Store.Monad.{ok, ◌>>=◌}
use secunda_homework.Store.Calls.{exec, check_result, query}
use secunda_homework.Repository.Rows.{user_exists, team_exists}
use secunda_homework.Repository.Users.{has_email, insert_user, user_row, create_user, find_user}
use secunda_homework.Repository.Teams.{
  is_member, insert_team, insert_member, create_team, add_member, find_team,
}
use secunda_homework.Repository.Tasks.{insert_task, task_row, create_task}
use secunda_homework.Repository.Comments.{insert_comment, comment_row, create_comment}

module _ {R : Type 0} (env : Env) where
  pub create_comment-ok :
      (c : TaskComment) (w : World R) {id : ℕ}
      → (create_comment env c w).0 ≡ ok id
      → (id ≡ w.seq.comment)
        × ((create_comment env c w).1.db ≡ record w.db {
          comments =
              w.db.comments ++ (record (comment_row env.column_time c) { id = w.seq.comment }) ∷ [];
        })
  unfolding create_comment insert_comment exec check_result ◌>>=◌
  create_comment-ok c w h = (ground arith, ground arith)

  pub create_task-ok :
      (t : Task) (w : World R) {id : ℕ}
      → (create_task env t w).0 ≡ ok id
      → (id ≡ w.seq.task)
        × ((create_task env t w).1.db ≡ record w.db {
          tasks =
              w.db.tasks
              ++ (record (task_row env.column_time t) { id = w.seq.task; deleted_at = none }) ∷ [];
        })
  unfolding create_task insert_task exec check_result ◌>>=◌
  create_task-ok t w h = (ground arith, ground arith)

  pub create_team-ok :
      (t : Team) (w : World R) {id : ℕ}
      → (create_team env t w).0 ≡ ok id
      → (id ≡ w.seq.team)
        × ((create_team env t w).1.db ≡ record w.db {
          teams =
              w.db.teams
              ++ (record t {
                id = w.seq.team;
                created_at = env.column_time t.created_at;
                updated_at = env.column_time t.updated_at;
              })
                ∷ [];
        })
  unfolding create_team insert_team exec check_result ◌>>=◌
  create_team-ok t w h = (ground arith, ground arith)

  -- A member that is added was not one before, and the user and the team exist.
  pub add_member-ok :
      (m : TeamMember) (w : World R)
      → (add_member env m w).0 ≡ ok tt
      → (any (is_member m.team_id m.user_id) w.db.members ≡ false)
        × (user_exists m.user_id w.db.users ≡ true)
        × (team_exists m.team_id w.db.teams ≡ true)
        × ((add_member env m w).1.db ≡ record w.db {
          members = w.db.members ++ (record m { joined_at = env.column_time m.joined_at }) ∷ [];
        })
  unfolding add_member insert_member exec
  add_member-ok m w h = (ground arith, ground arith, ground arith, ground arith)

  -- A user that is created has an email that no row had before.
  pub create_user-ok :
      (to_lower : Bytes → Bytes) (u : User) (w : World R) {id : ℕ}
      → (create_user env to_lower u w).0 ≡ ok id
      → (id ≡ w.seq.user)
        × (any (has_email env (user_row env to_lower u).email) w.db.users ≡ false)
        × ((create_user env to_lower u w).1.db ≡ record w.db {
          users = w.db.users ++ (record (user_row env to_lower u) { id = w.seq.user }) ∷ [];
        })
  unfolding create_user insert_user exec check_result ◌>>=◌
  create_user-ok to_lower u w h = (ground arith, ground arith, ground arith)

  pub find_user-ok :
      (id : ℕ) (w : World R) {u : User}
      → (find_user env id w).0 ≡ ok u
      → find (λ v. v.id == id) w.db.users ≡ some u
  unfolding find_user query
  find_user-ok id w h = ground arith

  pub find_team-ok :
      (id : ℕ) (w : World R) {t : Team}
      → (find_team env id w).0 ≡ ok t
      → find (λ v. v.id == id) w.db.teams ≡ some t
  unfolding find_team query
  find_team-ok id w h = ground arith
