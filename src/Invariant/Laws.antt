-- ===== src/Invariant/Laws.antt =====
-- What the statements that write must keep of a property of the tables, for the operations to keep
-- it: rows are inserted with the texts, roles and statuses that the checks accept.
use secunda_homework.Base.{ℕ, true, ◌≡◌}
use secunda_homework.Entity.Role
use secunda_homework.Entity.TaskStatus
use secunda_homework.Entity.Rows.{User, Team, TeamMember, Task, TaskComment}
use secunda_homework.Store.State.{Db, Seq, Env}
use secunda_homework.Store.Keeps.{Writes}
use secunda_homework.Repository.Users
use secunda_homework.Repository.Teams
use secunda_homework.Repository.Tasks
use secunda_homework.Repository.Comments
use secunda_homework.Invariant.{IsText, IsSound}
use secunda_homework.Invariant.Statements.{
  Writes-insert_user, Writes-insert_team, Writes-insert_member,
}
use secunda_homework.Invariant.Tasks.{Writes-delete_task}
use secunda_homework.Invariant.Inserts.{Writes-insert_task, Writes-insert_comment}

pub record StatementLaws (env : Env) (P : Db → Seq → Type 0) : Type 0 where
  pub insert_user :
      (u : User) (at : ℕ) (d : Db) (s : Seq) → P d s → Writes P s (Users.insert_user env u at d s)
  pub insert_team :
      (t : Team) (at : ℕ) (d : Db) (s : Seq)
      → IsText 100 t.name
      → P d s
      → Writes P s (Teams.insert_team t at d s)
  pub insert_member :
      (m : TeamMember) (at : ℕ) (d : Db) (s : Seq)
      → Role.is_valid m.role ≡ true
      → P d s
      → Writes P s (Teams.insert_member m at d s)
  pub insert_task :
      (t : Task) (at : ℕ) (d : Db) (s : Seq)
      → IsText 255 t.title
      → TaskStatus.is_valid t.status ≡ true
      → P d s
      → Writes P s (Tasks.insert_task t at d s)
  pub delete_task :
      (id at : ℕ) (d : Db) (s : Seq)
      → P d s
      → Writes P s (Tasks.delete_task env.column_time id at d s)
  pub insert_comment :
      (c : TaskComment) (at : ℕ) (d : Db) (s : Seq)
      → IsText 4000 c.body
      → P d s
      → Writes P s (Comments.insert_comment c at d s)

pub IsSound-StatementLaws : (env : Env) → StatementLaws env (IsSound env)
IsSound-StatementLaws env = record {
  insert_user = Writes-insert_user env;
  insert_team = Writes-insert_team env;
  insert_member = Writes-insert_member env;
  insert_task = Writes-insert_task env;
  delete_task = Writes-delete_task env;
  insert_comment = Writes-insert_comment env;
}
