-- ===== src/Invariant.antt =====
-- What holds of the tables whatever the program has served: keys are in order and below the next
-- key, emails and memberships do not repeat, rows refer to rows, and every text and enumerated value
-- is one that the checks accept.
pub mod Tables
pub mod Statements
pub mod Tasks
pub mod Inserts
pub mod Calls
pub mod Services
pub mod Laws
pub mod Updates
pub mod Trail
pub mod Entries
pub mod Audit
pub mod Recorded
use secunda_homework.Base.{
  ℕ, zero, suc, ◌≤◌, Bool, true, false, Option, none, some, List, ◌≡◌, length, All,
}
use secunda_homework.Text.{Bytes, is_empty, trim_space}
use secunda_homework.Entity.Role
use secunda_homework.Entity.TaskStatus
use secunda_homework.Entity.Rows.{User, Team, TeamMember, Task, TaskHistory, TaskComment}
use secunda_homework.Store.State.{Db, Seq, Env}
use secunda_homework.Repository.Rows.{user_exists, team_exists, task_exists, assignee_exists}
use secunda_homework.Repository.Teams.{is_member}
use secunda_homework.Invariant.Tables.{Keyed, Pairwise}

-- A trimmed text of 1 to so many bytes.
abbrev pub IsText : ℕ → Bytes → Type 0
IsText max s = (is_empty s ≡ false) × (trim_space s ≡ s) × (length s ≤ max)

abbrev pub IsTeamRow : List User → Team → Type 0
IsTeamRow users t = IsText 100 t.name × (user_exists t.created_by users ≡ true)

abbrev pub IsMemberRow : List User → List Team → TeamMember → Type 0
IsMemberRow users teams m =
    (Role.is_valid m.role ≡ true)
    × (user_exists m.user_id users ≡ true)
    × (team_exists m.team_id teams ≡ true)

abbrev pub IsTaskRow : List User → List Team → Task → Type 0
IsTaskRow users teams t =
    IsText 255 t.title
    × (TaskStatus.is_valid t.status ≡ true)
    × (team_exists t.team_id teams ≡ true)
    × (user_exists t.created_by users ≡ true)
    × (assignee_exists t.assignee_id users ≡ true)

abbrev pub IsHistoryRow : List User → List Task → TaskHistory → Type 0
IsHistoryRow users tasks h =
    (task_exists h.task_id tasks ≡ true) × (user_exists h.changed_by users ≡ true)

abbrev pub IsCommentRow : List User → List Task → TaskComment → Type 0
IsCommentRow users tasks c =
    IsText 4000 c.body × (task_exists c.task_id tasks ≡ true) × (user_exists c.user_id users ≡ true)

pub record IsSound (env : Env) (d : Db) (s : Seq) : Type 0 where
  pub user_keys : Keyed (λ u. u.id) 0 d.users s.user
  pub team_keys : Keyed (λ t. t.id) 0 d.teams s.team
  pub task_keys : Keyed (λ t. t.id) 0 d.tasks s.task
  pub history_keys : Keyed (λ h. h.id) 0 d.history s.history
  pub comment_keys : Keyed (λ c. c.id) 0 d.comments s.comment
  pub emails : Pairwise (λ u v. env.collate u.email v.email ≡ false) d.users
  pub memberships : Pairwise (λ m n. is_member n.team_id n.user_id m ≡ false) d.members
  pub team_rows : All (IsTeamRow d.users) d.teams
  pub member_rows : All (IsMemberRow d.users d.teams) d.members
  pub task_rows : All (IsTaskRow d.users d.teams) d.tasks
  pub history_rows : All (IsHistoryRow d.users d.tasks) d.history
  pub comment_rows : All (IsCommentRow d.users d.tasks) d.comments
