-- ===== src/Authority.antt =====
-- What a user may do to the tables in one request: the abstract view of the routes behind
-- `RequireAuth` (internal/router/router.go), in which only the rights count.
pub mod Services
pub mod Acts
pub mod Accounts
pub mod Routes
pub mod Isolation
pub mod Runs
use secunda_homework.Base.{
  ℕ, Bool, true, false, ◌≡◌, Option, some, List, [], ◌∷◌, ◌++◌, All, ◌==◌, any, find, update,
}
use secunda_homework.Entity.Role
use secunda_homework.Entity.Rows.{User, Team, TeamMember, Task, TaskHistory, TaskComment}
use secunda_homework.Store.State.{Db, Seq}
use secunda_homework.Repository.Teams.{is_member}
use secunda_homework.Repository.Tasks.{TaskPatch, has_id, is_live_with, apply_patch, deleted_row}

-- An entry for a task, by a user.
abbrev pub IsEntryOf : ℕ → ℕ → TaskHistory → Type 0
IsEntryOf task_id uid h = (h.task_id ≡ task_id) × (h.changed_by ≡ uid)

-- A team gets the next key. Whoever changes a team's rows is in the team, and signs what is added.
pub data Step (uid : ℕ) (d : Db) (s : Seq) : Db → Type 0 where
  stay : Step uid d s d
  add_team :
      (t : Team)
      → t.id ≡ s.team
      → t.created_by ≡ uid
      → Step uid d s (record d { teams = d.teams ++ t ∷ [] })
  found_team :
      (t : Team) (m : TeamMember)
      → t.id ≡ s.team
      → t.created_by ≡ uid
      → m.team_id ≡ s.team
      → m.user_id ≡ uid
      → m.role ≡ Role.owner
      → Step uid d s (record d { teams = d.teams ++ t ∷ []; members = d.members ++ m ∷ [] })
  invite :
      (m actor : TeamMember)
      → find (is_member m.team_id uid) d.members ≡ some actor
      → Role.can_invite actor.role ≡ true
      → any (is_member m.team_id m.user_id) d.members ≡ false
      → Step uid d s (record d { members = d.members ++ m ∷ [] })
  add_task :
      (t : Task) (m : TeamMember)
      → find (is_member t.team_id uid) d.members ≡ some m
      → t.created_by ≡ uid
      → Step uid d s (record d { tasks = d.tasks ++ t ∷ [] })
  change_task :
      (t : Task) (m : TeamMember) (task_id at : ℕ) (p : TaskPatch) (entries : List TaskHistory)
      → find (has_id task_id) d.tasks ≡ some t
      → find (is_member t.team_id uid) d.members ≡ some m
      → All (IsEntryOf task_id uid) entries
      → Step uid d s (record d {
        tasks = update (is_live_with task_id) (apply_patch p at) d.tasks;
        history = d.history ++ entries;
      })
  delete_task :
      (t : Task) (m : TeamMember) (task_id at : ℕ)
      → find (has_id task_id) d.tasks ≡ some t
      → find (is_member t.team_id uid) d.members ≡ some m
      → Step uid d s (record d { tasks = update (is_live_with task_id) (deleted_row at) d.tasks })
  comment :
      (t : Task) (m : TeamMember) (c : TaskComment)
      → find (has_id c.task_id) d.tasks ≡ some t
      → find (is_member t.team_id uid) d.members ≡ some m
      → c.user_id ≡ uid
      → Step uid d s (record d { comments = d.comments ++ c ∷ [] })
