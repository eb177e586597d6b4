-- ===== src/Invariant/Tasks.antt =====
-- The changes of a task (internal/repository/task_repo.go) and the soundness of the tables.
use secunda_homework.Base.{
  ℕ, Bool, true, false, not, ◌&&◌, ◌||◌, Option, none, some, List, ◌≡◌, refl, ap, ◌∙◌, arith, any,
  update, update-none, All, ◌==◌, inl, inr, Bool-cases,
}
use secunda_homework.Text.{Bytes}
use secunda_homework.Entity.TaskStatus
use secunda_homework.Entity.TaskStatus.{TaskStatus}
use secunda_homework.Entity.Rows.{User, Team, Task}
use secunda_homework.Store.State.{Db, Seq, Env}
use secunda_homework.Store.Keeps.{Grows-refl, Writes}
use secunda_homework.Repository.Rows.{task_exists, assignee_exists}
use secunda_homework.Repository.Tasks.{
  TaskPatch, is_live_with, update_task, delete_task, apply_patch, deleted_row, target_exists,
  assigned, new_assignee,
}
use secunda_homework.Invariant.{IsText, IsTaskRow, IsSound}
use secunda_homework.Invariant.Tables.{Keyed-update, any-update, All-weaken, All-update}

abbrev pub IsPatchTitle : Option Bytes → Type 0
IsPatchTitle none = Unit
IsPatchTitle (some s) = IsText 255 s

abbrev pub IsPatchStatus : Option TaskStatus → Type 0
IsPatchStatus none = Unit
IsPatchStatus (some s) = TaskStatus.is_valid s ≡ true

abbrev pub IsPatch : TaskPatch → Type 0
IsPatch p = IsPatchTitle p.title × IsPatchStatus p.status

assigned_title :
    (o : Option Bytes) (old : Bytes) → IsPatchTitle o → IsText 255 old → IsText 255 (assigned o old)
assigned_title none old h k = k
assigned_title (some s) old h k = h

assigned_status :
    (o : Option TaskStatus) (old : TaskStatus)
    → IsPatchStatus o
    → TaskStatus.is_valid old ≡ true
    → TaskStatus.is_valid (assigned o old) ≡ true
assigned_status none old h k = k
assigned_status (some s) old h k = h

assigned_assignee :
    (clear : Bool) (o old : Option ℕ) (users : List User)
    → clear || assignee_exists o users ≡ true
    → assignee_exists old users ≡ true
    → assignee_exists (new_assignee clear o old) users ≡ true
assigned_assignee true o old users h k = refl
assigned_assignee false none old users h k = k
assigned_assignee false (some id) old users h k = h

-- A row stays a row under an accepted patch whose assignee exists.
apply_patch-IsTaskRow :
    (p : TaskPatch) (at : ℕ) (t : Task) (users : List User) (teams : List Team)
    → IsPatch p
    → target_exists p users ≡ true
    → IsTaskRow users teams t
    → IsTaskRow users teams (apply_patch p at t)
unfolding apply_patch
apply_patch-IsTaskRow p at t users teams (title, status) target h = (
  assigned_title p.title t.title title h.0,
  assigned_status p.status t.status status h.1,
  h.2,
  h.3,
  assigned_assignee p.clear_assignee p.assignee_id t.assignee_id users target h.4,
)

task_exists-update :
    (id : ℕ) (q : Task → Bool) (f : Task → Task) (tasks : List Task)
    → ((t : Task) → (f t).id ≡ t.id)
    → task_exists id (update q f tasks) ≡ task_exists id tasks
unfolding task_exists
task_exists-update id q f tasks h =
    any-update (λ t. t.id == id) q f tasks (λ t. ap (λ n. n == id) (h t))

module _ (env : Env) where
  -- Any UPDATE of tasks that keeps keys and rows.
  update-IsSound :
      (q : Task → Bool) (f : Task → Task) (d : Db) (s : Seq)
      → ((t : Task) → (f t).id ≡ t.id)
      → All (IsTaskRow d.users d.teams) (update q f d.tasks)
      → IsSound env d s
      → IsSound env (record d { tasks = update q f d.tasks }) s
  update-IsSound q f d s same rows h = record {
    user_keys = h.user_keys;
    team_keys = h.team_keys;
    task_keys = Keyed-update _ 0 s.task q f d.tasks same h.task_keys;
    history_keys = h.history_keys;
    comment_keys = h.comment_keys;
    emails = h.emails;
    memberships = h.memberships;
    team_rows = h.team_rows;
    member_rows = h.member_rows;
    task_rows = rows;
    history_rows =
        All-weaken _ _ d.history (λ r p. (task_exists-update r.task_id q f d.tasks same ∙ p.0, p.1))
          h.history_rows;
    comment_rows =
        All-weaken _ _ d.comments
          (λ c p. (p.0, task_exists-update c.task_id q f d.tasks same ∙ p.1, p.2)) h.comment_rows;
  }

  apply_patch-id : (p : TaskPatch) (at : ℕ) (t : Task) → (apply_patch p at t).id ≡ t.id
  unfolding apply_patch
  apply_patch-id p at t = refl

  patched_rows :
      (p : TaskPatch) (id at : ℕ) (d : Db) (s : Seq)
      → IsPatch p
      → any (is_live_with id) d.tasks && not (target_exists p d.users) ≡ false
      → IsSound env d s
      → All (IsTaskRow d.users d.teams) (update (is_live_with id) (apply_patch p at) d.tasks)
  patched_rows p id at d s good test h = elim (Bool-cases (any (is_live_with id) d.tasks)) [
    | inr none_live ↦
        rw (update-none (is_live_with id) (apply_patch p at) d.tasks none_live) h.task_rows
    | inl live ↦
        let target : target_exists p d.users ≡ true = ground arith in
        All-update _ (is_live_with id) (apply_patch p at) d.tasks
          (λ t k. apply_patch-IsTaskRow p at t d.users d.teams good target k) h.task_rows
  ]

  pub Writes-update_task :
      (id : ℕ) (p : TaskPatch) (at : ℕ) (d : Db) (s : Seq)
      → IsPatch p
      → IsSound env d s
      → Writes (IsSound env) s (update_task env.column_time id p at d s)
  unfolding update_task
  Writes-update_task id p at d s good h =
      elim (Bool-cases (any (is_live_with id) d.tasks && not (target_exists p d.users))) [
        | inl missing ↦ rw missing tt
        | inr fine ↦ rw fine (
          update-IsSound (is_live_with id) (apply_patch p (env.column_time at)) d s
              (apply_patch-id p (env.column_time at))
              (patched_rows p id (env.column_time at) d s good fine h) h,
          Grows-refl s,
        )
      ]

  pub Writes-delete_task :
      (id at : ℕ) (d : Db) (s : Seq)
      → IsSound env d s
      → Writes (IsSound env) s (delete_task env.column_time id at d s)
  unfolding delete_task
  Writes-delete_task id at d s h = (
    update-IsSound (is_live_with id) (deleted_row (env.column_time at)) d s (λ t. refl)
        (All-update _ (is_live_with id) (deleted_row (env.column_time at)) d.tasks (λ t k. k)
          h.task_rows)
        h,
    Grows-refl s,
  )
