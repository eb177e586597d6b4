-- ===== src/Service/Tasks/Changed.antt =====
-- A successful update against what its request asks for: `Update` of
-- internal/service/task_service.go with the patch and the entries of the history.
use mathlib.Core.Path.{fun_ext}
use secunda_homework.Base.{
  ℕ, true, false, Option, none, some, is_some, List, map, ◌≡◌, refl, ap, ◌∙◌, arith, inl, inr, ◌⊎◌,
  find, update,
}
use secunda_homework.Entity.Rows.{Task, TeamMember, TaskHistory}
use secunda_homework.Dto.Requests.{UpdateTaskRequest}
use secunda_homework.Cache.{Cache}
use secunda_homework.Store.State.{Db, World, Env}
use secunda_homework.Store.Monad.{ok}
use secunda_homework.Repository.Teams.{is_member}
use secunda_homework.Repository.Tasks.{TaskPatch, has_id, is_live_with}
use secunda_homework.Repository.History.{history_row}
use secunda_homework.Repository.History.Laws.{numbered}
use secunda_homework.Service.Access.Laws.{access}
use secunda_homework.Service.Audit.{build_history_entries}
use secunda_homework.Service.Audit.Asked.{Means, build_patch_rich-Means}
use secunda_homework.Service.Audit.Told.{
  asked_row, IsTold, apply_patch-asked, build_history_entries-IsTold,
}
use secunda_homework.Service.Tasks.{update as update_service}
use secunda_homework.Service.Tasks.Recording.{changed_db}
use secunda_homework.Service.Tasks.Update.{IsUpdated, update-IsUpdated}

-- The tables before and after an update that changed something, and the task that it returns.
pub record IsChanged (env : Env) (actor_id task_id : ℕ) (req : UpdateTaskRequest) (before : Db)
    (next_entry : ℕ) (after : Db) (u : Task) : Type 0 where
  pub old : Task
  pub member : TeamMember
  pub at : ℕ
  pub row_time : ℕ
  pub entries : List TaskHistory
  pub found : find (has_id task_id) before.tasks ≡ some old
  pub belongs : find (is_member old.team_id actor_id) before.members ≡ some member
  pub told : IsTold req task_id actor_id at old u entries
  pub rows :
      after
      ≡ changed_db before
          (update (is_live_with task_id) (asked_row req row_time) before.tasks)
          (numbered next_entry (map (history_row env.column_time) entries))
  pub returned : find (has_id task_id) after.tasks ≡ some u

-- A request that asks for none of the four fields.
pub record AsksNothing (req : UpdateTaskRequest) : Type 0 where
  pub title : req.title ≡ none
  pub description : req.description ≡ none
  pub status : req.status ≡ none
  pub assignee_id : req.assignee_id ≡ none

IsUpdated-IsChanged :
    (env : Env) (actor_id task_id : ℕ) (req : UpdateTaskRequest) (before : Db) (n : ℕ) (after : Db)
    (u : Task)
    → IsUpdated env actor_id task_id req before n after u
    → IsChanged env actor_id task_id req before n after u
IsUpdated-IsChanged env actor_id task_id req before n after u c =
    let means = build_patch_rich-Means req c.patch true c.asked in
    record {
      old = c.old;
      member = c.member;
      at = c.at;
      row_time = c.row_time;
      entries = build_history_entries task_id actor_id c.at c.old u c.patch;
      found = c.found;
      belongs = c.belongs;
      told = build_history_entries-IsTold req c.patch true task_id actor_id c.at c.old u means;
      rows =
          c.rows
          ∙ ap
              (λ row. changed_db before (update (is_live_with task_id) row before.tasks) (
                numbered n (
                  map (history_row env.column_time)
                    (build_history_entries task_id actor_id c.at c.old u c.patch))))
              (fun_ext (λ t. apply_patch-asked req c.patch true c.row_time t means));
      returned = c.returned;
    }

none_given : {A : Type 0} (o : Option A) → is_some o ≡ false → o ≡ none
none_given none h = refl
none_given (some a) h = ground (arith, h)

Means-AsksNothing : (req : UpdateTaskRequest) (p : TaskPatch) → Means req p false → AsksNothing req
Means-AsksNothing req p m = record {
  title = none_given req.title (ground (arith, m.changes));
  description = none_given req.description (ground (arith, m.changes));
  status = none_given req.status (ground (arith, m.changes));
  assignee_id = none_given req.assignee_id (ground (arith, m.changes));
}

module _ {R : Type 0} (env : Env) (cache : Option (Cache R)) where
  -- An update of a task that returns a task either asked for none of the four fields, left every
  -- table as it was and returned a task that the actor may see, or was made by a member of the
  -- task's team: the live row of that identifier gets the fields that are asked for, the title
  -- trimmed and the assignee 0 as nobody, and a new time; the history gets at its end, in that
  -- order, one entry for each of title, description and status that is asked for and differs
  -- between the row before and after, and one for the assignee whenever it is asked for, with the
  -- values before and after, and no other; nothing else changes, and the task returned is the row
  -- as it stands afterwards.
  pub update_changes :
      (actor_id task_id : ℕ) (req : UpdateTaskRequest) (w : World R) (u : Task)
      → (update_service env cache actor_id task_id req w).0 ≡ ok u
      → IsChanged env actor_id task_id req w.db w.seq.history
          (update_service env cache actor_id task_id req w).1.db
          u
        ⊎ (AsksNothing req
            × ((update_service env cache actor_id task_id req w).1.db ≡ w.db)
            × (access w.db actor_id task_id ≡ ok u))
  update_changes actor_id task_id req w u h =
      elim (update-IsUpdated env cache actor_id task_id req w u h) [
        | inl c ↦ inl (IsUpdated-IsChanged env actor_id task_id req w.db _ _ u c)
        | inr (p, asked, same, seen) ↦
            inr (Means-AsksNothing req p (build_patch_rich-Means req p false asked), same, seen)
      ]
