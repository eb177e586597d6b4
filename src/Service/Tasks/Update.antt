-- ===== src/Service/Tasks/Update.antt =====
-- What a successful update has done: the row and its history, together.
use secunda_homework.Base.{
  ℕ, suc, Bool, true, false, Option, none, some, map, ◌≡◌, refl, sym, ap, ◌∙◌, inl, inr, ◌⊎◌, find,
  update,
}
use secunda_homework.Entity.Rows.{Task, TeamMember}
use secunda_homework.Dto.Requests.{UpdateTaskRequest}
use secunda_homework.Cache.{Cache}
use secunda_homework.Store.State.{Db, World, Env, next_step}
use secunda_homework.Store.Monad.{ok, pure, attempt-bind, bind-ok}
use secunda_homework.Store.Calls.{now, within_tx}
use secunda_homework.Store.Effects.{Reads-now, within_tx-ok}
use secunda_homework.Repository.Teams.{is_member}
use secunda_homework.Repository.Tasks.{TaskPatch, has_id, is_live_with, apply_patch}
use secunda_homework.Repository.History.{history_row}
use secunda_homework.Repository.History.Laws.{numbered}
use secunda_homework.Service.TaskCache.{invalidate}
use secunda_homework.Service.TaskCache.Laws.{Reads-invalidate}
use secunda_homework.Service.Access.{visible_task}
use secunda_homework.Service.Access.Laws.{access, visible_task-ok, visible_task-decides}
use secunda_homework.Service.Audit.Laws.{build_patch-full}
use secunda_homework.Service.Audit.{build_patch_rich, build_history_entries}
use secunda_homework.Service.Tasks.{
  update_and_record, change, patched, update as update_service, get,
}
use secunda_homework.Service.Tasks.Effects.{Reads-visible_task}
use secunda_homework.Service.Tasks.Recording.{changed_db, update_and_record-ok}

-- The tables before and after an update that changed something, and the task that it returns.
pub record IsUpdated (env : Env) (actor_id task_id : ℕ) (req : UpdateTaskRequest) (before : Db)
    (next_entry : ℕ) (after : Db) (u : Task) : Type 0 where
  pub patch : TaskPatch
  pub old : Task
  pub member : TeamMember
  pub at : ℕ
  pub row_time : ℕ
  pub asked : build_patch_rich req ≡ some (patch, true)
  pub found : find (has_id task_id) before.tasks ≡ some old
  pub belongs : find (is_member old.team_id actor_id) before.members ≡ some member
  pub rows :
      after
      ≡ changed_db before
          (update (is_live_with task_id) (apply_patch patch row_time) before.tasks)
          (numbered next_entry (
            map
              (history_row env.column_time)
              (build_history_entries task_id actor_id at old u patch)))
  pub returned : find (has_id task_id) after.tasks ≡ some u

IsUpdated-of :
    (env : Env) (actor_id task_id : ℕ) (req : UpdateTaskRequest) (patch : TaskPatch) (old : Task)
    (m : TeamMember) (at row_time : ℕ) (before d after : Db) (n n' : ℕ) (new u : Task)
    → build_patch_rich req ≡ some (patch, true)
    → find (has_id task_id) before.tasks ≡ some old
    → find (is_member old.team_id actor_id) before.members ≡ some m
    → after
      ≡ changed_db d (update (is_live_with task_id) (apply_patch patch row_time) d.tasks) (
          numbered n' (
            map
              (history_row env.column_time)
              (build_history_entries task_id actor_id at old new patch)))
    → find (has_id task_id) (update (is_live_with task_id) (apply_patch patch row_time) d.tasks)
      ≡ some new
    → d ≡ before
    → n' ≡ n
    → new ≡ u
    → IsUpdated env actor_id task_id req before n after u
IsUpdated-of env actor_id task_id req patch old m at row_time before d after n n' new u asked found
      belongs rows row p q r =
    record {
      patch = patch;
      old = old;
      member = m;
      at = at;
      row_time = row_time;
      asked = asked;
      found = found;
      belongs = belongs;
      rows = rw (p, q, r) at rows;
      returned = ap (λ e. find (has_id task_id) e.tasks) rows ∙ row ∙ ap some r;
    }

module _ {R : Type 0} (env : Env) (cache : Option (Cache R)) where
  change-ok :
      (actor_id task_id : ℕ) (req : UpdateTaskRequest) (patch : TaskPatch) (w : World R) {u : Task}
      → build_patch_rich req ≡ some (patch, true)
      → (change env cache actor_id task_id patch w).0 ≡ ok u
      → IsUpdated env actor_id task_id req w.db w.seq.history
          (change env cache actor_id task_id patch w).1.db
          u
  unfolding change
  change-ok actor_id task_id req patch w {u} asked h =
      let (old, seen, same1, rest1) = bind-ok (visible_task env actor_id task_id) _ w h in
      let w1 = (visible_task env actor_id task_id w).1 in
      let (found, (m, belongs)) = visible_task-ok env actor_id task_id w seen in
      let (at, clock, same2, rest2) = bind-ok (now env) _ w1 rest1 in
      let w2 = (now env w1).1 in
      let body = update_and_record env task_id actor_id at old patch in
      let (new, done, same3, rest3) = bind-ok (within_tx env body) _ w2 rest2 in
      let w3 = (within_tx env body w2).1 in
      let (written, tables) = within_tx-ok env body w2 done in
      let (rows, row) =
        update_and_record-ok env task_id actor_id at old patch (next_step w2)
          (build_patch-full req patch asked) written in
      let cleared = attempt-bind (invalidate cache old.team_id) (λ _. pure new) w3 in
      let is_u : ok new ≡ ok u = sym (ap (λ v. v.0) cleared) ∙ rest3 in
      let new_is_u : new ≡ u = cc in
      let db2 : w2.db ≡ w.db =
        (Reads-now env).same w1 ∙ (Reads-visible_task env actor_id task_id).same w in
      let seq2 : w2.seq ≡ w.seq =
        (Reads-now env).same_seq w1 ∙ (Reads-visible_task env actor_id task_id).same_seq w in
      let final : (change env cache actor_id task_id patch w).1.db ≡ w3.db =
        ap (λ v. v.1.db) (same1 ∙ same2 ∙ same3 ∙ cleared)
        ∙ (Reads-invalidate cache old.team_id).same w3 in
      IsUpdated-of env actor_id task_id req patch old m at
        (env.column_time (env.clock (suc w2.step))) w.db w2.db _ w.seq.history w2.seq.history new u
        asked found belongs (final ∙ tables ∙ rows) row db2 (ap (λ v. v.history) seq2) new_is_u

  patched_changes :
      (actor_id task_id : ℕ) (req : UpdateTaskRequest) (w : World R) (u : Task)
      (o : Option (TaskPatch × Bool))
      → build_patch_rich req ≡ o
      → (patched env cache actor_id task_id o w).0 ≡ ok u
      → IsUpdated env actor_id task_id req w.db w.seq.history
          (patched env cache actor_id task_id o w).1.db
          u
        ⊎ ((p : TaskPatch) × (build_patch_rich req ≡ some (p, false))
            × ((patched env cache actor_id task_id o w).1.db ≡ w.db)
            × (access w.db actor_id task_id ≡ ok u))
  unfolding get
  patched_changes actor_id task_id req w u none asked h = cc
  patched_changes actor_id task_id req w u (some (p, true)) asked h =
      inl (change-ok actor_id task_id req p w asked h)
  patched_changes actor_id task_id req w u (some (p, false)) asked h =
      elim (visible_task-decides env actor_id task_id w) [
        | inl decided ↦
            inr (p, asked, (Reads-visible_task env actor_id task_id).same w, sym decided ∙ h)
        | inr (failed, result) ↦ cc
      ]

  -- An update of a task that returns a task either had a patch without changes, left every table
  -- as it was and returned a task that the actor may see, or has done what `IsUpdated` says with
  -- its patch and the entries that the code makes of it.
  pub update-IsUpdated :
      (actor_id task_id : ℕ) (req : UpdateTaskRequest) (w : World R) (u : Task)
      → (update_service env cache actor_id task_id req w).0 ≡ ok u
      → IsUpdated env actor_id task_id req w.db w.seq.history
          (update_service env cache actor_id task_id req w).1.db
          u
        ⊎ ((p : TaskPatch) × (build_patch_rich req ≡ some (p, false))
            × ((update_service env cache actor_id task_id req w).1.db ≡ w.db)
            × (access w.db actor_id task_id ≡ ok u))
  unfolding update_service
  update-IsUpdated actor_id task_id req w u h =
      patched_changes actor_id task_id req w u (build_patch_rich req) refl h
