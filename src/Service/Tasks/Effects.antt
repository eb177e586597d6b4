-- ===== src/Service/Tasks/Effects.antt =====
-- What the task operations leave of the database where they fail, or where they only read.
use secunda_homework.Base.{ℕ, Bool, false, Option, none, some, ◌≡◌}
use secunda_homework.Dto.Requests.{CreateTaskRequest, UpdateTaskRequest}
use secunda_homework.Dto.Filter.{TaskFilter}
use secunda_homework.Dto.Responses.{TasksListResponse}
use secunda_homework.Cache.{Cache}
use secunda_homework.Store.State.{World, Env, Err}
use secunda_homework.Store.Monad.{err, attempt}
use secunda_homework.Store.Effects.{
  Reads, Total, Atomic, Reads-pure, Reads-throw, Reads-now, Reads-stop_if, Atomic-Reads,
  Atomic-bind, Atomic-last, Atomic-within_tx, Atomic-if, Total-pure, Total-bind, Total-attempt,
  reads_rules,
}
use secunda_homework.Repository.Teams.{get_member}
use secunda_homework.Repository.Tasks.{find_task, list_tasks, count_tasks, TaskPatch}
use secunda_homework.Repository.Tasks.Laws.{Atomic-create_task, Atomic-soft_delete}
use secunda_homework.Repository.History.{list_history}
use secunda_homework.Service.TaskCache.{invalidate}
use secunda_homework.Service.TaskCache.Laws.{Reads-get_cached, Reads-store}
use secunda_homework.Service.Access.{require_member, visible_task}
use secunda_homework.Service.Audit.{build_patch_rich}
use secunda_homework.Service.Tasks.{
  create, get, list_from_db, hit_or_read, list, change, patched, update as update_task, delete,
  history,
}

module _ {R : Type 0} (env : Env) where
  pub Reads-require_member :
      (team_id caller_id : ℕ) → Reads {R = R} (require_member env team_id caller_id)
  unfolding require_member get_member
  Reads-require_member team_id caller_id = search reads_rules

  pub Reads-visible_task :
      (caller_id task_id : ℕ) → Reads {R = R} (visible_task env caller_id task_id)
  unfolding visible_task find_task
  Reads-visible_task caller_id task_id = search (reads_rules, Reads-require_member)

-- What follows a successful write: the errors of the cache are ignored.
invalidate-Total :
    {R : Type 0} (cache : Option (Cache R)) (team_id : ℕ)
    → Total (attempt (invalidate cache team_id))
invalidate-Total cache team_id = Total-attempt (invalidate cache team_id)

module _ {R : Type 0} (env : Env) (cache : Option (Cache R)) where
  pub Reads-list_from_db : (f : TaskFilter) → Reads (list_from_db env cache f)
  unfolding list_from_db list_tasks count_tasks
  Reads-list_from_db f = search (reads_rules, Reads-store)

  Reads-hit_or_read :
      (f : TaskFilter) (hit : Option TasksListResponse) → Reads (hit_or_read env cache f hit)
  Reads-hit_or_read f none = Reads-list_from_db f
  Reads-hit_or_read f (some cached) = Reads-pure cached

  pub Reads-get : (caller_id task_id : ℕ) → Reads (get env cache caller_id task_id)
  unfolding get
  Reads-get caller_id task_id = Reads-visible_task env caller_id task_id

  pub Reads-list : (caller_id : ℕ) (f : TaskFilter) → Reads (list env cache caller_id f)
  unfolding list
  Reads-list caller_id f =
      search (reads_rules, Reads-require_member, Reads-get_cached, Reads-hit_or_read) depth 9

  -- Listing tasks changes no table, whatever fails and whatever the cache holds.
  pub list_reads :
      (caller_id : ℕ) (f : TaskFilter) (w : World R) → (list env cache caller_id f w).1.db ≡ w.db
  list_reads caller_id f w = (Reads-list caller_id f).same w

  pub Reads-history : (caller_id task_id : ℕ) → Reads (history env cache caller_id task_id)
  unfolding history list_history
  Reads-history caller_id task_id = search (reads_rules, Reads-visible_task)

  Atomic-change :
      (actor_id task_id : ℕ) (patch : TaskPatch) → Atomic (change env cache actor_id task_id patch)
  unfolding change
  Atomic-change actor_id task_id patch =
      Atomic-bind _ _ (Reads-visible_task env actor_id task_id) (λ t.
        Atomic-bind _ _ (Reads-now env) (λ at.
          Atomic-last _ _ (Atomic-within_tx env _)
            (λ u. Total-bind _ _ (invalidate-Total cache _) (λ _. Total-pure u))))

  Atomic-patched :
      (actor_id task_id : ℕ) (p : Option (TaskPatch × Bool))
      → Atomic (patched env cache actor_id task_id p)
  Atomic-patched actor_id task_id none = Atomic-Reads _ (Reads-throw _)
  Atomic-patched actor_id task_id (some (p, changes)) =
      Atomic-if changes _ _ (Atomic-change actor_id task_id p)
        (Atomic-Reads _ (Reads-get actor_id task_id))

  -- An update that returns an error, at whatever call it failed (the commit included), has changed
  -- no table: neither the task nor its history.
  pub update_atomic :
      (actor_id task_id : ℕ) (req : UpdateTaskRequest) (w : World R) (e : Err)
      → (update_task env cache actor_id task_id req w).0 ≡ err e
      → (update_task env cache actor_id task_id req w).1.db ≡ w.db
  unfolding update_task
  update_atomic actor_id task_id req w e h =
      (Atomic-patched actor_id task_id (build_patch_rich req)).undone w h

  module _ (results_hold : (n : ℕ) → env.result_fails n ≡ false) where
    Atomic-create :
        (actor_id : ℕ) (req : CreateTaskRequest) → Atomic (create env cache actor_id req)
    unfolding create
    Atomic-create actor_id req = Atomic-bind _ _ (Reads-stop_if _ _) (λ _.
        Atomic-bind _ _ (Reads-require_member env req.team_id actor_id) (λ m.
          Atomic-bind _ _ (Reads-now env) (λ a. Atomic-bind _ _ (Reads-now env) (λ b.
            Atomic-last _ _ (Atomic-create_task env results_hold _)
              (λ id. Total-bind _ _ (invalidate-Total cache _) (λ _. Total-pure _))))))

    Atomic-delete : (actor_id task_id : ℕ) → Atomic (delete env cache actor_id task_id)
    unfolding delete
    Atomic-delete actor_id task_id = Atomic-bind _ _ (Reads-visible_task env actor_id task_id) (λ t.
        Atomic-last _ _ (Atomic-soft_delete env results_hold task_id)
          (λ _. invalidate-Total cache _))

    -- With a driver whose results do not fail, creating a task that returns an error has changed no
    -- table.
    pub create_task_atomic :
        (actor_id : ℕ) (req : CreateTaskRequest) (w : World R) (e : Err)
        → (create env cache actor_id req w).0 ≡ err e
        → (create env cache actor_id req w).1.db ≡ w.db
    create_task_atomic actor_id req w e h = (Atomic-create actor_id req).undone w h

    -- With a driver whose results do not fail, deleting a task that returns an error has changed no
    -- table.
    pub delete_atomic :
        (actor_id task_id : ℕ) (w : World R) (e : Err)
        → (delete env cache actor_id task_id w).0 ≡ err e
        → (delete env cache actor_id task_id w).1.db ≡ w.db
    delete_atomic actor_id task_id w e h = (Atomic-delete actor_id task_id).undone w h
