-- ===== src/Service/Tasks.antt =====
-- internal/service/task_service.go.
pub mod Effects
pub mod Recording
pub mod Update
pub mod Changed
pub mod Creating
pub mod Cached
pub mod Pages
use secunda_homework.Base.{
  ℕ, zero, Bool, true, false, not, ◌&&◌, ◌||◌, Option, none, some, List, [], ◌∷◌, map,
  if◌then◌else◌, ltb, ◌==◌, length,
}
use secunda_homework.Text.{Bytes, codes, is_empty, trim_space}
use secunda_homework.Entity.TaskStatus
use secunda_homework.Entity.Rows.{Task, TaskHistory}
use secunda_homework.Dto.Requests.{CreateTaskRequest, UpdateTaskRequest}
use secunda_homework.Dto.Responses.{TaskResponse, TasksListResponse, TaskHistoryResponse}
use secunda_homework.Dto.Filter.{TaskFilter}
use secunda_homework.Cache.{Cache}
use secunda_homework.Store.State.{Env, Err, validation, not_found, nil_pointer}
use secunda_homework.Store.Monad.{M, Result, pure, throw, map_err, attempt, stop_if, ◌>>=◌, ◌>>◌}
use secunda_homework.Store.Calls.{now, within_tx}
use secunda_homework.Repository.Tasks.{
  TaskPatch, create_task, list_tasks, count_tasks, update_task_tx, soft_delete,
}
use secunda_homework.Repository.History.{insert_history_tx, list_history}
use secunda_homework.Service.TaskCache.{invalidate, get_cached, store}
use secunda_homework.Service.Access.{require_member, visible_task}
use secunda_homework.Service.Audit.{build_patch_rich, build_history_entries}

-- A zero time is an empty string.
abbrev pub shown_time : (ℕ → Bytes) → ℕ → Bytes
shown_time format t = if t == 0 then codes "" else format t

unfoldable pub to_task_response : (ℕ → Bytes) → Task → TaskResponse
to_task_response format t = record {
  id = t.id;
  team_id = t.team_id;
  title = t.title;
  description = t.description;
  status = t.status;
  assignee_id = t.assignee_id;
  created_by = t.created_by;
  created_at = shown_time format t.created_at;
  updated_at = shown_time format t.updated_at;
}

unfoldable pub to_history_response : (ℕ → Bytes) → TaskHistory → TaskHistoryResponse
to_history_response format h = record {
  id = h.id;
  task_id = h.task_id;
  changed_by = h.changed_by;
  field = h.field;
  old_value = h.old_value;
  new_value = h.new_value;
  changed_at = format h.changed_at;
}

-- The row that `Create` inserts; the database gives its identifier.
abbrev pub new_task : ℕ → CreateTaskRequest → ℕ → ℕ → Task
new_task actor_id req created updated = record {
  id = 0;
  team_id = req.team_id;
  title = trim_space req.title;
  description = req.description;
  status = req.status;
  assignee_id = req.assignee_id;
  created_by = actor_id;
  created_at = created;
  updated_at = updated;
  deleted_at = none;
}

-- The checks of `Create` on the request alone.
unfoldable pub is_refused : CreateTaskRequest → Bool
is_refused req =
    is_empty req.title
    || is_empty (trim_space req.title)
    || (ltb 255 (length req.title)
        || (not (TaskStatus.is_valid req.status) || is_empty req.status || req.team_id == 0))

module _ {R : Type 0} (env : Env) where
  -- The loop of `Update` over the history entries.
  unfoldable pub insert_entries : List TaskHistory → M R (Unit {0})
  insert_entries [] = pure tt
  insert_entries (h ∷ hs) = insert_history_tx env h >>= λ _. insert_entries hs

  -- What follows the UPDATE in the transaction. A missing task would be read through a nil pointer.
  unfoldable pub record_changes :
      (task_id actor_id at : ℕ) → Task → TaskPatch → Option Task → M R Task
  record_changes task_id actor_id at old patch none = throw nil_pointer
  record_changes task_id actor_id at old patch (some new) = do
    insert_entries (build_history_entries task_id actor_id at old new patch)
    pure new

  -- The function that `Update` runs in a transaction.
  unfoldable pub update_and_record : (task_id actor_id at : ℕ) → Task → TaskPatch → M R Task
  update_and_record task_id actor_id at old patch = do
    new ← update_task_tx env task_id patch
    record_changes task_id actor_id at old patch new

module _ {R : Type 0} (env : Env) (cache : Option (Cache R)) where
  unfoldable pub create : ℕ → CreateTaskRequest → M R Task
  create actor_id req = do
    stop_if (is_refused req) (validation none)
    m ← require_member env req.team_id actor_id
    created ← now env
    updated ← now env
    let t = new_task actor_id req created updated
    id ← create_task env t
    attempt (invalidate cache req.team_id)
    pure (record t { id = id })

  unfoldable pub get : ℕ → ℕ → M R Task
  get caller_id task_id = visible_task env caller_id task_id

  -- A miss: the rows and their number, in two statements.
  unfoldable pub list_from_db : TaskFilter → M R TasksListResponse
  list_from_db f = do
    rows ← list_tasks env f
    total ← count_tasks env f
    let resp : TasksListResponse = record {
      items = map (to_task_response env.format_time) rows;
      meta = record { page = f.page; limit = f.limit; total = total };
    }
    attempt (store env cache f resp)
    pure resp

  abbrev pub hit_or_read : TaskFilter → Option TasksListResponse → M R TasksListResponse
  hit_or_read f none = list_from_db f
  hit_or_read f (some cached) = pure cached

  unfoldable pub list : ℕ → TaskFilter → M R TasksListResponse
  list caller_id f = do
    stop_if (f.team_id == 0) (validation none)
    m ← require_member env f.team_id caller_id
    stop_if (not (is_empty f.status) && not (TaskStatus.is_valid f.status)) (validation none)
    cached ← get_cached env cache f
    hit_or_read f cached

  -- The branch of `Update` with something to change.
  unfoldable pub change : ℕ → ℕ → TaskPatch → M R Task
  change actor_id task_id patch = do
    existing ← visible_task env actor_id task_id
    at ← now env
    updated ← within_tx env (update_and_record env task_id actor_id at existing patch)
    attempt (invalidate cache existing.team_id)
    pure updated

  abbrev pub patched : ℕ → ℕ → Option (TaskPatch × Bool) → M R Task
  patched actor_id task_id none = throw (validation none)
  patched actor_id task_id (some (patch, has_changes)) =
      if has_changes then change actor_id task_id patch else get actor_id task_id

  unfoldable pub update : ℕ → ℕ → UpdateTaskRequest → M R Task
  update actor_id task_id req = patched actor_id task_id (build_patch_rich req)

  unfoldable pub delete : ℕ → ℕ → M R (Unit {0})
  delete actor_id task_id = do
    t ← visible_task env actor_id task_id
    soft_delete env task_id
    attempt (invalidate cache t.team_id)

  unfoldable pub history : ℕ → ℕ → M R (List TaskHistoryResponse)
  history caller_id task_id = do
    t ← visible_task env caller_id task_id
    rows ← list_history env task_id
    pure (map (to_history_response env.format_time) rows)
