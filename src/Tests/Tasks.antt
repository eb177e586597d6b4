-- ===== src/Tests/Tasks.antt =====
-- The task service at concrete requests.
use secunda_homework.Base.{
  ◌||◌, true, ℕ, pos, false, ◌==◌, Option, none, some, List, [], ◌∷◌, ◌≡◌, ◌⊎◌, refl, find,
}
use secunda_homework.Text.{Bytes, codes, trim_space}
use secunda_homework.Entity.TaskStatus
use secunda_homework.Entity.Rows.{Task}
use secunda_homework.Dto.Requests.{CreateTaskRequest, UpdateTaskRequest}
use secunda_homework.Store.State.{Db, Env, db, other}
use secunda_homework.Store.Monad.{ok, err}
use secunda_homework.Repository.Tasks.{TaskPatch}
use secunda_homework.Service.Access.{visible_task}
use secunda_homework.Service.Access.Laws.{access, visible_task-decides}
use secunda_homework.Repository.Rows.{assignee_exists, user_exists}
use secunda_homework.Repository.Teams.{is_member}
use secunda_homework.Service.Tasks.{is_refused}
use secunda_homework.Service.Tasks.Creating.{create_task_succeeds}
use secunda_homework.Service.Tasks.Effects.{update_atomic}
use secunda_homework.Dto.Filter.{TaskFilter}
use secunda_homework.Service.Tasks.{update as update_task, create, delete, list}
use secunda_homework.Service.Audit.{build_patch_rich}
use secunda_homework.Service.Tasks.Changed.{IsChanged, AsksNothing, update_changes}
use secunda_homework.Tests.{
  ann, core, ann_in_core, calm, env_failing, key_cache, start, tables, release,
}

abbrev pub finished : UpdateTaskRequest
finished = record {
  title = none;
  description = none;
  status = some TaskStatus.done;
  assignee_id = none;
}

abbrev released : Task
released = record release { status = TaskStatus.done; updated_at = 1004 }

update_returns : (update_task calm (some key_cache) 1 3 finished start).0 ≡ ok released
unfolding update_task TaskStatus.is_valid build_patch_rich find secunda_homework.Base.any
    secunda_homework.Base.update secunda_homework.Repository.History.insert_history
    secunda_homework.Repository.History.insert_history_tx
    secunda_homework.Repository.Rows.task_exists secunda_homework.Repository.Rows.user_exists
    secunda_homework.Repository.Rows.wrap secunda_homework.Repository.Tasks.apply_patch
    secunda_homework.Repository.Tasks.check_updated secunda_homework.Repository.Tasks.find_task
    secunda_homework.Repository.Tasks.find_task_with
    secunda_homework.Repository.Tasks.is_empty_patch secunda_homework.Repository.Tasks.update_task
    secunda_homework.Repository.Tasks.update_task_tx secunda_homework.Repository.Tasks.write_patch
    secunda_homework.Repository.Teams.get_member secunda_homework.Service.Access.not_found_as
    secunda_homework.Service.Access.require_member secunda_homework.Service.Access.visible_task
    secunda_homework.Service.Audit.build_history_entries
    secunda_homework.Service.TaskCache.cache_key secunda_homework.Service.TaskCache.del_key
    secunda_homework.Service.TaskCache.invalidate
    secunda_homework.Service.TaskCache.invalidate_pages
    secunda_homework.Service.TaskCache.invalidate_statuses secunda_homework.Service.Tasks.change
    secunda_homework.Service.Tasks.get secunda_homework.Service.Tasks.insert_entries
    secunda_homework.Service.Tasks.record_changes secunda_homework.Service.Tasks.update_and_record
    secunda_homework.Store.Calls.begin secunda_homework.Store.Calls.check_result
    secunda_homework.Store.Calls.exec secunda_homework.Store.Calls.finish
    secunda_homework.Store.Calls.now secunda_homework.Store.Calls.query
    secunda_homework.Store.Calls.within_tx secunda_homework.Store.Monad.◌>>=◌
    secunda_homework.Text.beq secunda_homework.Text.format_int secunda_homework.Text.format_uint
    secunda_homework.Text.one_of secunda_homework.Text.trim_left secunda_homework.Text.trim_right
    secunda_homework.Text.trim_space
update_returns = refl

abbrev updated_db : Db
updated_db = (update_task calm (some key_cache) 1 3 finished start).1.db

update_changes_example :
    IsChanged calm 1 3 finished tables 1 updated_db released
    ⊎ (AsksNothing finished × (updated_db ≡ tables) × (access tables 1 3 ≡ ok released))
update_changes_example =
    update_changes calm (some key_cache) 1 3 finished start released update_returns

-- The commit fails.
abbrev uncommitted : Env
uncommitted = env_failing (λ n. n == 8)

uncommitted_fails : (update_task uncommitted (some key_cache) 1 3 finished start).0 ≡ err (db other)
unfolding update_task TaskStatus.is_valid build_patch_rich find secunda_homework.Base.any
    secunda_homework.Base.update secunda_homework.Repository.History.insert_history
    secunda_homework.Repository.History.insert_history_tx
    secunda_homework.Repository.Rows.task_exists secunda_homework.Repository.Rows.user_exists
    secunda_homework.Repository.Rows.wrap secunda_homework.Repository.Tasks.apply_patch
    secunda_homework.Repository.Tasks.check_updated secunda_homework.Repository.Tasks.find_task
    secunda_homework.Repository.Tasks.find_task_with
    secunda_homework.Repository.Tasks.is_empty_patch secunda_homework.Repository.Tasks.update_task
    secunda_homework.Repository.Tasks.update_task_tx secunda_homework.Repository.Tasks.write_patch
    secunda_homework.Repository.Teams.get_member secunda_homework.Service.Access.not_found_as
    secunda_homework.Service.Access.require_member
    secunda_homework.Service.Audit.build_history_entries
    secunda_homework.Service.TaskCache.cache_key secunda_homework.Service.TaskCache.del_key
    secunda_homework.Service.TaskCache.invalidate
    secunda_homework.Service.TaskCache.invalidate_pages
    secunda_homework.Service.TaskCache.invalidate_statuses secunda_homework.Service.Tasks.change
    secunda_homework.Service.Tasks.get secunda_homework.Service.Tasks.insert_entries
    secunda_homework.Service.Tasks.record_changes secunda_homework.Service.Tasks.update_and_record
    secunda_homework.Store.Calls.begin secunda_homework.Store.Calls.check_result
    secunda_homework.Store.Calls.exec secunda_homework.Store.Calls.finish
    secunda_homework.Store.Calls.now secunda_homework.Store.Calls.query
    secunda_homework.Store.Calls.within_tx secunda_homework.Store.Monad.◌>>=◌
    secunda_homework.Text.beq secunda_homework.Text.format_int secunda_homework.Text.format_uint
    secunda_homework.Text.one_of secunda_homework.Text.trim_left secunda_homework.Text.trim_right
    secunda_homework.Text.trim_space visible_task
uncommitted_fails = refl

update_atomic_example : (update_task uncommitted (some key_cache) 1 3 finished start).1.db ≡ tables
update_atomic_example =
    update_atomic uncommitted (some key_cache) 1 3 finished start (db other) uncommitted_fails

visible_task-decides_example :
    ((visible_task uncommitted 1 3 start).0 ≡ access tables 1 3)
    ⊎ ((uncommitted.db_fails 0 || uncommitted.db_fails 1 ≡ true)
        × ((visible_task uncommitted 1 3 start).0 ≡ err (db other)))
visible_task-decides_example = visible_task-decides uncommitted 1 3 start

abbrev titled : CreateTaskRequest
titled = record {
  team_id = 7;
  title = codes "x";
  description = none;
  status = TaskStatus.todo;
  assignee_id = some 2;
}

-- The INSERT fails.
abbrev unwritten : Env
unwritten = env_failing (λ n. n == 3)

unwritten_fails : (create unwritten (some key_cache) 1 titled start).0 ≡ err (db other)
unfolding create TaskStatus.is_valid find secunda_homework.Repository.Rows.on_duplicate
    secunda_homework.Repository.Tasks.create_task secunda_homework.Repository.Teams.get_member
    secunda_homework.Service.Access.require_member secunda_homework.Service.Tasks.is_refused
    secunda_homework.Store.Calls.exec secunda_homework.Store.Calls.now
    secunda_homework.Store.Calls.query secunda_homework.Store.Monad.◌>>=◌ secunda_homework.Text.beq
    secunda_homework.Text.one_of secunda_homework.Text.trim_space
unwritten_fails = refl

abbrev pub first_page : TaskFilter
first_page = record {
  team_id = 7;
  status = codes "";
  assignee_id = none;
  page = pos 1;
  limit = pos 20;
}

titled_fits : is_refused titled ≡ false
unfolding is_refused TaskStatus.is_valid secunda_homework.Text.beq secunda_homework.Text.one_of
    secunda_homework.Text.trim_space
titled_fits = refl

titled_assignable : assignee_exists titled.assignee_id tables.users ≡ true
unfolding user_exists secunda_homework.Base.any
titled_assignable = refl

ann_in_titled : find (is_member 7 1) tables.members ≡ some ann_in_core
unfolding find
ann_in_titled = refl

titled_team : find (λ v. v.id == 7) tables.teams ≡ some core
unfolding find
titled_team = refl

titled_creator : find (λ v. v.id == 1) tables.users ≡ some ann
unfolding find
titled_creator = refl

create_task_succeeds_example :
    (create calm (some key_cache) 1 titled start).0
    ≡ ok (record {
      id = 4;
      team_id = 7;
      title = trim_space (codes "x");
      description = none;
      status = TaskStatus.todo;
      assignee_id = some 2;
      created_by = 1;
      created_at = 1001;
      updated_at = 1002;
      deleted_at = none;
    })
create_task_succeeds_example =
    create_task_succeeds calm (some key_cache) 1 titled start core ann ann_in_core (λ n. refl)
      (λ n. refl) titled_fits ann_in_titled titled_team titled_creator titled_assignable
