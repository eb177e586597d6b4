-- ===== src/Repository/Tasks.antt =====
-- internal/repository/task_repo.go.
pub mod Laws
use secunda_homework.Base.{
  ℕ, zero, suc, ℤ, pos, negsuc, Bool, true, false, not, ◌&&◌, ◌||◌, Option, none, some, List, [],
  ◌∷◌, ◌++◌, if◌then◌else◌, any, find, select, update, ◌==◌, is_some, is_none, leb, length, take,
  drop,
}
use secunda_homework.Text.{Bytes, beq, is_empty}
use secunda_homework.Entity.TaskStatus.{TaskStatus}
use secunda_homework.Entity.Rows.{Task, User}
use secunda_homework.Dto.Filter.{TaskFilter, offset}
use secunda_homework.Store.State.{Db, Seq, Env, Err, db, no_rows, other, not_found}
use secunda_homework.Store.Monad.{M, Result, ok, err, pure, throw, reject, map_err, ◌>>=◌, ◌>>◌}
use secunda_homework.Store.Calls.{query, exec, check_result}
use secunda_homework.Repository.Rows.{
  wrap, on_duplicate, one_row, order_by, team_exists, user_exists, assignee_exists,
}

pub record TaskPatch : Type 0 where
  pub title : Option Bytes
  pub description : Option Bytes
  pub status : Option TaskStatus
  pub assignee_id : Option ℕ
  pub clear_assignee : Bool

abbrev pub has_id : ℕ → Task → Bool
has_id id t = t.id == id

abbrev pub is_live : Task → Bool
is_live t = is_none t.deleted_at

-- INSERT INTO tasks; the team, the assignee and the creator must exist.
unfoldable pub insert_task : Task → ℕ → Db → Seq → Result (ℕ × Db × Seq)
insert_task t at d s =
    if team_exists t.team_id d.teams
      && (user_exists t.created_by d.users && assignee_exists t.assignee_id d.users)
    then ok (
      s.task,
      record d { tasks = d.tasks ++ (record t { id = s.task; deleted_at = none }) ∷ [] },
      record s { task = suc s.task },
    )
    else err (db other)

abbrev pub assignee_is : Option ℕ → Option ℕ → Bool
assignee_is none wanted = true
assignee_is (some id) none = false
assignee_is (some id) (some k) = k == id

-- `buildTaskListWhere`: the conditions that it joins by AND.
unfoldable pub task_list_where : (Bytes → Bytes → Bool) → TaskFilter → Task → Bool
task_list_where collate f t =
    (f.team_id == 0 || t.team_id == f.team_id)
    && ((is_empty f.status || collate t.status f.status)
        && (assignee_is f.assignee_id t.assignee_id && is_live t))

-- LIMIT ? OFFSET ?
unfoldable pub window :
    (ℤ → ℤ → List Task → Option (List Task)) → ℤ → ℤ → List Task → Option (List Task)
window odd (pos limit) (pos offset) rows = some (take limit (drop offset rows))
window odd limit offset rows = odd limit offset rows

abbrev pub or_fails : {A : Type 0} → Option A → Result A
or_fails none = err (db other)
or_fails (some a) = ok a

abbrev pub assigned : {A : Type 0} → Option A → A → A
assigned none old = old
assigned (some new) old = new

-- The assignments of UPDATE tasks SET.
abbrev pub new_description : Option Bytes → Option Bytes → Option Bytes
new_description none old = old
new_description (some new) old = some new

abbrev pub new_assignee : Bool → Option ℕ → Option ℕ → Option ℕ
new_assignee true new old = none
new_assignee false none old = old
new_assignee false (some id) old = some id

unfoldable pub apply_patch : TaskPatch → ℕ → Task → Task
apply_patch p at t = record t {
  title = assigned p.title t.title;
  description = new_description p.description t.description;
  status = assigned p.status t.status;
  assignee_id = new_assignee p.clear_assignee p.assignee_id t.assignee_id;
  updated_at = at;
}

abbrev same_text : Option Bytes → Option Bytes → Bool
same_text none none = true
same_text (some s) (some t) = beq s t
same_text _ _ = false

abbrev same_id : Option ℕ → Option ℕ → Bool
same_id none none = true
same_id (some a) (some b) = a == b
same_id _ _ = false

-- Whether a row is counted as changed.
abbrev changes : Task → Task → Bool
changes t u = not (
    beq t.title u.title
    && (same_text t.description u.description
        && (beq t.status u.status
            && (same_id t.assignee_id u.assignee_id && t.updated_at == u.updated_at))))

-- WHERE id = ? AND deleted_at IS NULL
abbrev pub is_live_with : ℕ → Task → Bool
is_live_with id t = has_id id t && is_live t

abbrev pub target_exists : TaskPatch → List User → Bool
target_exists p users = p.clear_assignee || assignee_exists p.assignee_id users

-- UPDATE tasks; gives whether a row was changed. A new assignee must exist, if there is a row to
-- change.
unfoldable pub update_task : (ℕ → ℕ) → ℕ → TaskPatch → ℕ → Db → Seq → Result (Bool × Db × Seq)
update_task column_time id p at d s =
    let at' = column_time at in
    if any (is_live_with id) d.tasks && not (target_exists p d.users)
    then err (db other)
    else ok (
      any (λ t. is_live_with id t && changes t (apply_patch p at' t)) d.tasks,
      record d { tasks = update (is_live_with id) (apply_patch p at') d.tasks },
      s,
    )

-- UPDATE tasks SET deleted_at; `updated_at` is an ON UPDATE column.
abbrev pub deleted_row : ℕ → Task → Task
deleted_row at t = record t { deleted_at = some at; updated_at = at }

unfoldable pub delete_task : (ℕ → ℕ) → ℕ → ℕ → Db → Seq → Result (Bool × Db × Seq)
delete_task column_time id at d s = ok (
  any (is_live_with id) d.tasks,
  record d { tasks = update (is_live_with id) (deleted_row (column_time at)) d.tasks },
  s,
)

unfoldable pub is_empty_patch : TaskPatch → Bool
is_empty_patch p =
    is_none p.title
    && (is_none p.description
        && (is_none p.status && (is_none p.assignee_id && not p.clear_assignee)))

abbrev pub task_row : (ℕ → ℕ) → Task → Task
task_row column_time t = record t {
  created_at = column_time t.created_at;
  updated_at = column_time t.updated_at;
}

-- The end of `UpdateTx`: the row that was read back, and whether the UPDATE changed one.
unfoldable pub check_updated : {R : Type 0} → Bool → Option Task → M R (Option Task)
check_updated changed none = throw not_found
check_updated changed (some t) =
    reject (not changed && is_some t.deleted_at) not_found (pure (some t))

module _ {R : Type 0} (env : Env) where
  unfoldable pub create_task : Task → M R ℕ
  create_task t = do
    id ← map_err on_duplicate (exec env (insert_task (task_row env.column_time t)))
    check_result env
    pure id

  -- Deleted tasks are found too.
  unfoldable pub find_task : ℕ → M R Task
  find_task id = map_err wrap (query env (λ d. one_row (find (has_id id) d.tasks)))

  unfoldable pub list_tasks : TaskFilter → M R (List Task)
  list_tasks f = query env (λ d. or_fails (
      window env.odd_window f.limit (offset f)
        (order_by (λ a b. leb a.id b.id) (select (task_list_where env.collate f) d.tasks))))

  unfoldable pub count_tasks : TaskFilter → M R ℕ
  count_tasks f = query env (λ d. ok (length (select (task_list_where env.collate f) d.tasks)))

  -- `findByIDWith`: no such task is `nil` without an error.
  unfoldable pub find_task_with : ℕ → M R (Option Task)
  find_task_with id = query env (λ d. ok (find (has_id id) d.tasks))

  -- The branch of `UpdateTx` that writes.
  unfoldable pub write_patch : ℕ → TaskPatch → M R (Option Task)
  write_patch id p = do
    changed ← exec env (update_task env.column_time id p)
    check_result env
    found ← find_task_with id
    check_updated changed found

  unfoldable pub update_task_tx : ℕ → TaskPatch → M R (Option Task)
  update_task_tx id p = if is_empty_patch p then find_task_with id else write_patch id p

  unfoldable pub missing_or_deleted : ℕ → M R (Unit {0})
  missing_or_deleted id = do
    t ← map_err wrap (query env (λ d. one_row (find (has_id id) d.tasks)))
    throw not_found

  unfoldable pub soft_delete : ℕ → M R (Unit {0})
  soft_delete id = do
    changed ← exec env (delete_task env.column_time id)
    check_result env
    if changed then pure tt else missing_or_deleted id
