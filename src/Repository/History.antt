-- ===== src/Repository/History.antt =====
-- internal/repository/history_repo.go.
pub mod Laws
use secunda_homework.Base.{ℕ, suc, List, [], ◌∷◌, ◌++◌, if◌then◌else◌, select, ◌==◌, leb, ◌&&◌}
use secunda_homework.Entity.Rows.{TaskHistory}
use secunda_homework.Store.State.{Db, Seq, Env, Err, db, other}
use secunda_homework.Store.Monad.{M, Result, ok, err}
use secunda_homework.Store.Calls.{query, exec}
use secunda_homework.Repository.Rows.{order_by, user_exists, task_exists}

-- INSERT INTO task_history; the task and the user must exist.
unfoldable pub insert_history : TaskHistory → ℕ → Db → Seq → Result (Unit {0} × Db × Seq)
insert_history h at d s =
    if task_exists h.task_id d.tasks && user_exists h.changed_by d.users
    then ok (
      tt,
      record d { history = d.history ++ (record h { id = s.history }) ∷ [] },
      record s { history = suc s.history },
    )
    else err (db other)

abbrev pub history_row : (ℕ → ℕ) → TaskHistory → TaskHistory
history_row column_time h = record h { changed_at = column_time h.changed_at }

module _ {R : Type 0} (env : Env) where
  unfoldable pub insert_history_tx : TaskHistory → M R (Unit {0})
  insert_history_tx h = exec env (insert_history (history_row env.column_time h))

  unfoldable pub list_history : ℕ → M R (List TaskHistory)
  list_history task_id =
      query env
        (λ d. ok (order_by (λ a b. leb a.id b.id) (select (λ h. h.task_id == task_id) d.history)))
