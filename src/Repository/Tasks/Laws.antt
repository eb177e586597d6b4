-- ===== src/Repository/Tasks/Laws.antt =====
-- What the statements on tasks do to the tables.
use secunda_homework.Base.{
  ℕ, suc, false, Option, some, List, ◌≡◌, inl, inr, arith, find, update, update-none, Option-cases,
}
use secunda_homework.Entity.Rows.{Task}
use secunda_homework.Store.State.{World, Env}
use secunda_homework.Store.Monad.{ok, ◌>>=◌}
use secunda_homework.Store.Calls.{query, exec, check_result}
use secunda_homework.Store.Effects.{
  Atomic, Total-bind, Total-pure, Total-check_result, Atomic-last, Atomic-map_err, Atomic-exec,
}
use secunda_homework.Repository.Tasks.{
  is_live_with, deleted_row, delete_task, missing_or_deleted, soft_delete, create_task, has_id,
  TaskPatch, apply_patch, write_patch, update_task, find_task_with, check_updated,
}

module _ {R : Type 0} (env : Env) (results_hold : (n : ℕ) → env.result_fails n ≡ false) where
  pub Atomic-create_task : (t : Task) → Atomic {R = R} (create_task env t)
  unfolding create_task
  Atomic-create_task t =
      Atomic-last _ _ (Atomic-map_err _ _ (Atomic-exec env _))
        (λ id. Total-bind _ _ (Total-check_result env results_hold) (λ _. Total-pure id))

  -- A deletion that finds no live task has changed nothing.
  pub Atomic-soft_delete : (id : ℕ) → Atomic {R = R} (soft_delete env id)
  unfolding soft_delete exec check_result query missing_or_deleted delete_task ◌>>=◌
  Atomic-soft_delete id = record {
    undone = λ w h. ground (
      arith,
      results_hold (suc w.step),
      update-none (is_live_with id) (deleted_row (env.column_time (env.clock w.step))) w.db.tasks,
    );
  }

module _ {R : Type 0} (env : Env) where
  -- A patch that is written changes the live row with its identifier and no other table, and gives
  -- the row as it is now.
  pub write_patch-ok :
      (id : ℕ) (p : TaskPatch) (w : World R) {u : Option Task}
      → (write_patch env id p w).0 ≡ ok u
      → (t : Task) × (u ≡ some t)
        × ((write_patch env id p w).1.db ≡ record w.db {
          tasks =
              update
                (is_live_with id)
                (apply_patch p (env.column_time (env.clock w.step)))
                w.db.tasks;
        })
        × ((write_patch env id p w).1.seq ≡ w.seq)
        × (find (has_id id) (write_patch env id p w).1.db.tasks ≡ some t)
  unfolding write_patch update_task exec check_result query find_task_with check_updated ◌>>=◌
  write_patch-ok id p w h =
      let after : List Task =
        update (is_live_with id) (apply_patch p (env.column_time (env.clock w.step))) w.db.tasks in
      elim (Option-cases (find (has_id id) after)) [
        | inl gone ↦ ground arith
        | inr (t, found) ↦ (t, ground arith, ground arith, ground arith, ground arith)
      ]
