-- ===== src/Service/Tasks/Recording.antt =====
-- The transaction of `Update` (internal/service/task_service.go) where it succeeds.
use mathlib.Core.List.{append_assoc}
use secunda_homework.Base.{
  ℕ, suc, false, some, List, [], ◌∷◌, ◌++◌, append_nil, map, ◌≡◌, sym, ap, ◌∙◌, find, update,
}
use secunda_homework.Entity.Rows.{Task, TaskHistory}
use secunda_homework.Store.State.{Db, World, Env}
use secunda_homework.Store.Monad.{ok, bind-ok, ◌>>=◌}
use secunda_homework.Repository.Tasks.{
  TaskPatch, has_id, is_live_with, apply_patch, is_empty_patch, update_task_tx, write_patch,
}
use secunda_homework.Repository.Tasks.Laws.{write_patch-ok}
use secunda_homework.Repository.History.{history_row, insert_history_tx}
use secunda_homework.Repository.History.Laws.{numbered, insert_history_tx-ok}
use secunda_homework.Service.Audit.{build_history_entries}
use secunda_homework.Service.Tasks.{insert_entries, record_changes, update_and_record}

-- The tables after a change of one task.
abbrev pub changed_db : Db → List Task → List TaskHistory → Db
changed_db d tasks entries = record d { tasks = tasks; history = d.history ++ entries }

entry_added :
    (d d' : Db) (a : TaskHistory) (n n' : ℕ) (hs : List TaskHistory)
    → d' ≡ record d { history = d.history ++ a ∷ [] }
    → n' ≡ suc n
    → record d' { history = d'.history ++ numbered n' hs }
      ≡ record d { history = d.history ++ a ∷ numbered (suc n) hs }
entry_added d d' a n n' hs p q = rw (p, q, append_assoc)

row_and_entries :
    (d d1 d2 : Db) (n n1 : ℕ) (rows : List Task) (entries : Task → List TaskHistory) (new u : Task)
    → d1 ≡ record d { tasks = rows }
    → n1 ≡ n
    → new ≡ u
    → d2 ≡ record d1 { history = d1.history ++ numbered n1 (entries new) }
    → d2 ≡ changed_db d rows (numbered n (entries u))
row_and_entries d d1 d2 n n1 rows entries new u p q r s = rw (s, p, q, r)

module _ {R : Type 0} (env : Env) where
  insert_entries-ok :
      (hs : List TaskHistory) (w : World R)
      → (insert_entries env hs w).0 ≡ ok tt
      → (insert_entries env hs w).1.db ≡ record w.db {
        history = w.db.history ++ numbered w.seq.history (map (history_row env.column_time) hs);
      }
  unfolding insert_entries
  insert_entries-ok [] w h = rw append_nil
  insert_entries-ok (x ∷ hs) w h =
      let (_, first, same, rest) = bind-ok (insert_history_tx env x) _ w h in
      let (rows, next) = insert_history_tx-ok env x w first in
      ap (λ v. v.1.db) same
      ∙ insert_entries-ok hs (insert_history_tx env x w).1 rest
      ∙ entry_added w.db (insert_history_tx env x w).1.db _ w.seq.history
          (insert_history_tx env x w).1.seq.history (map (history_row env.column_time) hs) rows next

  update_task_tx-full :
      (id : ℕ) (p : TaskPatch)
      → is_empty_patch p ≡ false
      → update_task_tx {R = R} env id p ≡ write_patch env id p
  unfolding update_task_tx
  update_task_tx-full id p full = rw full

  record_changes-ok :
      (task_id actor_id at : ℕ) (old new : Task) (patch : TaskPatch) (w : World R) {u : Task}
      → (record_changes env task_id actor_id at old patch (some new) w).0 ≡ ok u
      → (new ≡ u)
        × ((record_changes env task_id actor_id at old patch (some new) w).1.db ≡ record w.db {
          history =
              w.db.history
              ++ numbered w.seq.history (
                  map
                    (history_row env.column_time)
                    (build_history_entries task_id actor_id at old new patch));
        })
  unfolding record_changes
  record_changes-ok task_id actor_id at old new patch w h =
      let entries = build_history_entries task_id actor_id at old new patch in
      let (_, done, same, rest) = bind-ok (insert_entries env entries) _ w h in
      (cc, ap (λ v. v.1.db) same ∙ insert_entries-ok entries w done)

  -- The UPDATE and the entries, in one.
  written_and_recorded :
      (task_id actor_id at : ℕ) (old : Task) (patch : TaskPatch) (w : World R) {u : Task}
      → ((write_patch env task_id patch >>= record_changes env task_id actor_id at old patch) w).0
        ≡ ok u
      → let rows : List Task =
          update
            (is_live_with task_id)
            (apply_patch patch (env.column_time (env.clock w.step)))
            w.db.tasks in
        (((write_patch env task_id patch >>= record_changes env task_id actor_id at old patch)
            w).1.db
          ≡ changed_db w.db rows (
              numbered w.seq.history (
                map
                  (history_row env.column_time)
                  (build_history_entries task_id actor_id at old u patch))))
        × (find (has_id task_id) rows ≡ some u)
  written_and_recorded task_id actor_id at old patch w {u} h =
      let (found, written, same, rest) =
        bind-ok (write_patch env task_id patch) (record_changes env task_id actor_id at old patch) w
          h in
      let (new, is_new, rows, seq, row) = write_patch-ok env task_id patch w written in
      let w1 = (write_patch env task_id patch w).1 in
      let (u_is_new, history) =
        record_changes-ok task_id actor_id at old new patch w1 (rw is_new at rest) in
      (
        ap (λ v. v.1.db) same
            ∙ ap (λ o. (record_changes env task_id actor_id at old patch o w1).1.db) is_new
            ∙ row_and_entries w.db w1.db _ w.seq.history w1.seq.history _
                (λ t.
                  map (history_row env.column_time)
                    (build_history_entries task_id actor_id at old t patch))
                new u rows (ap (λ v. v.history) seq) u_is_new history,
        sym (ap (λ d. find (has_id task_id) d.tasks) rows) ∙ row ∙ ap some u_is_new,
      )

  pub update_and_record-ok :
      (task_id actor_id at : ℕ) (old : Task) (patch : TaskPatch) (w : World R) {u : Task}
      → is_empty_patch patch ≡ false
      → (update_and_record env task_id actor_id at old patch w).0 ≡ ok u
      → let rows : List Task =
          update
            (is_live_with task_id)
            (apply_patch patch (env.column_time (env.clock w.step)))
            w.db.tasks in
        ((update_and_record env task_id actor_id at old patch w).1.db
          ≡ changed_db w.db rows (
              numbered w.seq.history (
                map
                  (history_row env.column_time)
                  (build_history_entries task_id actor_id at old u patch))))
        × (find (has_id task_id) rows ≡ some u)
  unfolding update_and_record
  update_and_record-ok task_id actor_id at old patch w full h =
      let e = update_task_tx-full task_id patch full in
      rw e (written_and_recorded task_id actor_id at old patch w (rw e at h))
