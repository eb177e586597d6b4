-- ===== src/Repository/History/Laws.antt =====
-- What the inserts into the history do to the tables.
use secunda_homework.Base.{ℕ, suc, List, [], ◌∷◌, ◌++◌, ◌≡◌, arith}
use secunda_homework.Entity.Rows.{TaskHistory}
use secunda_homework.Store.State.{World, Env}
use secunda_homework.Store.Monad.{ok}
use secunda_homework.Store.Calls.{exec}
use secunda_homework.Repository.History.{insert_history, insert_history_tx, history_row}

-- Rows as the database numbers them.
abbrev pub numbered : ℕ → List TaskHistory → List TaskHistory
numbered n [] = []
numbered n (h ∷ hs) = (record h { id = n }) ∷ numbered (suc n) hs

module _ {R : Type 0} (env : Env) where
  pub insert_history_tx-ok :
      (h : TaskHistory) (w : World R)
      → (insert_history_tx env h w).0 ≡ ok tt
      → ((insert_history_tx env h w).1.db ≡ record w.db {
        history =
            w.db.history ++ (record (history_row env.column_time h) { id = w.seq.history }) ∷ [];
      })
        × ((insert_history_tx env h w).1.seq.history ≡ suc w.seq.history)
  unfolding insert_history_tx insert_history exec
  insert_history_tx-ok h w p = (ground arith, ground arith)
