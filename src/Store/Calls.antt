-- ===== src/Store/Calls.antt =====
-- The calls of the outside world. Each takes a step, at which the environment decides whether it
-- fails and what time it is.
use secunda_homework.Base.{ℕ, if◌then◌else◌}
use secunda_homework.Store.State.{Db, Seq, World, Env, db, other, next_step}
use secunda_homework.Store.Monad.{M, Result, ok, err, ◌>>◌}

module _ {R : Type 0} (env : Env) where
  -- `time.Now()`.
  unfoldable pub now : M R ℕ
  now w = (ok (env.clock w.step), next_step w)

  -- A call of `LastInsertId` or `RowsAffected` on the result of a statement.
  unfoldable pub check_result : M R (Unit {0})
  check_result w = (if env.result_fails w.step then err (db other) else ok tt, next_step w)

  -- BEGIN, which may fail.
  unfoldable pub begin : M R (Unit {0})
  begin w = (if env.db_fails w.step then err (db other) else ok tt, next_step w)

module _ {R A : Type 0} (env : Env) where
  -- A statement that reads.
  unfoldable pub query : (Db → Result A) → M R A
  query f w = (if env.db_fails w.step then err (db other) else f w.db, next_step w)

  abbrev pub written : Result (A × Db × Seq) → World R → Result A × World R
  written (ok (a, db', seq')) w = (ok a, record w { db = db'; seq = seq' })
  written (err e) w = (err e, w)

  -- A statement that writes, at the time of the database server. One that fails writes nothing.
  unfoldable pub exec : (ℕ → Db → Seq → Result (A × Db × Seq)) → M R A
  exec f w =
      written (if env.db_fails w.step then err (db other) else f (env.clock w.step) w.db w.seq)
        (next_step w)

  -- The end of a transaction: COMMIT may fail, and then nothing of the transaction is left.
  unfoldable pub finish : Db → Result A → M R A
  finish before (err e) w = (err e, record w { db = before })
  finish before (ok a) w =
      if env.db_fails w.step
      then (err (db other), next_step (record w { db = before }))
      else (ok a, next_step w)

  -- `WithinTx` of internal/service/transactor.go.
  unfoldable pub within_tx : M R A → M R A
  within_tx m = begin env >> λ w. let (r, w') = m w in finish w.db r w'
