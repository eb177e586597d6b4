-- ===== src/Repository/Comments.antt =====
-- internal/repository/comment_repo.go.
use secunda_homework.Base.{ℕ, suc, List, [], ◌∷◌, ◌++◌, if◌then◌else◌, select, ◌==◌, leb, ◌&&◌}
use secunda_homework.Entity.Rows.{TaskComment}
use secunda_homework.Store.State.{Db, Seq, Env, db, other}
use secunda_homework.Store.Monad.{M, Result, ok, err, pure, map_err, ◌>>=◌, ◌>>◌}
use secunda_homework.Store.Calls.{query, exec, check_result}
use secunda_homework.Repository.Rows.{on_duplicate, order_by, user_exists, task_exists}

-- INSERT INTO task_comments; the task and the user must exist.
unfoldable pub insert_comment : TaskComment → ℕ → Db → Seq → Result (ℕ × Db × Seq)
insert_comment c at d s =
    if task_exists c.task_id d.tasks && user_exists c.user_id d.users
    then ok (
      s.comment,
      record d { comments = d.comments ++ (record c { id = s.comment }) ∷ [] },
      record s { comment = suc s.comment },
    )
    else err (db other)

abbrev pub comment_row : (ℕ → ℕ) → TaskComment → TaskComment
comment_row column_time c = record c {
  created_at = column_time c.created_at;
  updated_at = column_time c.updated_at;
}

module _ {R : Type 0} (env : Env) where
  unfoldable pub create_comment : TaskComment → M R ℕ
  create_comment c = do
    id ← map_err on_duplicate (exec env (insert_comment (comment_row env.column_time c)))
    check_result env
    pure id

  unfoldable pub list_comments : ℕ → M R (List TaskComment)
  list_comments task_id =
      query env
        (λ d. ok (order_by (λ a b. leb a.id b.id) (select (λ c. c.task_id == task_id) d.comments)))
