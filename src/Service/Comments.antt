-- ===== src/Service/Comments.antt =====
-- internal/service/comment_service.go.
pub mod Laws
pub mod Posting
use secunda_homework.Base.{ℕ, ◌||◌, List, map, ltb, length}
use secunda_homework.Text.{Bytes, is_empty, trim_space}
use secunda_homework.Entity.Rows.{TaskComment}
use secunda_homework.Dto.Requests.{CreateCommentRequest}
use secunda_homework.Dto.Responses.{CommentResponse}
use secunda_homework.Store.State.{Env, validation}
use secunda_homework.Store.Monad.{M, pure, stop_if, ◌>>=◌, ◌>>◌}
use secunda_homework.Store.Calls.{now}
use secunda_homework.Repository.Comments.{create_comment, list_comments}
use secunda_homework.Service.Access.{visible_task}
use mathlib.Core.Option.{none}

abbrev pub comment_body_max_len : ℕ
comment_body_max_len = 4000

abbrev pub new_comment : ℕ → ℕ → Bytes → ℕ → ℕ → TaskComment
new_comment task_id caller_id body created updated = record {
  id = 0;
  task_id = task_id;
  user_id = caller_id;
  body = body;
  created_at = created;
  updated_at = updated;
}

unfoldable pub to_comment_response : (ℕ → Bytes) → TaskComment → CommentResponse
to_comment_response format c = record {
  id = c.id;
  task_id = c.task_id;
  user_id = c.user_id;
  body = c.body;
  created_at = format c.created_at;
  updated_at = format c.updated_at;
}

module _ {R : Type 0} (env : Env) where
  unfoldable pub create : ℕ → ℕ → CreateCommentRequest → M R ℕ
  create caller_id task_id req = do
    let body = trim_space req.body
    stop_if (is_empty body || ltb comment_body_max_len (length body)) (validation none)
    t ← visible_task env caller_id task_id
    created ← now env
    updated ← now env
    create_comment env (new_comment task_id caller_id body created updated)

  unfoldable pub list : ℕ → ℕ → M R (List CommentResponse)
  list caller_id task_id = do
    t ← visible_task env caller_id task_id
    rows ← list_comments env task_id
    pure (map (to_comment_response env.format_time) rows)
