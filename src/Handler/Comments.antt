-- ===== src/Handler/Comments.antt =====
-- internal/handler/comment.go.
use secunda_homework.Base.{ℕ, Option}
use secunda_homework.Text.{Bytes}
use secunda_homework.Dto.Requests.{CreateCommentRequest}
use secunda_homework.Store.State.{World, Env}
use secunda_homework.Service.Comments
use secunda_homework.Handler.{
  Response, commented_body, comments_body, answer, path_id, with_id, with_body,
}

module _ {R : Type 0} (env : Env) where
  unfoldable pub create_comment :
      ℕ → Bytes → Option CreateCommentRequest → World R → Response × World R
  create_comment uid param body =
      with_id
        (λ task_id.
          with_body
            (λ req.
              answer (λ id. record { status = 201; body = commented_body id task_id })
                (Comments.create env uid task_id req))
            body)
        (path_id param)

  unfoldable pub list_comments : ℕ → Bytes → World R → Response × World R
  list_comments uid param =
      with_id
        (λ task_id.
          answer (λ items. record { status = 200; body = comments_body items })
            (Comments.list env uid task_id))
        (path_id param)
