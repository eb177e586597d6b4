-- ===== src/Service/Comments/Posting.antt =====
-- When a comment is accepted.
use secunda_homework.Base.{ℕ, false, ◌||◌, ◌==◌, some, ◌≡◌, find, any_of_find, ltb, length}
use secunda_homework.Text.{is_empty, trim_space}
use secunda_homework.Entity.Rows.{User, Task, TeamMember}
use secunda_homework.Dto.Requests.{CreateCommentRequest}
use secunda_homework.Store.State.{World, Env}
use secunda_homework.Store.Monad.{ok, ◌>>=◌}
use secunda_homework.Store.Calls.{now, query, exec, check_result}
use secunda_homework.Repository.Rows.{task_exists, user_exists, on_duplicate, wrap}
use secunda_homework.Repository.Teams.{is_member, get_member}
use secunda_homework.Repository.Tasks.{has_id, find_task}
use secunda_homework.Repository.Comments.{create_comment, insert_comment}
use secunda_homework.Service.Access.{not_found_as, require_member, visible_task}
use secunda_homework.Service.Comments.{comment_body_max_len, create}

module _ {R : Type 0} (env : Env) where
  -- While neither a call of the driver nor a result fails, a comment with a trimmed body of 1 to
  -- 4000 bytes, by a registered member of the task's team, returns the next key of the comments.
  pub post_succeeds :
      (caller_id task_id : ℕ) (req : CreateCommentRequest) (w : World R) (u : User) (t : Task)
      (m : TeamMember)
      → ((n : ℕ) → env.db_fails n ≡ false)
      → ((n : ℕ) → env.result_fails n ≡ false)
      → is_empty (trim_space req.body) || ltb comment_body_max_len (length (trim_space req.body))
        ≡ false
      → find (λ v. v.id == caller_id) w.db.users ≡ some u
      → find (has_id task_id) w.db.tasks ≡ some t
      → find (is_member t.team_id caller_id) w.db.members ≡ some m
      → (create env caller_id task_id req w).0 ≡ ok w.seq.comment
  unfolding create visible_task find_task require_member get_member query now create_comment exec
      insert_comment check_result on_duplicate wrap not_found_as task_exists user_exists ◌>>=◌
  post_succeeds caller_id task_id req w u t m q s fits known found belongs =
      let registered = any_of_find (λ v. v.id == caller_id) w.db.users known in
      let there = any_of_find (has_id task_id) w.db.tasks found in
      simp (fits, q, s, found, belongs, there, registered)
