-- ===== src/Service/Comments/Laws.antt =====
-- What a comment that was accepted has done, and that a refused one has done nothing.
use secunda_homework.Base.{
  ℕ, Bool, false, ◌||◌, ◌≤◌, none, some, [], ◌∷◌, ◌++◌, ◌≡◌, ap, ◌∙◌, arith, find, ltb, length,
}
use secunda_homework.Text.{Bytes, is_empty, trim_space}
use secunda_homework.Entity.Rows.{Task, TaskComment, TeamMember}
use secunda_homework.Dto.Requests.{CreateCommentRequest}
use secunda_homework.Store.State.{Db, World, Env, Err, validation}
use secunda_homework.Store.Monad.{ok, err, stop_if, stop_if-ok}
use secunda_homework.Store.Calls.{now}
use secunda_homework.Store.Effects.{
  passed, Reads-stop_if, Reads-now, Atomic-bind, Atomic-last, Atomic-map_err, Atomic-exec,
  Total-bind, Total-pure, Total-check_result,
}
use secunda_homework.Repository.Teams.{is_member}
use secunda_homework.Repository.Tasks.{has_id}
use secunda_homework.Repository.Comments.{comment_row, create_comment}
use secunda_homework.Repository.Inserts.{create_comment-ok}
use secunda_homework.Service.Access.{visible_task}
use secunda_homework.Service.Access.Laws.{visible_task-ok}
use secunda_homework.Service.Tasks.Effects.{Reads-visible_task}
use secunda_homework.Service.Comments.{comment_body_max_len, new_comment, create}

-- The tables before and after a comment with the given key.
pub record IsPosted (env : Env) (caller_id task_id : ℕ) (body : Bytes) (before after : Db) (id : ℕ)
    : Type 0 where
  pub task : Task
  pub member : TeamMember
  pub created : ℕ
  pub updated : ℕ
  pub given : is_empty body ≡ false
  pub short : length body ≤ comment_body_max_len
  pub found : find (has_id task_id) before.tasks ≡ some task
  pub belongs : find (is_member task.team_id caller_id) before.members ≡ some member
  pub rows : after ≡ record before {
    comments =
        before.comments
        ++ (record (comment_row env.column_time
            (new_comment task_id caller_id body created updated)) { id = id })
          ∷ [];
  }

row_added :
    (d before : Db) (c : TaskComment) (n id : ℕ)
    → d ≡ before
    → id ≡ n
    → record d { comments = d.comments ++ (record c { id = n }) ∷ [] }
      ≡ record before { comments = before.comments ++ (record c { id = id }) ∷ [] }
row_added d before c n id p q = rw (p, q)

module _ {R : Type 0} (env : Env) where
  -- A comment that is accepted has a trimmed body of 1 to 4000 bytes, stands on a task of a team
  -- that its author is in, and is the one new row, with the key that is returned.
  pub create-IsPosted :
      (caller_id task_id : ℕ) (req : CreateCommentRequest) (w : World R) (id : ℕ)
      → (create env caller_id task_id req w).0 ≡ ok id
      → IsPosted env caller_id task_id
          (trim_space req.body)
          w.db
          (create env caller_id task_id req w).1.db
          id
  unfolding create
  create-IsPosted caller_id task_id req w id h =
      let body = trim_space req.body in
      let refused : Bool = is_empty body || ltb comment_body_max_len (length body) in
      let p =
        passed (stop_if refused (validation none)) _ w (Reads-stop_if refused (validation none))
          h in
      let fine = stop_if-ok refused (validation none) w p.first in
      let q =
        passed (visible_task env caller_id task_id) _ _ (Reads-visible_task env caller_id task_id)
          p.rest in
      let (found, (m, belongs)) = visible_task-ok env caller_id task_id _ q.first in
      let r = passed (now env) _ _ (Reads-now env) q.rest in
      let s = passed (now env) _ _ (Reads-now env) r.rest in
      let (key, row) =
        create_comment-ok env (new_comment task_id caller_id body r.value s.value) _ s.rest in
      record {
        task = q.value;
        member = m;
        created = r.value;
        updated = s.value;
        given = ground arith;
        short = ground arith;
        found = rw p.db at found;
        belongs = rw p.db at belongs;
        rows =
            ap (λ v. v.1.db) (p.whole ∙ q.whole ∙ r.whole ∙ s.whole)
            ∙ row
            ∙ row_added _ w.db
                (comment_row env.column_time (new_comment task_id caller_id body r.value s.value)) _
                id (s.db ∙ r.db ∙ q.db ∙ p.db) key;
      }

  -- With a driver whose results do not fail, a comment that is refused, at whatever call, has
  -- changed no table.
  pub post_atomic :
      (caller_id task_id : ℕ) (req : CreateCommentRequest) (w : World R) (e : Err)
      → ((n : ℕ) → env.result_fails n ≡ false)
      → (create env caller_id task_id req w).0 ≡ err e
      → (create env caller_id task_id req w).1.db ≡ w.db
  unfolding create create_comment
  post_atomic caller_id task_id req w e results_hold h =
      (Atomic-bind _ _ (Reads-stop_if _ _) (λ _.
          Atomic-bind _ _ (Reads-visible_task env caller_id task_id) (λ t.
            Atomic-bind _ _ (Reads-now env) (λ a. Atomic-bind _ _ (Reads-now env) (λ b.
              Atomic-last _ _ (Atomic-map_err _ _ (Atomic-exec env _)) (λ id.
                Total-bind _ _ (Total-check_result env results_hold)
                  (λ _. Total-pure id))))))).undone
        w h
