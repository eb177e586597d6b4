-- ===== src/Invariant/Inserts.antt =====
-- The inserts of tasks, history entries and comments (internal/repository) and the soundness of the
-- tables.
use secunda_homework.Base.{ℕ, true, ◌&&◌, none, ◌≡◌, refl, arith, inl, inr, Bool-cases, and-true}
use secunda_homework.Entity.TaskStatus
use secunda_homework.Entity.TaskStatus.{TaskStatus}
use secunda_homework.Entity.Rows.{Task, TaskHistory, TaskComment}
use secunda_homework.Store.State.{Db, Seq, Env}
use secunda_homework.Store.Keeps.{Writes}
use secunda_homework.Repository.Rows.{user_exists, team_exists, task_exists, assignee_exists}
use secunda_homework.Repository.Tasks.{insert_task}
use secunda_homework.Repository.History.{insert_history}
use secunda_homework.Repository.Comments.{insert_comment}
use secunda_homework.Invariant.{IsText, IsSound}
use secunda_homework.Invariant.Tables.{Keyed-append, All-weaken, All-snoc}
use secunda_homework.Invariant.Statements.{task_exists-snoc}

module _ (env : Env) where
  pub Writes-insert_task :
      (t : Task) (at : ℕ) (d : Db) (s : Seq)
      → IsText 255 t.title
      → TaskStatus.is_valid t.status ≡ true
      → IsSound env d s
      → Writes (IsSound env) s (insert_task t at d s)
  unfolding insert_task
  Writes-insert_task t at d s title status h =
      elim (Bool-cases (
        team_exists t.team_id d.teams
        && (user_exists t.created_by d.users && assignee_exists t.assignee_id d.users))) [
          | inr missing ↦ rw missing tt
          | inl there ↦
              let (team, users) = and-true (team_exists t.team_id d.teams) _ there in
              let (creator, assignee) = and-true (user_exists t.created_by d.users) _ users in
              rw there (
                let row = record t { id = s.task; deleted_at = none } in
                (
                  record {
                    user_keys = h.user_keys;
                    team_keys = h.team_keys;
                    task_keys = Keyed-append _ 0 s.task d.tasks row h.task_keys refl;
                    history_keys = h.history_keys;
                    comment_keys = h.comment_keys;
                    emails = h.emails;
                    memberships = h.memberships;
                    team_rows = h.team_rows;
                    member_rows = h.member_rows;
                    task_rows =
                        All-snoc _ d.tasks row h.task_rows (title, status, team, creator, assignee);
                    history_rows =
                        All-weaken _ _ d.history
                          (λ r p. (task_exists-snoc env r.task_id d.tasks row p.0, p.1))
                          h.history_rows;
                    comment_rows =
                        All-weaken _ _ d.comments
                          (λ c p. (p.0, task_exists-snoc env c.task_id d.tasks row p.1, p.2))
                          h.comment_rows;
                  },
                  omega arith,
                ))
        ]

  pub Writes-insert_history :
      (r : TaskHistory) (at : ℕ) (d : Db) (s : Seq)
      → IsSound env d s
      → Writes (IsSound env) s (insert_history r at d s)
  unfolding insert_history
  Writes-insert_history r at d s h =
      elim (Bool-cases (task_exists r.task_id d.tasks && user_exists r.changed_by d.users)) [
        | inr missing ↦ rw missing tt
        | inl there ↦
            let row = record r { id = s.history } in
            rw there (
              record {
                user_keys = h.user_keys;
                team_keys = h.team_keys;
                task_keys = h.task_keys;
                history_keys = Keyed-append _ 0 s.history d.history row h.history_keys refl;
                comment_keys = h.comment_keys;
                emails = h.emails;
                memberships = h.memberships;
                team_rows = h.team_rows;
                member_rows = h.member_rows;
                task_rows = h.task_rows;
                history_rows = All-snoc _ d.history row h.history_rows (and-true _ _ there);
                comment_rows = h.comment_rows;
              },
              omega arith,
            )
      ]

  pub Writes-insert_comment :
      (c : TaskComment) (at : ℕ) (d : Db) (s : Seq)
      → IsText 4000 c.body
      → IsSound env d s
      → Writes (IsSound env) s (insert_comment c at d s)
  unfolding insert_comment
  Writes-insert_comment c at d s body h =
      elim (Bool-cases (task_exists c.task_id d.tasks && user_exists c.user_id d.users)) [
        | inr missing ↦ rw missing tt
        | inl there ↦
            let row = record c { id = s.comment } in
            let (task, author) =
              and-true (task_exists c.task_id d.tasks) (user_exists c.user_id d.users) there in
            rw there (
              record {
                user_keys = h.user_keys;
                team_keys = h.team_keys;
                task_keys = h.task_keys;
                history_keys = h.history_keys;
                comment_keys = Keyed-append _ 0 s.comment d.comments row h.comment_keys refl;
                emails = h.emails;
                memberships = h.memberships;
                team_rows = h.team_rows;
                member_rows = h.member_rows;
                task_rows = h.task_rows;
                history_rows = h.history_rows;
                comment_rows = All-snoc _ d.comments row h.comment_rows (body, task, author);
              },
              omega arith,
            )
      ]
