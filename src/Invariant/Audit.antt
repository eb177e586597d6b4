-- ===== src/Invariant/Audit.antt =====
-- The statements that write (internal/repository) and the trail of changes.
use secunda_homework.Base.{
  ℕ, Bool, true, none, some, List, [], ◌∷◌, ◌++◌, ◌≡◌, refl, ◌⊎◌, inl, inr, arith, if◌then◌else◌,
  find, find-update, update, ==_iff, Bool-cases, Option-cases,
}
use secunda_homework.Text.{Bytes, codes}
use secunda_homework.Entity.Role
use secunda_homework.Entity.TaskStatus
use secunda_homework.Entity.Rows.{User, Team, TeamMember, Task, TaskHistory, TaskComment}
use secunda_homework.Store.State.{Db, Seq, Env}
use secunda_homework.Store.Monad.{Result, ok, err}
use secunda_homework.Store.Keeps.{Writes}
use secunda_homework.Repository.Users
use secunda_homework.Repository.Teams
use secunda_homework.Repository.Tasks.{has_id, is_live_with, deleted_row, insert_task, delete_task}
use secunda_homework.Repository.Comments
use secunda_homework.Invariant.{IsText, IsSound}
use secunda_homework.Invariant.Tables.{Keyed-lt}
use secunda_homework.Invariant.Statements.{
  Writes-insert_user, Writes-insert_team, Writes-insert_member,
}
use secunda_homework.Invariant.Tasks.{Writes-delete_task}
use secunda_homework.Invariant.Inserts.{Writes-insert_task, Writes-insert_comment}
use secunda_homework.Invariant.Laws.{StatementLaws}
use secunda_homework.Invariant.Trail.{Tells, Audited, IsAudited, last_value, last_value-missing}

-- The rows and the history stay.
pub Audited-same :
    (tasks tasks' : List Task) (hs hs' : List TaskHistory)
    → tasks' ≡ tasks
    → hs' ≡ hs
    → Audited tasks hs
    → Audited tasks' hs'
Audited-same tasks tasks' hs hs' p q h = rw (p, q) h

pub Tells-same :
    (hs : List TaskHistory) (id : ℕ) (t u : Task)
    → u.title ≡ t.title
    → u.status ≡ t.status
    → Tells hs id t
    → Tells hs id u
Tells-same hs id t u p q h = record { title = rw p h.title; status = rw q h.status }

find-snoc :
    {A : Type 0} (p : A → Bool) (xs : List A) (y a : A)
    → find p (xs ++ y ∷ []) ≡ some a
    → (find p xs ≡ some a) ⊎ ((p y ≡ true) × (a ≡ y))
unfolding find
find-snoc p [] y a h = elim (Bool-cases (p y)) [
  | inl yes_y ↦ inr (yes_y, ground arith)
  | inr no_y ↦ absurd (ground arith)
]
find-snoc p (x ∷ xs) y a h = elim (Bool-cases (p x)) [
  | inl yes_x ↦ inl (ground arith)
  | inr no_x ↦ elim (find-snoc p xs y a (ground arith)) [
    | inl there ↦ inl (ground arith)
    | inr new ↦ inr new
  ]
]

-- The row that a search finds after an update.
pub find-updated :
    {A : Type 0} (p q : A → Bool) (f : A → A) (xs : List A) (a : A)
    → ((x : A) → p (f x) ≡ p x)
    → find p (update q f xs) ≡ some a
    → (x : A) × ((find p xs ≡ some x) × (a ≡ (if q x then f x else x)))
find-updated p q f xs a k h = elim (Option-cases (find p xs)) [
  | inl missing ↦ absurd (let e = find-update p q f xs k in ground arith)
  | inr (x, there) ↦ (x, (there, let e = find-update p q f xs k in ground arith))
]

module _ (env : Env) where
  Writes-IsAudited :
      {A : Type 0} (s : Seq) (r : Result (A × Db × Seq))
      → Writes (IsSound env) s r
      → ((a : A) (d' : Db) (s' : Seq) → r ≡ ok (a, d', s') → Audited d'.tasks d'.history)
      → Writes (IsAudited env) s r
  Writes-IsAudited s (ok (a, d', s')) k f = ((k.0, f a d' s' refl), k.1)
  Writes-IsAudited s (err e) k f = tt

  Audited-insert_user :
      (u : User) (at : ℕ) (d : Db) (s : Seq)
      → IsAudited env d s
      → Writes (IsAudited env) s (Users.insert_user env u at d s)
  unfolding Users.insert_user
  Audited-insert_user u at d s h =
      Writes-IsAudited s _ (Writes-insert_user env u at d s h.0) (λ a d' s' e.
        Audited-same d.tasks d'.tasks d.history d'.history (ground arith) (ground arith) h.1)

  Audited-insert_team :
      (t : Team) (at : ℕ) (d : Db) (s : Seq)
      → IsText 100 t.name
      → IsAudited env d s
      → Writes (IsAudited env) s (Teams.insert_team t at d s)
  unfolding Teams.insert_team
  Audited-insert_team t at d s name h =
      Writes-IsAudited s _ (Writes-insert_team env t at d s name h.0) (λ a d' s' e.
        Audited-same d.tasks d'.tasks d.history d'.history (ground arith) (ground arith) h.1)

  Audited-insert_member :
      (m : TeamMember) (at : ℕ) (d : Db) (s : Seq)
      → Role.is_valid m.role ≡ true
      → IsAudited env d s
      → Writes (IsAudited env) s (Teams.insert_member m at d s)
  unfolding Teams.insert_member
  Audited-insert_member m at d s role h =
      Writes-IsAudited s _ (Writes-insert_member env m at d s role h.0) (λ a d' s' e.
        Audited-same d.tasks d'.tasks d.history d'.history (ground arith) (ground arith) h.1)

  Audited-insert_comment :
      (c : TaskComment) (at : ℕ) (d : Db) (s : Seq)
      → IsText 4000 c.body
      → IsAudited env d s
      → Writes (IsAudited env) s (Comments.insert_comment c at d s)
  unfolding Comments.insert_comment
  Audited-insert_comment c at d s body h =
      Writes-IsAudited s _ (Writes-insert_comment env c at d s body h.0) (λ a d' s' e.
        Audited-same d.tasks d'.tasks d.history d'.history (ground arith) (ground arith) h.1)

  -- A new key is in no entry.
  Audited-insert_task :
      (t : Task) (at : ℕ) (d : Db) (s : Seq)
      → IsText 255 t.title
      → TaskStatus.is_valid t.status ≡ true
      → IsAudited env d s
      → Writes (IsAudited env) s (insert_task t at d s)
  unfolding insert_task
  Audited-insert_task t at d s title status h =
      let row : Task = record t { id = s.task; deleted_at = none } in
      let fresh : (field : Bytes) → last_value field s.task d.history ≡ none = λ field.
        last_value-missing field s.task d.users d.tasks d.history
          (Keyed-lt _ 0 s.task s.task d.tasks h.0.task_keys (omega arith)) h.0.history_rows in
      let new_row : Tells d.history s.task row = record {
        title = rw (fresh (codes "title")) tt;
        status = rw (fresh (codes "status")) tt;
      } in
      Writes-IsAudited s _ (Writes-insert_task env t at d s title status h.0) (λ a d' s' e.
        Audited-same (d.tasks ++ row ∷ []) d'.tasks d.history d'.history (ground arith)
          (ground arith)
          (λ id u found. elim (find-snoc (has_id id) d.tasks row u found) [
            | inl old ↦ h.1 id u old
            | inr (same, new) ↦ rw (new, ← (==_iff s.task id).0 same) new_row
          ]))

  Audited-delete_task :
      (id at : ℕ) (d : Db) (s : Seq)
      → IsAudited env d s
      → Writes (IsAudited env) s (delete_task env.column_time id at d s)
  unfolding delete_task
  Audited-delete_task id at d s h =
      Writes-IsAudited s (delete_task env.column_time id at d s)
        (Writes-delete_task env id at d s h.0)
        (λ a d' s' e.
          Audited-same (update (is_live_with id) (deleted_row (env.column_time at)) d.tasks)
            d'.tasks d.history d'.history (ground arith) (ground arith)
            (λ j u found.
              let (x, (there, same)) = find-updated (has_id j) _ _ d.tasks u (λ y. refl) found in
              Tells-same d.history j x u (ground arith) (ground arith) (h.1 j x there)))

  pub IsAudited-StatementLaws : StatementLaws env (IsAudited env)
  IsAudited-StatementLaws = record {
    insert_user = Audited-insert_user;
    insert_team = Audited-insert_team;
    insert_member = Audited-insert_member;
    insert_task = Audited-insert_task;
    delete_task = Audited-delete_task;
    insert_comment = Audited-insert_comment;
  }
