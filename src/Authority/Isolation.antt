-- ===== src/Authority/Isolation.antt =====
-- What a team sees of the tables, and who may change it (internal/router/router.go, internal/service).
use secunda_homework.Base.{
  ℕ, suc, ◌≤◌, Bool, false, ◌&&◌, ◌≡◌, refl, arith, some, List, [], ◌∷◌, All, ◌==◌, any, find,
  select, update, inl, inr, Bool-cases, select-append, select-update, any-select-false,
}
use secunda_homework.Entity.Rows.{TeamMember, Task, TaskHistory, TaskComment}
use secunda_homework.Store.State.{Db, Seq}
use secunda_homework.Repository.Teams.{is_member}
use secunda_homework.Repository.Tasks.{has_id, is_live, is_live_with, apply_patch, deleted_row}
use secunda_homework.Invariant.Tables.{Keyed, Keyed-gt}
use secunda_homework.Authority.{
  IsEntryOf, Step, stay, add_team, found_team, invite, add_task, change_task, delete_task, comment,
}

-- The rows of one team: its members, its tasks, and what is said and recorded of its tasks.
pub record TeamView : Type 0 where
  pub members : List TeamMember
  pub tasks : List Task
  pub comments : List TaskComment
  pub history : List TaskHistory

any_and :
    {A : Type 0} (p q : A → Bool) (xs : List A)
    → any p xs ≡ false
    → any (λ x. p x && q x) xs ≡ false
unfolding any
any_and p q [] h = refl
any_and p q (x ∷ xs) h = ground (arith, any_and p q xs)

module _ (team : ℕ) where
  abbrev pub team_members : List TeamMember → List TeamMember
  team_members = select (λ m. m.team_id == team)

  abbrev pub team_tasks : List Task → List Task
  team_tasks = select (λ t. t.team_id == team)

  abbrev pub has_task : List Task → ℕ → Bool
  has_task tasks id = any (has_id id) tasks

  abbrev pub view : Db → TeamView
  view d =
      let tasks = team_tasks d.tasks in
      record {
        members = team_members d.members;
        tasks = tasks;
        comments = select (λ c. has_task tasks c.task_id) d.comments;
        history = select (λ h. has_task tasks h.task_id) d.history;
      }

  -- A user who is not in the team.
  abbrev pub IsOutsider : ℕ → TeamView → Type 0
  IsOutsider uid v = any (λ m. m.user_id == uid) v.members ≡ false

  elsewhere :
      (uid k : ℕ) (m : TeamMember) (ms : List TeamMember)
      → any (λ m. m.user_id == uid) (team_members ms) ≡ false
      → find (is_member k uid) ms ≡ some m
      → (k == team) ≡ false
  unfolding any find select
  elsewhere uid k m [] out h = cc
  elsewhere uid k m (x ∷ xs) out h = ground (arith, elsewhere uid k m xs)

  -- A task of another team is not among the tasks of the team.
  foreign_task :
      (k lo hi : ℕ) (t : Task) (tasks : List Task)
      → Keyed (λ t. t.id) lo tasks hi
      → find (has_id k) tasks ≡ some t
      → (t.team_id == team) ≡ false
      → has_task (team_tasks tasks) k ≡ false
  unfolding any find select
  foreign_task k lo hi t [] keys h f = refl
  foreign_task k lo hi t (x ∷ xs) keys h f = elim (Bool-cases (x.id == k)) [
    | inl here ↦ ground (
      arith,
      any-select-false (has_id k) (λ t. t.team_id == team) xs
          (Keyed-gt (λ t. t.id) (suc x.id) hi k xs keys.1 (ground arith)),
    )
    | inr there ↦ ground (arith, foreign_task k (suc x.id) hi t xs keys.1)
  ]

  module _ (uid : ℕ) (d : Db) (s : Seq) (keys : Keyed (λ t. t.id) 0 d.tasks s.task)
      (old : suc team ≤ s.team) (out : IsOutsider uid (view d)) where
    outside :
        (k : ℕ) (m : TeamMember) → find (is_member k uid) d.members ≡ some m → (k == team) ≡ false
    outside k m h = elsewhere uid k m d.members out h

    -- The task with an id, when it is of another team.
    foreign :
        (k : ℕ) (t : Task) (m : TeamMember)
        → find (has_id k) d.tasks ≡ some t
        → find (is_member t.team_id uid) d.members ≡ some m
        → has_task (team_tasks d.tasks) k ≡ false
    foreign k t m h g = foreign_task k 0 s.task t d.tasks keys h (outside t.team_id m g)

    unchanged_tasks :
        (k : ℕ) (f : Task → Task)
        → ((t : Task) → (f t).team_id ≡ t.team_id)
        → has_task (team_tasks d.tasks) k ≡ false
        → team_tasks (update (is_live_with k) f d.tasks) ≡ team_tasks d.tasks
    unchanged_tasks k f same none_here =
        select-update (is_live_with k) (λ t. t.team_id == team) f d.tasks (λ t. rw (same t) refl)
          (any_and (has_id k) is_live (team_tasks d.tasks) none_here)

    entries_elsewhere :
        (k : ℕ) (hs : List TaskHistory)
        → has_task (team_tasks d.tasks) k ≡ false
        → All (IsEntryOf k uid) hs
        → All (λ h. has_task (team_tasks d.tasks) h.task_id ≡ false) hs
    entries_elsewhere k [] f h = tt
    entries_elsewhere k (x ∷ xs) f h = (rw h.0.0 f, entries_elsewhere k xs f h.1)

    -- A step of a user who is not in the team leaves the team's rows as they are.
    pub Step-isolated : (d' : Db) → Step uid d s d' → view d' ≡ view d
    unfolding apply_patch
    Step-isolated _ stay = refl
    Step-isolated _ (add_team t key mine) = refl
    Step-isolated _ (found_team t m key mine of_team by_me owner) =
        rw (select-append (λ m. m.team_id == team) d.members (m ∷ []) (ground arith, tt)) refl
    Step-isolated _ (invite m actor belongs may new) =
        rw
          (select-append (λ m. m.team_id == team) d.members (m ∷ [])
            (outside m.team_id actor belongs, tt))
          refl
    Step-isolated _ (add_task t m belongs mine) =
        rw
          (select-append (λ t. t.team_id == team) d.tasks (t ∷ [])
            (outside t.team_id m belongs, tt))
          refl
    Step-isolated _ (change_task t m k time p entries found belongs by_me) =
        let here = foreign k t m found belongs in
        rw
          (
            unchanged_tasks k (apply_patch p time) (λ t. refl) here,
            select-append (λ h. has_task (team_tasks d.tasks) h.task_id) d.history entries
                (entries_elsewhere k entries here by_me),
          )
          refl
    Step-isolated _ (delete_task t m k time found belongs) =
        rw (unchanged_tasks k (deleted_row time) (λ t. refl) (foreign k t m found belongs)) refl
    Step-isolated _ (comment t m c found belongs mine) =
        rw
          (select-append (λ c. has_task (team_tasks d.tasks) c.task_id) d.comments (c ∷ [])
            (foreign c.task_id t m found belongs, tt))
          refl
