-- ===== src/Service/Access.antt =====
-- The checks that the services share: a task that the caller may see, and what a missing row means
-- (`Get` of internal/service/task_service.go, repeated by the other operations).
pub mod Laws
use secunda_homework.Base.{ℕ}
use secunda_homework.Entity.Rows.{Task, TeamMember}
use secunda_homework.Store.State.{Env, Err, not_found, forbidden}
use secunda_homework.Store.Monad.{M, pure, map_err, ◌>>=◌}
use secunda_homework.Repository.Teams.{get_member}
use secunda_homework.Repository.Tasks.{find_task}

-- `if errors.Is(err, repository.ErrNotFound) { return …, e }; return …, err`
unfoldable pub not_found_as : Err → Err → Err
not_found_as e not_found = e
not_found_as e other = other

module _ {R : Type 0} (env : Env) where
  -- The caller's membership of a team; a stranger is refused.
  unfoldable pub require_member : ℕ → ℕ → M R TeamMember
  require_member team_id caller_id =
      map_err (not_found_as forbidden) (get_member env team_id caller_id)

  -- The task, if the caller is a member of its team.
  unfoldable pub visible_task : ℕ → ℕ → M R Task
  visible_task caller_id task_id = do
    t ← map_err (not_found_as not_found) (find_task env task_id)
    m ← require_member t.team_id caller_id
    pure t
