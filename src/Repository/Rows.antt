-- ===== src/Repository/Rows.antt =====
-- What the repositories share: the SELECT of one row, ORDER BY, foreign keys, and the translation
-- of the driver's errors (`wrap` and `parseDuplicate` of internal/repository/user_repo.go).
pub mod Order
use secunda_homework.Base.{
  ℕ, Bool, true, Option, none, some, List, [], ◌∷◌, if◌then◌else◌, any, ◌==◌,
}
use secunda_homework.Entity.Rows.{User, Team, Task}
use secunda_homework.Store.State.{Err, db, no_rows, duplicate, not_found, already_exists}
use secunda_homework.Store.Monad.{Result, ok, err}

-- `wrap`: a missing row is `ErrNotFound`, any other error is kept in the chain.
unfoldable pub wrap : Err → Err
wrap (db no_rows) = not_found
wrap e = e

-- The handling of a failed INSERT: a duplicate key is `ErrAlreadyExists`.
unfoldable pub on_duplicate : Err → Err
on_duplicate (db duplicate) = already_exists
on_duplicate e = e

module _ {A : Type 0} where
  -- `GetContext`: one row, or `sql.ErrNoRows`.
  abbrev pub one_row : Option A → Result A
  one_row none = err (db no_rows)
  one_row (some a) = ok a

  -- `ORDER BY`, by a test that one row may stand before another; rows that tie keep their order.
  unfoldable pub insert_by : (A → A → Bool) → A → List A → List A
  insert_by before a [] = a ∷ []
  insert_by before a (x ∷ xs) = if before a x then a ∷ x ∷ xs else x ∷ insert_by before a xs

  unfoldable pub order_by : (A → A → Bool) → List A → List A
  unfolding insert_by
  order_by before [] = []
  order_by before (x ∷ xs) = insert_by before x (order_by before xs)

-- The targets of foreign keys.
unfoldable pub user_exists : ℕ → List User → Bool
user_exists id users = any (λ u. u.id == id) users

unfoldable pub team_exists : ℕ → List Team → Bool
team_exists id teams = any (λ t. t.id == id) teams

unfoldable pub task_exists : ℕ → List Task → Bool
task_exists id tasks = any (λ t. t.id == id) tasks

abbrev pub assignee_exists : Option ℕ → List User → Bool
assignee_exists none users = true
assignee_exists (some id) users = user_exists id users
