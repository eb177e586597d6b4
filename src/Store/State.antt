-- ===== src/Store/State.antt =====
-- The tables (migrations/0001_init.up.sql), the errors of the program, and what the outside world
-- decides. The type `R` is that of the cache server's state.
use secunda_homework.Base.{ℕ, suc, Bool, Option, List, ℤ}
use secunda_homework.Text.{Bytes}
use secunda_homework.Entity.Rows.{User, Team, TeamMember, Task, TaskHistory, TaskComment}
use secunda_homework.Dto.Responses.{TasksListResponse}
use secunda_homework.Dto.Validation.{ValidationError}

pub record Db : Type 0 where
  pub users : List User
  pub teams : List Team
  pub members : List TeamMember
  pub tasks : List Task
  pub history : List TaskHistory
  pub comments : List TaskComment

-- The next AUTO_INCREMENT value of each table. A rollback does not take these back.
pub record Seq : Type 0 where
  pub user : ℕ
  pub team : ℕ
  pub task : ℕ
  pub history : ℕ
  pub comment : ℕ

-- `step` counts the calls of the clock and of the database driver.
pub record World (R : Type 0) : Type 0 where
  pub db : Db
  pub seq : Seq
  pub redis : R
  pub step : ℕ

-- The errors that MySQL's driver gives for a statement: no row for a single-row query, a duplicate
-- key (1062), any other.
pub data DbError : Type 0 where
  no_rows duplicate other : DbError

-- Errors, by the sentinel that `errors.Is` finds in them. `nil_pointer` is a panic that the
-- recovery middleware turns into an error response.
pub data Err : Type 0 where
  not_found already_exists not_team_member forbidden email_taken invalid_credentials : Err
  invalid_token expired_token token_signature nil_pointer : Err
  validation : Option ValidationError → Err
  db : DbError → Err
  failed : Err

-- What the outside world decides, at each step: the time, whether a call of the driver fails,
-- whether the driver's `LastInsertId` or `RowsAffected` does. `collate` is the comparison of
-- strings by the column's collation, `column_time` what a TIMESTAMP column keeps of a time,
-- `odd_window` the answer to a LIMIT or OFFSET that is negative, and `format_time` is RFC 3339
-- output. `marshal` and `unmarshal` are those of encoding/json for the task list.
pub record Env : Type 0 where
  pub clock : ℕ → ℕ
  pub db_fails : ℕ → Bool
  pub result_fails : ℕ → Bool
  pub collate : Bytes → Bytes → Bool
  pub column_time : ℕ → ℕ
  pub odd_window : ℤ → ℤ → List Task → Option (List Task)
  pub format_time : ℕ → Bytes
  pub format_utc : ℕ → Bytes
  pub marshal : TasksListResponse → Option Bytes
  pub unmarshal : Bytes → Option TasksListResponse

abbrev pub next_step : {R : Type 0} → World R → World R
next_step w = record w { step = suc w.step }
