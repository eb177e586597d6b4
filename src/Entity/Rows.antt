-- ===== src/Entity/Rows.antt =====
-- internal/entity: the rows. Identifiers are 64-bit numbers, times count from Go's zero time, and a
-- pointer field is an `Option`.
use secunda_homework.Base.{ℕ, Option}
use secunda_homework.Text.{Bytes}
use secunda_homework.Entity.Role.{Role}
use secunda_homework.Entity.TaskStatus.{TaskStatus}

pub record User : Type 0 where
  pub id : ℕ
  pub email : Bytes
  pub password_hash : Bytes
  pub name : Bytes
  pub created_at : ℕ
  pub updated_at : ℕ

pub record Team : Type 0 where
  pub id : ℕ
  pub name : Bytes
  pub created_by : ℕ
  pub created_at : ℕ
  pub updated_at : ℕ

pub record TeamMember : Type 0 where
  pub user_id : ℕ
  pub team_id : ℕ
  pub role : Role
  pub joined_at : ℕ

pub record Task : Type 0 where
  pub id : ℕ
  pub team_id : ℕ
  pub title : Bytes
  pub description : Option Bytes
  pub status : TaskStatus
  pub assignee_id : Option ℕ
  pub created_by : ℕ
  pub created_at : ℕ
  pub updated_at : ℕ
  pub deleted_at : Option ℕ

pub record TaskHistory : Type 0 where
  pub id : ℕ
  pub task_id : ℕ
  pub changed_by : ℕ
  pub field : Bytes
  pub old_value : Option Bytes
  pub new_value : Option Bytes
  pub changed_at : ℕ

pub record TaskComment : Type 0 where
  pub id : ℕ
  pub task_id : ℕ
  pub user_id : ℕ
  pub body : Bytes
  pub created_at : ℕ
  pub updated_at : ℕ
