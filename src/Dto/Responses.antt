-- ===== src/Dto/Responses.antt =====
-- internal/dto: the bodies of responses. A formatted time is a string.
use secunda_homework.Base.{ℕ, ℤ, Option, List}
use secunda_homework.Text.{Bytes}
use secunda_homework.Entity.Role.{Role}
use secunda_homework.Entity.TaskStatus.{TaskStatus}

pub record TaskResponse : Type 0 where
  pub id : ℕ
  pub team_id : ℕ
  pub title : Bytes
  pub description : Option Bytes
  pub status : TaskStatus
  pub assignee_id : Option ℕ
  pub created_by : ℕ
  pub created_at : Bytes
  pub updated_at : Bytes

pub record Pagination : Type 0 where
  pub page : ℤ
  pub limit : ℤ
  pub total : ℕ

pub record TasksListResponse : Type 0 where
  pub items : List TaskResponse
  pub meta : Pagination

pub record TaskHistoryResponse : Type 0 where
  pub id : ℕ
  pub task_id : ℕ
  pub changed_by : ℕ
  pub field : Bytes
  pub old_value : Option Bytes
  pub new_value : Option Bytes
  pub changed_at : Bytes

pub record CommentResponse : Type 0 where
  pub id : ℕ
  pub task_id : ℕ
  pub user_id : ℕ
  pub body : Bytes
  pub created_at : Bytes
  pub updated_at : Bytes

pub record TeamResponse : Type 0 where
  pub id : ℕ
  pub name : Bytes
  pub created_by : ℕ
  pub created_at : Bytes
  pub my_role : Role

pub record AuthUser : Type 0 where
  pub id : ℕ
  pub email : Bytes
  pub name : Bytes
  pub created_at : Bytes

pub record AuthResponse : Type 0 where
  pub user : AuthUser
  pub token : Bytes

pub record TeamMemberResponse : Type 0 where
  pub user_id : ℕ
  pub team_id : ℕ
  pub role : Role
  pub joined_at : Bytes
