-- ===== src/Dto/Requests.antt =====
-- internal/dto/auth.go, team.go and task.go: the bodies of requests.
use secunda_homework.Base.{ℕ, Option, Bool, ◌||◌, is_some}
use secunda_homework.Text.{Bytes}
use secunda_homework.Entity.Role.{Role}
use secunda_homework.Entity.TaskStatus.{TaskStatus}

pub record RegisterRequest : Type 0 where
  pub email : Bytes
  pub password : Bytes
  pub name : Bytes

pub record LoginRequest : Type 0 where
  pub email : Bytes
  pub password : Bytes

pub record CreateTeamRequest : Type 0 where
  pub name : Bytes

pub record InviteRequest : Type 0 where
  pub user_id : ℕ
  pub role : Role

pub record CreateTaskRequest : Type 0 where
  pub team_id : ℕ
  pub title : Bytes
  pub description : Option Bytes
  pub status : TaskStatus
  pub assignee_id : Option ℕ

pub record UpdateTaskRequest : Type 0 where
  pub title : Option Bytes
  pub description : Option Bytes
  pub status : Option TaskStatus
  pub assignee_id : Option ℕ

pub record CreateCommentRequest : Type 0 where
  pub body : Bytes

-- `UpdateTaskRequest.HasAnyUpdate`.
unfoldable pub has_any_update : UpdateTaskRequest → Bool
has_any_update r =
    is_some r.title || is_some r.description || is_some r.status || is_some r.assignee_id
