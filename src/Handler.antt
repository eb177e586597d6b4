-- ===== src/Handler.antt =====
-- internal/handler/errors.go and internal/handler/task.go. A handler is given the user that the
-- middleware found, the path parameter and what the JSON binding makes of the body.
pub mod Laws
pub mod Keeps
pub mod Refusals
pub mod Denials
pub mod Accounts
pub mod Teams
pub mod Comments
pub mod Stats
use secunda_homework.Base.{ℕ, Bool, not, ◌||◌, Option, none, some, List, if◌then◌else◌, ◌==◌}
use secunda_homework.Text.{Bytes, codes, parse_uint}
use secunda_homework.Entity.Rows.{Task}
use secunda_homework.Dto.Requests.{CreateTaskRequest, UpdateTaskRequest, has_any_update}
use secunda_homework.Dto.Responses.{
  TaskResponse, TasksListResponse, TaskHistoryResponse, AuthResponse, TeamResponse,
  TeamMemberResponse, CommentResponse,
}
use secunda_homework.Dto.Stats.{TeamStatsResponse, TopCreatorEntry, OrphanTaskResponse}
use secunda_homework.Entity.Role.{Role}
use secunda_homework.Dto.Filter.{bind_task_filter}
use secunda_homework.Cache.{Cache}
use secunda_homework.Store.State.{
  World, Env, Err, validation, forbidden, not_found, already_exists, email_taken,
  invalid_credentials, invalid_token, expired_token, token_signature, not_team_member, nil_pointer,
  db, failed,
}
use secunda_homework.Store.Monad.{M, Result, ok, err}
use secunda_homework.Service.Tasks

-- The codes of internal/dto/dto.go.
pub data Code : Type 0 where
  code_validation code_unauthorized code_forbidden code_not_found code_conflict : Code
  code_internal code_bad_request code_rate_limited : Code

-- A message: a text of the code's own, or that of an error.
pub data Message : Type 0 where
  text : Bytes → Message
  of_err : Err → Message
  of_binding : Message

pub data Body : Type 0 where
  no_body : Body
  failure : Code → Message → Body
  task_body : TaskResponse → Body
  list_body : TasksListResponse → Body
  history_body : List TaskHistoryResponse → Body
  auth_body : AuthResponse → Body
  team_body : TeamResponse → Body
  teams_body : List TeamResponse → Body
  invited_body : (team_id user_id : ℕ) → Role → Body
  members_body : List TeamMemberResponse → Body
  commented_body : (id task_id : ℕ) → Body
  comments_body : List CommentResponse → Body
  team_stats_body : List TeamStatsResponse → Body
  creators_body : List TopCreatorEntry → Body
  orphans_body : List OrphanTaskResponse → Body

pub record Response : Type 0 where
  pub status : ℕ
  pub body : Body

abbrev pub refusal : ℕ → Code → Message → Response
refusal status code message = record { status = status; body = failure code message }

-- `writeServiceError`. A panic ends in the recovery middleware with an empty 500.
unfoldable pub write_service_error : Err → Response
write_service_error (validation e) = refusal 400 code_validation (of_err (validation e))
write_service_error forbidden = refusal 403 code_forbidden (text (codes "forbidden"))
write_service_error not_found = refusal 404 code_not_found (text (codes "not found"))
write_service_error already_exists = refusal 409 code_conflict (text (codes "already exists"))
write_service_error email_taken = refusal 409 code_conflict (text (codes "email already taken"))
write_service_error invalid_credentials =
    refusal 401 code_unauthorized (text (codes "unauthorized"))
write_service_error invalid_token = refusal 401 code_unauthorized (text (codes "unauthorized"))
write_service_error expired_token = refusal 401 code_unauthorized (text (codes "unauthorized"))
write_service_error token_signature = refusal 401 code_unauthorized (text (codes "unauthorized"))
write_service_error not_team_member = refusal 403 code_forbidden (text (codes "not a team member"))
write_service_error (db e) = refusal 500 code_internal (text (codes "internal error"))
write_service_error failed = refusal 500 code_internal (text (codes "internal error"))
write_service_error nil_pointer = record { status = 500; body = no_body }

unfoldable pub bad_request : Message → Response
bad_request message = refusal 400 code_bad_request message

abbrev pub shown : {A : Type 0} → (A → Response) → Result A → Response
shown show (ok a) = show a
shown show (err e) = write_service_error e

-- `ParseUint`, and the test for zero.
abbrev pub nonzero : Option ℕ → Option ℕ
nonzero none = none
nonzero (some id) = if id == 0 then none else some id

abbrev pub path_id : Bytes → Option ℕ
path_id param = nonzero (parse_uint param)

module _ {R : Type 0} where
  -- What a handler does: an answer at once, or a call of the service and its answer.
  unfoldable pub answer : {A : Type 0} → (A → Response) → M R A → World R → Response × World R
  answer show m w = let (r, w') = m w in (shown show r, w')

  abbrev pub stop : Response → World R → Response × World R
  stop r w = (r, w)

  -- The message is what a path without an identifier is told.
  abbrev pub with_path :
      Bytes → (ℕ → World R → Response × World R) → Option ℕ → World R → Response × World R
  with_path message run none = stop (bad_request (text message))
  with_path message run (some id) = run id

  abbrev pub with_id : (ℕ → World R → Response × World R) → Option ℕ → World R → Response × World R
  with_id run id = with_path (codes "task id") run id

  abbrev pub with_body :
      {A : Type 0} → (A → World R → Response × World R) → Option A → World R → Response × World R
  with_body run none = stop (bad_request of_binding)
  with_body run (some req) = run req

module _ {R : Type 0} (env : Env) (cache : Option (Cache R)) where
  abbrev pub task_reply : ℕ → Task → Response
  task_reply status t = record {
    status = status;
    body = task_body (Tasks.to_task_response env.format_utc t);
  }

  unfoldable pub create_task : ℕ → Option CreateTaskRequest → World R → Response × World R
  create_task uid = with_body (λ req. answer (task_reply 201) (Tasks.create env cache uid req))

  unfoldable pub get_task : ℕ → Bytes → World R → Response × World R
  get_task uid param =
      with_id (λ id. answer (task_reply 200) (Tasks.get env cache uid id)) (path_id param)

  unfoldable pub list_tasks : ℕ → (Bytes → Bytes) → World R → Response × World R
  list_tasks uid query =
      answer (λ l. record { status = 200; body = list_body l })
        (Tasks.list env cache uid (bind_task_filter query))

  abbrev pub update_with : ℕ → ℕ → UpdateTaskRequest → World R → Response × World R
  update_with uid id req =
      if has_any_update req
      then answer (task_reply 200) (Tasks.update env cache uid id req)
      else stop (bad_request (text (codes "no fields to update")))

  unfoldable pub update_task : ℕ → Bytes → Option UpdateTaskRequest → World R → Response × World R
  update_task uid param body = with_id (λ id. with_body (update_with uid id) body) (path_id param)

  unfoldable pub delete_task : ℕ → Bytes → World R → Response × World R
  delete_task uid param =
      with_id
        (λ id.
          answer (λ x. record { status = 204; body = no_body }) (Tasks.delete env cache uid id))
        (path_id param)

  unfoldable pub task_history : ℕ → Bytes → World R → Response × World R
  task_history uid param =
      with_id
        (λ id.
          answer (λ rows. record { status = 200; body = history_body rows })
            (Tasks.history env cache uid id))
        (path_id param)
