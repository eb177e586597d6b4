-- ===== src/Dto/Validation.antt =====
-- internal/dto/validation.go. A method with a pointer receiver returns the request that it leaves
-- behind beside its error. `mail.ParseAddress` is an argument: whether it accepts an address.
pub mod Laws
use secunda_homework.Base.{
  ℕ, Bool, true, false, not, Option, none, some, if◌then◌else◌, ltb, ◌==◌, length,
}
use secunda_homework.Text.{Bytes, is_empty, trim_space}
use secunda_homework.Entity.Role
use secunda_homework.Entity.TaskStatus
use secunda_homework.Entity.TaskStatus.{TaskStatus}
use secunda_homework.Dto.Requests.{
  RegisterRequest, LoginRequest, CreateTeamRequest, InviteRequest, CreateTaskRequest,
  UpdateTaskRequest, CreateCommentRequest,
}

abbrev pub max_name_len : ℕ
max_name_len = 100

abbrev pub max_title_len : ℕ
max_title_len = 255

abbrev pub max_body_len : ℕ
max_body_len = 10000

abbrev pub max_password_len : ℕ
max_password_len = 72

abbrev pub min_password_len : ℕ
min_password_len = 8

pub data ValidationError : Type 0 where
  empty_email invalid_email empty_password short_password long_password empty_name long_name :
      ValidationError
  empty_team_name long_team_name empty_task_title long_task_title zero_team_id zero_user_id :
      ValidationError
  empty_comment_body long_comment_body invalid_role invalid_status : ValidationError

module _ (parses_address : Bytes → Bool) where
  unfoldable pub validate_register : RegisterRequest → Option ValidationError
  validate_register r =
      let email = trim_space r.email in
      let name = trim_space r.name in
      if is_empty email
      then some empty_email
      else if not (parses_address email)
      then some invalid_email
      else if is_empty r.password
      then some empty_password
      else if ltb (length r.password) min_password_len
      then some short_password
      else if ltb max_password_len (length r.password)
      then some long_password
      else if is_empty name
      then some empty_name
      else if ltb max_name_len (length name)
      then some long_name
      else none

  unfoldable pub validate_login : LoginRequest → Option ValidationError
  validate_login r =
      let email = trim_space r.email in
      if is_empty email
      then some empty_email
      else if not (parses_address email)
      then some invalid_email
      else if is_empty r.password
      then some empty_password
      else none

unfoldable pub validate_create_team : CreateTeamRequest → Option ValidationError
validate_create_team r =
    let name = trim_space r.name in
    if is_empty name
    then some empty_team_name
    else if ltb max_name_len (length name)
    then some long_team_name
    else none

abbrev set_role : InviteRequest → Option Role.Role → Option ValidationError × InviteRequest
set_role r none = (some invalid_role, r)
set_role r (some parsed) = (none, record r { role = parsed })

unfoldable pub validate_invite : InviteRequest → Option ValidationError × InviteRequest
validate_invite r =
    if r.user_id == 0 then (some zero_user_id, r) else set_role r (Role.parse r.role)

abbrev set_status :
    CreateTaskRequest → Option TaskStatus → Option ValidationError × CreateTaskRequest
set_status r none = (some invalid_status, r)
set_status r (some parsed) = (none, record r { status = parsed })

unfoldable pub validate_create_task : CreateTaskRequest → Option ValidationError × CreateTaskRequest
validate_create_task r =
    if r.team_id == 0
    then (some zero_team_id, r)
    else let trimmed = record r { title = trim_space r.title } in
      if is_empty trimmed.title
      then (some empty_task_title, trimmed)
      else if ltb max_title_len (length trimmed.title)
      then (some long_task_title, trimmed)
      else if is_empty r.status
      then (none, record trimmed { status = TaskStatus.todo })
      else set_status trimmed (TaskStatus.parse r.status)

abbrev check_title : Option Bytes → Option ValidationError
check_title none = none
check_title (some t) =
    let title = trim_space t in
    if is_empty title
    then some empty_task_title
    else if ltb max_title_len (length title)
    then some long_task_title
    else none

abbrev parsed_status : Option TaskStatus → Option ValidationError
parsed_status none = some invalid_status
parsed_status (some s) = none

abbrev check_status : Option TaskStatus → Option ValidationError
check_status none = none
check_status (some s) = parsed_status (TaskStatus.parse s)

abbrev or_else : Option ValidationError → Option ValidationError → Option ValidationError
or_else none next = next
or_else (some e) next = some e

-- The receiver is a copy, so the trimmed title and the parsed status are lost.
unfoldable pub validate_update_task : UpdateTaskRequest → Option ValidationError
validate_update_task r = or_else (check_title r.title) (check_status r.status)

unfoldable pub validate_comment : CreateCommentRequest → Option ValidationError
validate_comment r =
    let body = trim_space r.body in
    if is_empty body
    then some empty_comment_body
    else if ltb max_body_len (length body)
    then some long_comment_body
    else none
