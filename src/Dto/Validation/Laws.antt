-- ===== src/Dto/Validation/Laws.antt =====
-- What a request that passes its checks looks like (internal/dto/validation.go).
use secunda_homework.Base.{
  Bool, true, false, none, [], ◌∷◌, ◌≤◌, ◌<◌, ◌≡◌, ◌≢◌, ◌↔◌, inl, inr, refl, arith, length,
  Option-cases,
}
use secunda_homework.Text.{Bytes, is_empty, trim_space}
use secunda_homework.Text.Trim.{trim_space_idem}
use secunda_homework.Entity.Role
use secunda_homework.Entity.TaskStatus
use secunda_homework.Entity.Role.Laws as role_laws
use secunda_homework.Entity.TaskStatus.Laws as status_laws
use secunda_homework.Dto.Requests.{RegisterRequest, InviteRequest, CreateTaskRequest}
use secunda_homework.Dto.Validation.{
  max_name_len, max_title_len, max_password_len, min_password_len, validate_register,
  validate_invite, validate_create_task,
}

-- What the registration form asks for.
pub record IsRegistrable (parses_address : Bytes → Bool) (r : RegisterRequest) : Type 0 where
  pub email_given : is_empty (trim_space r.email) ≡ false
  pub email_parses : parses_address (trim_space r.email) ≡ true
  pub password_min : min_password_len ≤ length r.password
  pub password_max : length r.password ≤ max_password_len
  pub name_given : is_empty (trim_space r.name) ≡ false
  pub name_max : length (trim_space r.name) ≤ max_name_len

is_empty-length : (s : Bytes) → 0 < length s → is_empty s ≡ false
is_empty-length [] h = absurd (omega arith)
is_empty-length (c ∷ s) h = refl

-- A registration passes its checks exactly if the trimmed email is given and is an address, the
-- password has 8 to 72 bytes, and the trimmed name has 1 to 100 bytes.
pub validate_register_iff :
    (parses_address : Bytes → Bool) (r : RegisterRequest)
    → (validate_register parses_address r ≡ none) ↔ IsRegistrable parses_address r
unfolding validate_register
validate_register_iff parses_address r = (
  λ h. record {
    email_given = ground arith;
    email_parses = ground arith;
    password_min = ground arith;
    password_max = ground arith;
    name_given = ground arith;
    name_max = ground arith;
  },
  λ h. ground (arith, is_empty-length r.password),
)

-- A request to create a task as its checks leave it.
pub record IsNormal (r : CreateTaskRequest) : Type 0 where
  pub team_given : r.team_id ≢ 0
  pub title_trimmed : trim_space r.title ≡ r.title
  pub title_given : is_empty r.title ≡ false
  pub title_max : length r.title ≤ max_title_len
  pub status_valid : TaskStatus.is_valid r.status ≡ true

status_of_default : TaskStatus.is_valid TaskStatus.todo ≡ true
status_of_default = (status_laws.is_valid_iff TaskStatus.todo).1 (inl refl)

module _ (r : CreateTaskRequest) (passed : (validate_create_task r).0 ≡ none) where
  team-given : (validate_create_task r).1.team_id ≢ 0
  unfolding validate_create_task
  team-given = ground arith

  title-trimmed : trim_space (validate_create_task r).1.title ≡ (validate_create_task r).1.title
  unfolding validate_create_task
  title-trimmed = ground (arith, trim_space_idem r.title)

  title-given : is_empty (validate_create_task r).1.title ≡ false
  unfolding validate_create_task
  title-given = ground arith

  title-max : length (validate_create_task r).1.title ≤ max_title_len
  unfolding validate_create_task
  title-max = ground arith

  status-valid : TaskStatus.is_valid (validate_create_task r).1.status ≡ true
  unfolding validate_create_task
  status-valid = elim (Option-cases (TaskStatus.parse r.status)) [
    | inl bad ↦ ground (arith, status_of_default)
    | inr (s, good) ↦
        ground (arith, status_of_default, ((status_laws.status_parse_iff r.status s).0 good).0)
  ]

-- A task request that passes its checks is left with a team, a trimmed title of 1 to 255 bytes and
-- a valid status.
pub validate_create_task-IsNormal :
    (r : CreateTaskRequest)
    → (validate_create_task r).0 ≡ none
    → IsNormal (validate_create_task r).1
validate_create_task-IsNormal r passed = record {
  team_given = team-given r passed;
  title_trimmed = title-trimmed r passed;
  title_given = title-given r passed;
  title_max = title-max r passed;
  status_valid = status-valid r passed;
}

status-given : (s : Bytes) → TaskStatus.is_valid s ≡ true → is_empty s ≡ false
status-given [] h = elim ((status_laws.is_valid_iff []).0 h) [
  | inl e ↦ cc
  | inr (inl e) ↦ cc
  | inr (inr e) ↦ cc
]
status-given (c ∷ s) h = refl

-- A task request with a team, a trimmed title of 1 to 255 bytes and a valid status passes the
-- checks and is left as it is.
pub validate_create_task-fixed :
    (r : CreateTaskRequest) → IsNormal r → validate_create_task r ≡ (none, r)
unfolding validate_create_task
validate_create_task-fixed r n =
    ground (arith, status-given r.status, status_laws.parse-valid r.status)

-- An invitation that passes its checks names a user and is left with a valid role, the lower-case
-- spelling of the role that was asked for.
pub validate_invite-valid :
    (r : InviteRequest)
    → (validate_invite r).0 ≡ none
    → (r.user_id ≢ 0)
      × (Role.is_valid (validate_invite r).1.role ≡ true)
      × ((validate_invite r).1.role ≡ Role.to_lower r.role)
unfolding validate_invite
validate_invite-valid r h = elim (Option-cases (Role.parse r.role)) [
  | inl bad ↦ ground arith
  | inr (s, good) ↦
      let (valid, low) = (role_laws.parse_iff r.role s).0 good in
      (ground arith, ground arith, ground arith)
]
