-- ===== src/Service/Teams.antt =====
-- internal/service/team_service.go.
pub mod Laws
pub mod Inviting
pub mod Founding
use secunda_homework.Base.{ℕ, not, ◌||◌, List, map, ltb, length}
use secunda_homework.Text.{Bytes, is_empty, trim_space}
use secunda_homework.Entity.Role
use secunda_homework.Entity.Role.{Role}
use secunda_homework.Entity.Rows.{Team, TeamMember}
use secunda_homework.Dto.Requests.{CreateTeamRequest, InviteRequest}
use secunda_homework.Dto.Responses.{TeamResponse}
use secunda_homework.Store.State.{Env, validation, not_found, forbidden, already_exists, Err}
use secunda_homework.Store.Monad.{M, pure, stop_if, map_err, ◌>>=◌, ◌>>◌}
use secunda_homework.Store.Calls.{now}
use secunda_homework.Repository.Users.{find_user}
use secunda_homework.Repository.Teams.{
  TeamWithRole, create_team, find_team, add_member, list_teams_by_user, list_members as members_of,
}
use secunda_homework.Service.Access.{not_found_as, require_member}
use mathlib.Core.Option.{none}

abbrev pub team_name_max_len : ℕ
team_name_max_len = 100

abbrev pub new_team : Bytes → ℕ → ℕ → ℕ → Team
new_team name actor_id created updated = record {
  id = 0;
  name = name;
  created_by = actor_id;
  created_at = created;
  updated_at = updated;
}

unfoldable pub to_team_response : (ℕ → Bytes) → TeamWithRole → TeamResponse
to_team_response format t = record {
  id = t.team.id;
  name = t.team.name;
  created_by = t.team.created_by;
  created_at = format t.team.created_at;
  my_role = t.role;
}

module _ {R : Type 0} (env : Env) where
  -- The team and its owner are two statements, in no transaction.
  unfoldable pub create : ℕ → CreateTeamRequest → M R Team
  create actor_id req = do
    let name = trim_space req.name
    stop_if (is_empty name || ltb team_name_max_len (length name)) (validation none)
    u ← map_err (not_found_as not_found) (find_user env actor_id)
    created ← now env
    updated ← now env
    let t = new_team name actor_id created updated
    id ← create_team env t
    joined ← now env
    let m : TeamMember = record {
      user_id = actor_id;
      team_id = id;
      role = Role.owner;
      joined_at = joined;
    }
    add_member env m
    pure (record t { id = id })

  -- A failed insert keeps its error: `ErrAlreadyExists` stays what it is.
  unfoldable pub invite : ℕ → ℕ → InviteRequest → M R (Unit {0})
  invite actor_id team_id req = do
    t ← map_err (not_found_as not_found) (find_team env team_id)
    actor ← require_member env team_id actor_id
    stop_if (not (Role.can_invite actor.role)) forbidden
    u ← map_err (not_found_as not_found) (find_user env req.user_id)
    stop_if (not (Role.is_valid req.role)) (validation none)
    joined ← now env
    let m : TeamMember = record {
      user_id = req.user_id;
      team_id = team_id;
      role = req.role;
      joined_at = joined;
    }
    add_member env m

  unfoldable pub list : ℕ → M R (List TeamResponse)
  list user_id = do
    teams ← list_teams_by_user env user_id
    pure (map (to_team_response env.format_time) teams)

  unfoldable pub list_members : ℕ → ℕ → M R (List TeamMember)
  list_members caller_id team_id = do
    m ← require_member env team_id caller_id
    members_of env team_id
