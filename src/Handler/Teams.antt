-- ===== src/Handler/Teams.antt =====
-- internal/handler/team.go.
use secunda_homework.Base.{ℕ, Option, map}
use secunda_homework.Text.{Bytes, codes}
use secunda_homework.Entity.Role
use secunda_homework.Entity.Rows.{Team, TeamMember}
use secunda_homework.Dto.Requests.{CreateTeamRequest, InviteRequest}
use secunda_homework.Dto.Responses.{TeamResponse, TeamMemberResponse}
use secunda_homework.Store.State.{World, Env}
use secunda_homework.Service.Teams
use secunda_homework.Handler.{
  Response, team_body, teams_body, invited_body, members_body, answer, path_id, with_path,
  with_body,
}

abbrev founded : Env → Team → TeamResponse
founded env t = record {
  id = t.id;
  name = t.name;
  created_by = t.created_by;
  created_at = env.format_utc t.created_at;
  my_role = Role.owner;
}

abbrev shown_member : Env → TeamMember → TeamMemberResponse
shown_member env m = record {
  user_id = m.user_id;
  team_id = m.team_id;
  role = m.role;
  joined_at = env.format_utc m.joined_at;
}

module _ {R : Type 0} (env : Env) where
  unfoldable pub create_team : ℕ → Option CreateTeamRequest → World R → Response × World R
  create_team uid = with_body (λ req.
      answer (λ t. record { status = 201; body = team_body (founded env t) })
        (Teams.create env uid req))

  unfoldable pub list_teams : ℕ → World R → Response × World R
  list_teams uid =
      answer (λ teams. record { status = 200; body = teams_body teams }) (Teams.list env uid)

  unfoldable pub invite : ℕ → Bytes → Option InviteRequest → World R → Response × World R
  invite uid param body =
      with_path (codes "team id")
        (λ id.
          with_body
            (λ req.
              answer (λ x. record { status = 201; body = invited_body id req.user_id req.role })
                (Teams.invite env uid id req))
            body)
        (path_id param)

  unfoldable pub list_members : ℕ → Bytes → World R → Response × World R
  list_members uid param =
      with_path (codes "team id")
        (λ id.
          answer (λ ms. record { status = 200; body = members_body (map (shown_member env) ms) })
            (Teams.list_members env uid id))
        (path_id param)
