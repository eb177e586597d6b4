-- ===== src/Tests/Rights.antt =====
-- The rights of users and the isolation of teams at concrete requests.
use secunda_homework.Base.{
  ℕ, ◌≤◌, find, false, true, Option, some, List, [], ◌∷◌, ◌≡◌, refl, ap, arith, any,
}
use secunda_homework.Text.{Bytes, codes}
use secunda_homework.Middleware.{Outcome, missing_token, invalid, authenticated, require_auth}
use secunda_homework.Repository.Rows.{team_exists}
use secunda_homework.Router.{Request, authed_request, post_teams, get_task_by_id, serve, serve_all}
use secunda_homework.Authority.Isolation.{view, IsOutsider}
use secunda_homework.Authority.Routes.{Allowed, serve-Allowed}
use secunda_homework.Authority.Runs.{serve_all-isolated}
use secunda_homework.Router.Outsiders.{task_of, serve_outsider}
use secunda_homework.Repository.Tasks.{has_id}
use secunda_homework.Repository.Teams.{is_member}
use secunda_homework.Tests.{tables, release}
use secunda_homework.Tests.Program.{deps, app, foreign_delete, tables-IsSound}

serve-Allowed_example : Allowed deps app foreign_delete (serve deps foreign_delete app).1.world.db
serve-Allowed_example = serve-Allowed deps foreign_delete app

-- The requests of the user 2, who is in no team.
abbrev by_bob : List Request
by_bob =
    foreign_delete
    ∷ authed_request (codes "Bearer 2") (post_teams (some (record { name = codes "ops" })))
    ∷ []

abbrev found_id : Outcome → ℕ
found_id missing_token = 0
found_id invalid = 0
found_id (authenticated id email) = id

-- The token is for the user 2, whenever it is checked.
token_of_bob :
    (at id : ℕ) (email : Bytes)
    → require_auth deps.lib.jwt deps.lib.tokens at (codes "Bearer 2") ≡ authenticated id email
    → 2 ≡ id
unfolding require_auth secunda_homework.Middleware.extract_bearer secunda_homework.Text.beq
    secunda_homework.Text.trim_space secunda_homework.Token.parse_token
    secunda_homework.Token.user_id secunda_homework.Text.parse_uint secunda_homework.Text.trim_left
    secunda_homework.Text.trim_right
token_of_bob at id email h = ap found_id h

bob_outside : (id : ℕ) → 2 ≡ id → IsOutsider 7 id (view 7 tables)
unfolding any secunda_homework.Base.select
bob_outside id h = ground (arith, h)

team_stands : team_exists 7 tables.teams ≡ true
unfolding team_exists any
team_stands = refl

serve_all-isolated_example : view 7 (serve_all deps by_bob app).world.db ≡ view 7 tables
serve_all-isolated_example = serve_all-isolated deps 7 by_bob app tables-IsSound team_stands (
  λ at id email h. bob_outside id (token_of_bob at id email h),
  (λ at id email h. bob_outside id (token_of_bob at id email h), tt),
)

task_three : find (has_id 3) tables.tasks ≡ some release
unfolding find
task_three = refl

path_three : task_of (get_task_by_id (codes "3")) ≡ some 3
unfolding secunda_homework.Text.parse_uint
path_three = refl

bob_no_member : (id : ℕ) → 2 ≡ id → any (is_member 7 id) tables.members ≡ false
unfolding any
bob_no_member id h = ground (arith, h)

serve_outsider_example :
    400 ≤ (serve deps (authed_request (codes "Bearer 2") (get_task_by_id (codes "3"))) app).0.status
serve_outsider_example =
    serve_outsider deps (codes "Bearer 2") (get_task_by_id (codes "3")) 3 release app path_three
      task_three (λ id email h. bob_no_member id (token_of_bob (deps.env.clock 0) id email h))
