-- ===== src/Repository/Teams.antt =====
-- internal/repository/team_repo.go.
use secunda_homework.Base.{
  ℕ, suc, Bool, not, ◌&&◌, ◌||◌, List, [], ◌∷◌, ◌++◌, if◌then◌else◌, any, find, select, update,
  ◌==◌, is_some, leb, ltb,
}
use secunda_homework.Text.{beq}
use secunda_homework.Entity.Role.{Role}
use secunda_homework.Entity.Rows.{Team, TeamMember}
use secunda_homework.Store.State.{Db, Seq, Env, db, duplicate, other, not_found}
use secunda_homework.Store.Monad.{M, Result, ok, err, pure, reject, map_err, ◌>>=◌, ◌>>◌}
use secunda_homework.Store.Calls.{query, exec, check_result}
use secunda_homework.Repository.Rows.{
  wrap, on_duplicate, one_row, order_by, user_exists, team_exists,
}

pub record TeamWithRole : Type 0 where
  pub team : Team
  pub role : Role

-- WHERE team_id = ? AND user_id = ?
abbrev pub is_member : ℕ → ℕ → TeamMember → Bool
is_member team_id user_id m = m.team_id == team_id && m.user_id == user_id

-- INSERT INTO teams; the creator must be a user.
unfoldable pub insert_team : Team → ℕ → Db → Seq → Result (ℕ × Db × Seq)
insert_team t at d s =
    if user_exists t.created_by d.users
    then ok (
      s.team,
      record d { teams = d.teams ++ (record t { id = s.team }) ∷ [] },
      record s { team = suc s.team },
    )
    else err (db other)

-- INSERT INTO team_members; the pair of user and team is the primary key.
unfoldable pub insert_member : TeamMember → ℕ → Db → Seq → Result (Unit {0} × Db × Seq)
insert_member m at d s =
    if any (is_member m.team_id m.user_id) d.members
    then err (db duplicate)
    else if user_exists m.user_id d.users && team_exists m.team_id d.teams
    then ok (tt, record d { members = d.members ++ m ∷ [] }, s)
    else err (db other)

-- The join of teams with the memberships of a user.
unfoldable pub teams_of : ℕ → List TeamMember → Team → List TeamWithRole
teams_of user_id [] t = []
teams_of user_id (m ∷ ms) t =
    if is_member t.id user_id m
    then (record { team = t; role = m.role }) ∷ teams_of user_id ms t
    else teams_of user_id ms t

unfoldable pub join_teams : ℕ → List TeamMember → List Team → List TeamWithRole
join_teams user_id ms [] = []
join_teams user_id ms (t ∷ ts) = teams_of user_id ms t ++ join_teams user_id ms ts

-- ORDER BY joined_at, user_id
abbrev pub joined_before : TeamMember → TeamMember → Bool
joined_before a b =
    ltb a.joined_at b.joined_at || a.joined_at == b.joined_at && leb a.user_id b.user_id

-- The rows that an UPDATE changes are counted, not the rows that it finds.
unfoldable pub set_member_role : ℕ → ℕ → Role → ℕ → Db → Seq → Result (Bool × Db × Seq)
set_member_role team_id user_id role at d s = ok (
  any (λ m. is_member team_id user_id m && not (beq m.role role)) d.members,
  record d {
    members = update (is_member team_id user_id) (λ m. record m { role = role }) d.members;
  },
  s,
)

unfoldable pub delete_member : ℕ → ℕ → ℕ → Db → Seq → Result (Bool × Db × Seq)
delete_member team_id user_id at d s = ok (
  any (is_member team_id user_id) d.members,
  record d { members = select (λ m. not (is_member team_id user_id m)) d.members },
  s,
)

module _ {R : Type 0} (env : Env) where
  unfoldable pub create_team : Team → M R ℕ
  create_team t = do
    let row : Team = record t {
      created_at = env.column_time t.created_at;
      updated_at = env.column_time t.updated_at;
    }
    id ← map_err on_duplicate (exec env (insert_team row))
    check_result env
    pure id

  unfoldable pub find_team : ℕ → M R Team
  find_team id = map_err wrap (query env (λ d. one_row (find (λ t. t.id == id) d.teams)))

  unfoldable pub list_teams_by_user : ℕ → M R (List TeamWithRole)
  list_teams_by_user user_id =
      query env
        (λ d. ok (order_by (λ a b. leb a.team.id b.team.id) (join_teams user_id d.members d.teams)))

  unfoldable pub add_member : TeamMember → M R (Unit {0})
  add_member m =
      map_err on_duplicate
        (exec env (insert_member (record m { joined_at = env.column_time m.joined_at })))

  unfoldable pub get_member : ℕ → ℕ → M R TeamMember
  get_member team_id user_id =
      map_err wrap (query env (λ d. one_row (find (is_member team_id user_id) d.members)))

  unfoldable pub list_members : ℕ → M R (List TeamMember)
  list_members team_id =
      query env (λ d. ok (order_by joined_before (select (λ m. m.team_id == team_id) d.members)))

  unfoldable pub update_member_role : ℕ → ℕ → Role → M R (Unit {0})
  update_member_role team_id user_id role = do
    changed ← exec env (set_member_role team_id user_id role)
    check_result env
    reject (not changed) not_found (pure tt)

  unfoldable pub remove_member : ℕ → ℕ → M R (Unit {0})
  remove_member team_id user_id = do
    found ← exec env (delete_member team_id user_id)
    check_result env
    reject (not found) not_found (pure tt)

  unfoldable pub user_belongs_to_team : ℕ → ℕ → M R Bool
  user_belongs_to_team team_id user_id =
      query env (λ d. ok (is_some (find (is_member team_id user_id) d.members)))
