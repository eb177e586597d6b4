-- ===== src/Service/Teams/Inviting.antt =====
-- When an invitation is accepted.
use secunda_homework.Base.{ℕ, false, true, ◌==◌, some, ◌≡◌, find, any, any_of_find}
use secunda_homework.Entity.Role
use secunda_homework.Entity.Rows.{User, Team, TeamMember}
use secunda_homework.Dto.Requests.{InviteRequest}
use secunda_homework.Store.State.{World, Env}
use secunda_homework.Store.Monad.{ok, ◌>>=◌}
use secunda_homework.Store.Calls.{now, query, exec}
use secunda_homework.Repository.Rows.{team_exists, user_exists, on_duplicate, wrap}
use secunda_homework.Repository.Users.{find_user}
use secunda_homework.Repository.Teams.{is_member, find_team, get_member, add_member, insert_member}
use secunda_homework.Service.Access.{not_found_as, require_member}
use secunda_homework.Service.Teams.{invite}

module _ {R : Type 0} (env : Env) where
  -- While no call of the driver fails, an invitation with a valid role, by an owner or admin of an
  -- existing team, of an existing user who is not in the team, succeeds.
  pub invite_succeeds :
      (actor_id team_id : ℕ) (req : InviteRequest) (w : World R) (t : Team) (actor : TeamMember)
      (u : User)
      → ((n : ℕ) → env.db_fails n ≡ false)
      → find (λ v. v.id == team_id) w.db.teams ≡ some t
      → find (is_member team_id actor_id) w.db.members ≡ some actor
      → Role.can_invite actor.role ≡ true
      → find (λ v. v.id == req.user_id) w.db.users ≡ some u
      → Role.is_valid req.role ≡ true
      → any (is_member team_id req.user_id) w.db.members ≡ false
      → (invite env actor_id team_id req w).0 ≡ ok tt
  unfolding invite find_team require_member get_member find_user query now add_member exec
      insert_member on_duplicate wrap not_found_as team_exists user_exists ◌>>=◌
  invite_succeeds actor_id team_id req w t actor u q exists belongs may known valid fresh =
      let registered = any_of_find (λ v. v.id == req.user_id) w.db.users known in
      let founded = any_of_find (λ v. v.id == team_id) w.db.teams exists in
      simp (q, exists, belongs, may, known, valid, fresh, registered, founded)
