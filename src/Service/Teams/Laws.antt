-- ===== src/Service/Teams/Laws.antt =====
-- What founding a team and inviting into it do, where they succeed and where they fail.
use secunda_homework.Base.{
  ℕ, true, false, not, none, some, [], ◌∷◌, ◌++◌, ◌≡◌, ap, ◌∙◌, arith, find, any, ◌==◌,
}
use secunda_homework.Entity.Role
use secunda_homework.Entity.Rows.{User, Team, TeamMember}
use secunda_homework.Dto.Requests.{InviteRequest}
use secunda_homework.Store.State.{Db, World, Env, Err, validation, forbidden, not_found}
use secunda_homework.Store.Monad.{ok, err, stop_if, stop_if-ok, map_err, map_err-ok}
use secunda_homework.Store.Calls.{now}
use secunda_homework.Store.Effects.{
  Reads, passed, Reads-stop_if, Reads-now, Reads-map_err, Reads-query, Atomic-bind, Atomic-map_err,
  Atomic-exec,
}
use secunda_homework.Repository.Users.{find_user}
use secunda_homework.Repository.Teams.{is_member, find_team, add_member}
use secunda_homework.Repository.Inserts.{find_user-ok, find_team-ok, add_member-ok}
use secunda_homework.Service.Access.{not_found_as, require_member}
use secunda_homework.Service.Access.Laws.{require_member-ok}
use secunda_homework.Service.Tasks.Effects.{Reads-require_member}
use secunda_homework.Service.Teams.{invite}

-- The tables before and after an invitation.
pub record IsInvited (env : Env) (actor_id team_id : ℕ) (req : InviteRequest) (before after : Db)
    : Type 0 where
  pub team : Team
  pub actor : TeamMember
  pub user : User
  pub joined : ℕ
  pub exists : find (λ t. t.id == team_id) before.teams ≡ some team
  pub belongs : find (is_member team_id actor_id) before.members ≡ some actor
  pub may_invite : Role.can_invite actor.role ≡ true
  pub known : find (λ u. u.id == req.user_id) before.users ≡ some user
  pub role_valid : Role.is_valid req.role ≡ true
  pub is_new : any (is_member team_id req.user_id) before.members ≡ false
  pub rows : after ≡ record before {
    members =
        before.members
        ++ (record {
          user_id = req.user_id;
          team_id = team_id;
          role = req.role;
          joined_at = env.column_time joined;
        })
          ∷ [];
  }

module _ {R : Type 0} (env : Env) where
  pub Reads-find_user :
      (e : Err) (id : ℕ) → Reads {R = R} (map_err (not_found_as e) (find_user env id))
  unfolding find_user
  Reads-find_user e id = Reads-map_err _ _ (Reads-map_err _ _ (Reads-query env _))

  pub Reads-find_team :
      (e : Err) (id : ℕ) → Reads {R = R} (map_err (not_found_as e) (find_team env id))
  unfolding find_team
  Reads-find_team e id = Reads-map_err _ _ (Reads-map_err _ _ (Reads-query env _))

  -- An invitation that fails, at whatever call, has changed no table.
  pub invite_atomic :
      (actor_id team_id : ℕ) (req : InviteRequest) (w : World R) (e : Err)
      → (invite env actor_id team_id req w).0 ≡ err e
      → (invite env actor_id team_id req w).1.db ≡ w.db
  unfolding invite add_member
  invite_atomic actor_id team_id req w e h =
      (Atomic-bind _ _ (Reads-find_team not_found team_id) (λ t.
          Atomic-bind _ _ (Reads-require_member env team_id actor_id) (λ a.
            Atomic-bind _ _ (Reads-stop_if _ _) (λ _.
              Atomic-bind _ _ (Reads-find_user not_found req.user_id) (λ u.
                Atomic-bind _ _ (Reads-stop_if _ _) (λ _.
                  Atomic-bind _ _ (Reads-now env)
                    (λ j. Atomic-map_err _ _ (Atomic-exec env _)))))))).undone
        w h

  -- An invitation that succeeds was made by an owner or admin of an existing team, for an existing
  -- user who was not in the team, with a valid role; that user's membership is the one new row.
  pub invite-IsInvited :
      (actor_id team_id : ℕ) (req : InviteRequest) (w : World R)
      → (invite env actor_id team_id req w).0 ≡ ok tt
      → IsInvited env actor_id team_id req w.db (invite env actor_id team_id req w).1.db
  unfolding invite
  invite-IsInvited actor_id team_id req w h =
      let p =
        passed (map_err (not_found_as not_found) (find_team env team_id)) _ w
          (Reads-find_team not_found team_id) h in
      let exists =
        find_team-ok env team_id w
          (map_err-ok (not_found_as not_found) (find_team env team_id) w p.first) in
      let w1 = (map_err (not_found_as not_found) (find_team env team_id) w).1 in
      let q =
        passed (require_member env team_id actor_id) _ _ (Reads-require_member env team_id actor_id)
          p.rest in
      let belongs = require_member-ok env team_id actor_id _ q.first in
      let barred = not (Role.can_invite q.value.role) in
      let r = passed (stop_if barred forbidden) _ _ (Reads-stop_if barred forbidden) q.rest in
      let may = stop_if-ok barred forbidden _ r.first in
      let s =
        passed (map_err (not_found_as not_found) (find_user env req.user_id)) _ _
          (Reads-find_user not_found req.user_id) r.rest in
      let w2 = (require_member env team_id actor_id w1).1 in
      let w3 = (stop_if barred forbidden w2).1 in
      let known =
        find_user-ok env req.user_id w3
          (map_err-ok (not_found_as not_found) (find_user env req.user_id) w3 s.first) in
      let bad = not (Role.is_valid req.role) in
      let t =
        passed (stop_if bad (validation none)) _ _ (Reads-stop_if bad (validation none)) s.rest in
      let valid = stop_if-ok bad (validation none) _ t.first in
      let u = passed (now env) _ _ (Reads-now env) t.rest in
      let (fresh, _, _, row) =
        add_member-ok env
          (record {
            user_id = req.user_id;
            team_id = team_id;
            role = req.role;
            joined_at = u.value;
          })
          _ u.rest in
      let to_r = r.db ∙ q.db ∙ p.db in
      let to_u = u.db ∙ t.db ∙ s.db ∙ to_r in
      record {
        team = p.value;
        actor = q.value;
        user = s.value;
        joined = u.value;
        exists = exists;
        belongs = rw p.db at belongs;
        may_invite = ground arith;
        known = rw to_r at known;
        role_valid = ground arith;
        is_new = rw to_u at fresh;
        rows =
            ap (λ v. v.1.db) (p.whole ∙ q.whole ∙ r.whole ∙ s.whole ∙ t.whole ∙ u.whole)
            ∙ (rw to_u at row);
      }
