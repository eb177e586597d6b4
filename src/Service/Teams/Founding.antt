-- ===== src/Service/Teams/Founding.antt =====
-- What founding a team does: the team and its owner, and the team that is left without one.
use secunda_homework.Base.{
  ℕ, suc, Bool, true, false, ◌||◌, ◌≤◌, none, some, [], ◌∷◌, ◌++◌, ◌≡◌, sym, ap, ◌∙◌, arith, find,
  any_of_find, ltb, length, ◌==◌,
}
use secunda_homework.Text.{Bytes, is_empty, trim_space}
use secunda_homework.Entity.Role
use secunda_homework.Entity.Rows.{User, Team, TeamMember}
use secunda_homework.Dto.Requests.{CreateTeamRequest}
use secunda_homework.Store.State.{Db, World, Env, validation, not_found, db, other}
use secunda_homework.Store.Monad.{
  M, ok, err, ok-injective, pure, stop_if, stop_if-ok, map_err, map_err-ok, bind-ok, ◌>>=◌, ◌>>◌,
}
use secunda_homework.Store.Calls.{now, query, exec, check_result}
use secunda_homework.Store.Effects.{passed, Reads-stop_if, Reads-now}
use secunda_homework.Repository.Rows.{user_exists, on_duplicate, wrap}
use secunda_homework.Repository.Users.{find_user}
use secunda_homework.Repository.Teams.{create_team, add_member, insert_team}
use secunda_homework.Repository.Inserts.{find_user-ok, create_team-ok, add_member-ok}
use secunda_homework.Service.Access.{not_found_as}
use secunda_homework.Service.Teams.{team_name_max_len, new_team, create}
use secunda_homework.Service.Teams.Laws.{Reads-find_user}

abbrev pub team_row : Env → Team → ℕ → Team
team_row env t id = record t {
  id = id;
  created_at = env.column_time t.created_at;
  updated_at = env.column_time t.updated_at;
}

abbrev pub owner_row : Env → ℕ → ℕ → ℕ → TeamMember
owner_row env actor_id team_id joined = record {
  user_id = actor_id;
  team_id = team_id;
  role = Role.owner;
  joined_at = env.column_time joined;
}

-- The tables before and after the founding of a team.
pub record IsFounded (env : Env) (actor_id : ℕ) (name : Bytes) (before after : Db) (t : Team)
    : Type 0 where
  pub user : User
  pub created : ℕ
  pub updated : ℕ
  pub joined : ℕ
  pub given : is_empty name ≡ false
  pub short : length name ≤ team_name_max_len
  pub known : find (λ u. u.id == actor_id) before.users ≡ some user
  pub team : t ≡ record (new_team name actor_id created updated) { id = t.id }
  pub rows : after ≡ record before {
    teams = before.teams ++ (team_row env (new_team name actor_id created updated) t.id) ∷ [];
    members = before.members ++ (owner_row env actor_id t.id joined) ∷ [];
  }

-- The tables once the team and its owner are in.
abbrev settled_db : Env → ℕ → Db → Team → ℕ → ℕ → Db
settled_db env actor_id d row id joined = record d {
  teams = d.teams ++ (team_row env row id) ∷ [];
  members = d.members ++ (owner_row env actor_id id joined) ∷ [];
}

rows_added :
    (env : Env) (actor_id : ℕ) (d1 d2 d3 d4 : Db) (row : Team) (n id joined : ℕ)
    → id ≡ n
    → d2 ≡ record d1 { teams = d1.teams ++ (team_row env row n) ∷ [] }
    → d3 ≡ d2
    → d4 ≡ record d3 { members = d3.members ++ (owner_row env actor_id id joined) ∷ [] }
    → d4 ≡ settled_db env actor_id d1 row id joined
rows_added env actor_id d1 d2 d3 d4 row n id joined q r s u = rw (u, s, r, q)

IsFounded-of :
    (env : Env) (actor_id : ℕ) (name : Bytes) (before d after : Db) (user : User)
    (created updated joined id : ℕ) (t : Team)
    → is_empty name || ltb team_name_max_len (length name) ≡ false
    → find (λ u. u.id == actor_id) before.users ≡ some user
    → d ≡ before
    → record (new_team name actor_id created updated) { id = id } ≡ t
    → after ≡ settled_db env actor_id d (new_team name actor_id created updated) id joined
    → IsFounded env actor_id name before after t
IsFounded-of env actor_id name before d after user created updated joined id t fine known p same
      rows =
    let id_eq : id ≡ t.id = ap (λ v. v.id) same in
    record {
      user = user;
      created = created;
      updated = updated;
      joined = joined;
      given = ground arith;
      short = ground arith;
      known = known;
      team = sym same ∙ ap (λ n. record (new_team name actor_id created updated) { id = n }) id_eq;
      rows = rw (p, id_eq) at rows;
    }

module _ {R : Type 0} (env : Env) (actor_id : ℕ) where
  -- The end of the operation, from the insert of the team on.
  abbrev settle : Team → M R Team
  settle row = do
    id ← create_team env row
    joined ← now env
    add_member env
        (record { user_id = actor_id; team_id = id; role = Role.owner; joined_at = joined })
    pure (record row { id = id })

  settle-ok :
      (row : Team) (w : World R) {t : Team}
      → (settle row w).0 ≡ ok t
      → (id : ℕ) × (joined : ℕ) × (record row { id = id } ≡ t)
        × ((settle row w).1.db ≡ settled_db env actor_id w.db row id joined)
  settle-ok row w {t} h =
      let (id, made, whole1, rest1) = bind-ok (create_team env row) _ w h in
      let w1 = (create_team env row w).1 in
      let (key, teams) = create_team-ok env row w made in
      let u = passed (now env) _ w1 (Reads-now env) rest1 in
      let w2 = (now env w1).1 in
      let m : TeamMember = record {
        user_id = actor_id;
        team_id = id;
        role = Role.owner;
        joined_at = u.value;
      } in
      let (_, added, whole3, rest3) = bind-ok (add_member env m) _ w2 u.rest in
      let (_, _, _, members) = add_member-ok env m w2 added in
      let same : ok (record row { id = id }) ≡ ok t = rest3 in
      (
        id,
        u.value,
        ok-injective same,
        ap (λ v. v.1.db) (whole1 ∙ u.whole ∙ whole3)
            ∙ rows_added env actor_id w.db w1.db w2.db (add_member env m w2).1.db row w.seq.team id
                u.value key teams u.db members,
      )

  -- A team that is founded has a trimmed name of 1 to 100 bytes and a registered founder; the team
  -- and the founder's membership as its owner are the two new rows.
  pub create-IsFounded :
      (req : CreateTeamRequest) (w : World R) (t : Team)
      → (create env actor_id req w).0 ≡ ok t
      → IsFounded env actor_id (trim_space req.name) w.db (create env actor_id req w).1.db t
  unfolding create
  create-IsFounded req w t h =
      let name = trim_space req.name in
      let refused : Bool = is_empty name || ltb team_name_max_len (length name) in
      let p =
        passed (stop_if refused (validation none)) _ w (Reads-stop_if refused (validation none))
          h in
      let w1 = (stop_if refused (validation none) w).1 in
      let q =
        passed (map_err (not_found_as not_found) (find_user env actor_id)) _ w1
          (Reads-find_user env not_found actor_id) p.rest in
      let known =
        find_user-ok env actor_id w1
          (map_err-ok (not_found_as not_found) (find_user env actor_id) w1 q.first) in
      let w2 = (map_err (not_found_as not_found) (find_user env actor_id) w1).1 in
      let r = passed (now env) _ w2 (Reads-now env) q.rest in
      let w3 = (now env w2).1 in
      let s = passed (now env) _ w3 (Reads-now env) r.rest in
      let w4 = (now env w3).1 in
      let (id, joined, same, rows) = settle-ok (new_team name actor_id r.value s.value) w4 s.rest in
      IsFounded-of env actor_id name w.db w4.db (create env actor_id req w).1.db q.value r.value
        s.value joined id t (stop_if-ok refused (validation none) w p.first) (rw p.db at known)
        (s.db ∙ r.db ∙ q.db ∙ p.db) same
        (ap (λ v. v.1.db) (p.whole ∙ q.whole ∙ r.whole ∙ s.whole) ∙ rows)

  -- Where the insert of the founder's membership is the one call that fails, founding a team
  -- returns an error and leaves the team without a member.
  pub create_orphans :
      (req : CreateTeamRequest) (w : World R) (u : User)
      → is_empty (trim_space req.name) || ltb team_name_max_len (length (trim_space req.name))
        ≡ false
      → find (λ v. v.id == actor_id) w.db.users ≡ some u
      → env.db_fails w.step ≡ false
      → env.db_fails (suc (suc (suc w.step))) ≡ false
      → env.result_fails (suc (suc (suc (suc w.step)))) ≡ false
      → env.db_fails (suc (suc (suc (suc (suc (suc w.step)))))) ≡ true
      → let after : Db = (create env actor_id req w).1.db in
        ((create env actor_id req w).0 ≡ err (db other))
        × (after ≡ record w.db {
          teams =
              w.db.teams
              ++ (team_row env
                  (new_team
                    (trim_space req.name)
                    actor_id
                    (env.clock (suc w.step))
                    (env.clock (suc (suc w.step))))
                  w.seq.team)
                ∷ [];
        })
  unfolding create find_user create_team add_member insert_team user_exists query exec now
      check_result on_duplicate wrap not_found_as ◌>>=◌
  create_orphans req w u fine known q s c f =
      let registered = any_of_find (λ v. v.id == actor_id) w.db.users known in
      (simp (fine, known, q, registered, s, c, f), simp (fine, known, q, registered, s, c, f))
