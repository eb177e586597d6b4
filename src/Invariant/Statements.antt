-- ===== src/Invariant/Statements.antt =====
-- The inserts of users, teams and members (internal/repository) and the soundness of the tables.
use secunda_homework.Base.{
  ℕ, true, ◌&&◌, Option, none, some, List, [], ◌∷◌, ◌++◌, ◌≡◌, refl, arith, any, ◌==◌, inl, inr,
  Bool-cases, and-true,
}
use secunda_homework.Entity.Role
use secunda_homework.Entity.Rows.{User, Team, TeamMember, Task}
use secunda_homework.Store.State.{Db, Seq, Env}
use secunda_homework.Store.Keeps.{Grows, Grows-refl, Writes}
use secunda_homework.Repository.Rows.{user_exists, team_exists, task_exists, assignee_exists}
use secunda_homework.Repository.Users.{has_email, insert_user}
use secunda_homework.Repository.Teams.{is_member, insert_team, insert_member}
use secunda_homework.Invariant.{IsText, IsSound}
use secunda_homework.Invariant.Tables.{
  Keyed-append, Keyed-mono, Pairwise-append, All-of_none, any-append_left, All-weaken, All-snoc,
}

module _ (env : Env) where
  pub IsSound-mono : (d : Db) (s s' : Seq) → Grows s s' → IsSound env d s → IsSound env d s'
  IsSound-mono d s s' g h = record {
    user_keys = Keyed-mono _ 0 s.user s'.user d.users g.user h.user_keys;
    team_keys = Keyed-mono _ 0 s.team s'.team d.teams g.team h.team_keys;
    task_keys = Keyed-mono _ 0 s.task s'.task d.tasks g.task h.task_keys;
    history_keys = Keyed-mono _ 0 s.history s'.history d.history g.history h.history_keys;
    comment_keys = Keyed-mono _ 0 s.comment s'.comment d.comments g.comment h.comment_keys;
    emails = h.emails;
    memberships = h.memberships;
    team_rows = h.team_rows;
    member_rows = h.member_rows;
    task_rows = h.task_rows;
    history_rows = h.history_rows;
    comment_rows = h.comment_rows;
  }

  user_exists-snoc :
      (id : ℕ) (users : List User) (u : User)
      → user_exists id users ≡ true
      → user_exists id (users ++ u ∷ []) ≡ true
  unfolding user_exists
  user_exists-snoc id users u h = any-append_left (λ u. u.id == id) users (u ∷ []) h

  assignee_exists-snoc :
      (id : Option ℕ) (users : List User) (u : User)
      → assignee_exists id users ≡ true
      → assignee_exists id (users ++ u ∷ []) ≡ true
  assignee_exists-snoc none users u h = refl
  assignee_exists-snoc (some id) users u h = user_exists-snoc id users u h

  team_exists-snoc :
      (id : ℕ) (teams : List Team) (t : Team)
      → team_exists id teams ≡ true
      → team_exists id (teams ++ t ∷ []) ≡ true
  unfolding team_exists
  team_exists-snoc id teams t h = any-append_left (λ t. t.id == id) teams (t ∷ []) h

  pub task_exists-snoc :
      (id : ℕ) (tasks : List Task) (t : Task)
      → task_exists id tasks ≡ true
      → task_exists id (tasks ++ t ∷ []) ≡ true
  unfolding task_exists
  task_exists-snoc id tasks t h = any-append_left (λ t. t.id == id) tasks (t ∷ []) h

  pub Writes-insert_user :
      (u : User) (at : ℕ) (d : Db) (s : Seq)
      → IsSound env d s
      → Writes (IsSound env) s (insert_user env u at d s)
  unfolding insert_user
  Writes-insert_user u at d s h = elim (Bool-cases (any (has_email env u.email) d.users)) [
    | inl taken ↦ rw taken tt
    | inr new ↦ rw new (
        let row = record u { id = s.user } in
        (
          record {
            user_keys = Keyed-append _ 0 s.user d.users row h.user_keys refl;
            team_keys = h.team_keys;
            task_keys = h.task_keys;
            history_keys = h.history_keys;
            comment_keys = h.comment_keys;
            emails = Pairwise-append _ d.users row h.emails (All-of_none _ d.users new);
            memberships = h.memberships;
            team_rows =
                All-weaken _ _ d.teams (λ t p. (p.0, user_exists-snoc t.created_by d.users row p.1))
                  h.team_rows;
            member_rows =
                All-weaken _ _ d.members
                  (λ m p. (p.0, user_exists-snoc m.user_id d.users row p.1, p.2)) h.member_rows;
            task_rows =
                All-weaken _ _ d.tasks
                  (λ t p. (
                    p.0,
                    p.1,
                    p.2,
                    user_exists-snoc t.created_by d.users row p.3,
                    assignee_exists-snoc t.assignee_id d.users row p.4,
                  ))
                  h.task_rows;
            history_rows =
                All-weaken _ _ d.history
                  (λ r p. (p.0, user_exists-snoc r.changed_by d.users row p.1)) h.history_rows;
            comment_rows =
                All-weaken _ _ d.comments
                  (λ c p. (p.0, p.1, user_exists-snoc c.user_id d.users row p.2)) h.comment_rows;
          },
          omega arith,
        ))
  ]

  pub Writes-insert_team :
      (t : Team) (at : ℕ) (d : Db) (s : Seq)
      → IsText 100 t.name
      → IsSound env d s
      → Writes (IsSound env) s (insert_team t at d s)
  unfolding insert_team
  Writes-insert_team t at d s name h = elim (Bool-cases (user_exists t.created_by d.users)) [
    | inr nobody ↦ rw nobody tt
    | inl founder ↦ rw founder (
        let row = record t { id = s.team } in
        (
          record {
            user_keys = h.user_keys;
            team_keys = Keyed-append _ 0 s.team d.teams row h.team_keys refl;
            task_keys = h.task_keys;
            history_keys = h.history_keys;
            comment_keys = h.comment_keys;
            emails = h.emails;
            memberships = h.memberships;
            team_rows = All-snoc _ d.teams row h.team_rows (name, founder);
            member_rows =
                All-weaken _ _ d.members
                  (λ m p. (p.0, p.1, team_exists-snoc m.team_id d.teams row p.2)) h.member_rows;
            task_rows =
                All-weaken _ _ d.tasks
                  (λ k p. (p.0, p.1, team_exists-snoc k.team_id d.teams row p.2, p.3, p.4))
                  h.task_rows;
            history_rows = h.history_rows;
            comment_rows = h.comment_rows;
          },
          omega arith,
        ))
  ]

  pub Writes-insert_member :
      (m : TeamMember) (at : ℕ) (d : Db) (s : Seq)
      → Role.is_valid m.role ≡ true
      → IsSound env d s
      → Writes (IsSound env) s (insert_member m at d s)
  unfolding insert_member
  Writes-insert_member m at d s role h =
      elim (Bool-cases (any (is_member m.team_id m.user_id) d.members)) [
        | inl taken ↦ rw taken tt
        | inr new ↦
            rw new
              (elim (Bool-cases (user_exists m.user_id d.users && team_exists m.team_id d.teams)) [
                | inr missing ↦ rw missing tt
                | inl there ↦
                    let (user, team) =
                      and-true (user_exists m.user_id d.users) (team_exists m.team_id d.teams)
                        there in
                    rw there (
                      record {
                        user_keys = h.user_keys;
                        team_keys = h.team_keys;
                        task_keys = h.task_keys;
                        history_keys = h.history_keys;
                        comment_keys = h.comment_keys;
                        emails = h.emails;
                        memberships =
                            Pairwise-append _ d.members m h.memberships
                              (All-of_none _ d.members new);
                        team_rows = h.team_rows;
                        member_rows = All-snoc _ d.members m h.member_rows (role, user, team);
                        task_rows = h.task_rows;
                        history_rows = h.history_rows;
                        comment_rows = h.comment_rows;
                      },
                      Grows-refl s,
                    )
              ])
      ]
