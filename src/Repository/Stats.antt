-- ===== src/Repository/Stats.antt =====
-- internal/repository/stats_repo.go: the three reporting queries. A column that shows a time that
-- was passed as a parameter is a string, and its printing is an argument.
pub mod Laws
use secunda_homework.Base.{
  ℕ, zero, suc, ◌+◌, ◌-◌, ◌*◌, ℤ, pos, negsuc, Bool, true, false, not, ◌&&◌, ◌||◌, Option, none,
  some, List, [], ◌∷◌, ◌++◌, map, if◌then◌else◌, any, find, select, ◌==◌, ltb, leb, leb_ℤ, is_none,
  length, take, ◌-ℤ◌, ◌*ℤ◌, wrap, pos_part,
}
use secunda_homework.Text.{Bytes, codes}
use secunda_homework.Entity.Rows.{User, Team, TeamMember, Task, TaskHistory}
use secunda_homework.Dto.Stats.{TeamStatsResponse, TopCreatorEntry, OrphanTaskResponse}
use secunda_homework.Store.State.{Db, Env}
use secunda_homework.Store.Monad.{M, ok, ◌>>=◌}
use secunda_homework.Store.Calls.{now, query}
use secunda_homework.Token.{add_time}
use secunda_homework.Repository.Rows.{order_by}
use secunda_homework.Repository.Tasks.{has_id, is_live}
use secunda_homework.Repository.Teams.{is_member}

abbrev pub count : {A : Type 0} → (A → Bool) → List A → ℕ
count p xs = length (select p xs)

-- An hour, in nanoseconds.
abbrev pub hour : ℕ
hour = 3_600_000_000_000

-- The columns of the change of a status to `done` at a time or later, in a task of the team.
abbrev is_done_in : (Bytes → Bytes → Bool) → List Task → ℕ → ℕ → TaskHistory → Bool
is_done_in collate tasks team_id since h =
    any (λ t. t.id == h.task_id && t.team_id == team_id) tasks
    && (collate h.field (codes "status")
        && (elim h.new_value [ none ↦ false | some v ↦ collate v (codes "done") ]
            && leb since h.changed_at))

unfoldable pub team_stats : (Bytes → Bytes → Bool) → ℕ → Db → List TeamStatsResponse
team_stats collate since d =
    map
      (λ t. record {
        team_id = t.id;
        team_name = t.name;
        member_count = count (λ m. m.team_id == t.id) d.members;
        done_last_7_days = count (is_done_in collate d.tasks t.id since) d.history;
      })
      (order_by (λ a b. leb a.id b.id) d.teams)

-- The tasks that one user has created in a team, and that the report counts.
unfoldable pub created_since : ℕ → ℕ → ℕ → Task → Bool
created_since since team_id user_id t =
    is_live t && (leb since t.created_at && (t.team_id == team_id && t.created_by == user_id))

-- A user with a number of tasks; the groups have a task at least.
pub record Creator : Type 0 where
  pub user : User
  pub tasks : ℕ

unfoldable pub creators : ℕ → Db → Team → List Creator
creators since d team =
    select (λ c. ltb 0 c.tasks)
      (map (λ u. record { user = u; tasks = count (created_since since team.id u.id) d.tasks })
        d.users)

-- ORDER BY COUNT(*) DESC, created_by ASC
abbrev pub ranks_before : Creator → Creator → Bool
ranks_before a b = ltb b.tasks a.tasks || (a.tasks == b.tasks && leb a.user.id b.user.id)

-- ROW_NUMBER() from a first number, over rows in order.
unfoldable pub entries : Team → Bytes → Bytes → ℕ → List Creator → List TopCreatorEntry
entries team from to rank [] = []
entries team from to rank (c ∷ cs) =
    record {
      team_id = team.id;
      team_name = team.name;
      user_id = c.user.id;
      user_name = c.user.name;
      user_email = c.user.email;
      task_count = c.tasks;
      rank = rank;
      window_from = from;
      window_to = to;
    }
    ∷ entries team from to (rank + 1) cs

-- The partition of one team, WHERE rnk <= limit.
unfoldable pub top_of_team : ℕ → Bytes → Bytes → ℕ → Db → Team → List TopCreatorEntry
top_of_team since from to limit d team =
    entries team from to 1 (take limit (order_by ranks_before (creators since d team)))

abbrev flat_map : {A B : Type 0} → (A → List B) → List A → List B
flat_map f [] = []
flat_map f (x ∷ xs) = f x ++ flat_map f xs

-- An INNER JOIN with the teams and the users, in the order of the teams.
unfoldable pub top_creators : ℕ → Bytes → Bytes → ℕ → Db → List TopCreatorEntry
top_creators since from to limit d =
    flat_map (top_of_team since from to limit d) (order_by (λ a b. leb a.id b.id) d.teams)

abbrev assigned_outside : List TeamMember → Task → Bool
assigned_outside members t = elim t.assignee_id [
  | none ↦ false
  | some id ↦ not (any (is_member t.team_id id) members)
]

abbrev email_of : Option User → Option Bytes
email_of none = none
email_of (some u) = some u.email

-- LEFT JOIN users
abbrev assignee_email : List User → Option ℕ → Option Bytes
assignee_email users none = none
assignee_email users (some id) = email_of (find (λ u. u.id == id) users)

abbrev orphan_row : List User → Task → OrphanTaskResponse
orphan_row users t = record {
  task_id = t.id;
  team_id = t.team_id;
  title = t.title;
  assignee_id = t.assignee_id;
  assignee_email = assignee_email users t.assignee_id;
}

abbrev by_team : Task → Task → Bool
by_team a b = ltb a.team_id b.team_id || (a.team_id == b.team_id && leb a.id b.id)

unfoldable pub orphans : Db → List OrphanTaskResponse
orphans d =
    map (orphan_row d.users)
      (order_by by_team (select (λ t. is_live t && assigned_outside d.members t) d.tasks))

-- `-time.Duration(sinceDays) * 24 * time.Hour`, in 64 bits.
unfoldable pub look_back : ℤ → ℤ
look_back since_days = wrap (wrap (wrap (pos 0 -ℤ since_days) *ℤ pos 24) *ℤ pos hour)

abbrev pub or_default : ℤ → ℤ → ℤ
or_default value default = if leb_ℤ value (pos 0) then default else value

module _ {R : Type 0} (env : Env) where
  unfoldable pub team_stats_last_week : M R (List TeamStatsResponse)
  team_stats_last_week = do
    at ← now env
    query env (λ d. ok (team_stats env.collate (at - 7 * 24 * hour) d))

  unfoldable pub top_creators_by_team : (ℕ → Bytes) → ℤ → ℤ → M R (List TopCreatorEntry)
  top_creators_by_team print since_days limit = do
    at ← now env
    let from = add_time at (look_back (or_default since_days (pos 30)))
    query env (λ d.
        ok (top_creators from (print from) (print at) (pos_part (or_default limit (pos 3))) d))

  unfoldable pub orphan_tasks : M R (List OrphanTaskResponse)
  orphan_tasks = query env (λ d. ok (orphans d))
