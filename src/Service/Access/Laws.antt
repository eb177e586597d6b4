-- ===== src/Service/Access/Laws.antt =====
-- Who may see a task: the decision behind the calls, and that they implement it.
use secunda_homework.Base.{
  ℕ, false, Option, none, some, ◌≡◌, sym, ap, ◌∙◌, ◌⊎◌, ◌||◌, true, inl, inr, arith, suc, find,
  Option-cases,
}
use secunda_homework.Entity.Rows.{Task, TeamMember}
use secunda_homework.Store.State.{Db, World, Env, db, other, not_found, forbidden}
use secunda_homework.Store.Monad.{Result, ok, err, ◌>>=◌}
use secunda_homework.Store.Calls.{query}
use secunda_homework.Repository.Rows.{wrap}
use secunda_homework.Repository.Teams.{is_member, get_member}
use secunda_homework.Repository.Tasks.{has_id, find_task}
use secunda_homework.Service.Access.{not_found_as, require_member, visible_task}

abbrev pub member_or_refused : {A : Type 0} → A → Option TeamMember → Result A
member_or_refused a none = err forbidden
member_or_refused a (some m) = ok a

abbrev pub task_or_missing : Db → ℕ → Option Task → Result Task
task_or_missing d caller_id none = err not_found
task_or_missing d caller_id (some t) =
    member_or_refused t (find (is_member t.team_id caller_id) d.members)

-- The decision on the tables alone: a task that is not there is not found, one of a team that the
-- caller is not in is forbidden, any other is given.
abbrev pub access : Db → ℕ → ℕ → Result Task
access d caller_id task_id = task_or_missing d caller_id (find (has_id task_id) d.tasks)

access-ok :
    (d : Db) (caller_id task_id : ℕ) {t : Task}
    → access d caller_id task_id ≡ ok t
    → (find (has_id task_id) d.tasks ≡ some t)
      × ((m : TeamMember) × (find (is_member t.team_id caller_id) d.members ≡ some m))
access-ok d caller_id task_id {t} h = elim (Option-cases (find (has_id task_id) d.tasks)) [
  | inl missing ↦ ground arith
  | inr (old, found) ↦ elim (Option-cases (find (is_member old.team_id caller_id) d.members)) [
    | inl stranger ↦ ground arith
    | inr (m, member) ↦
        let same : old ≡ t = ground arith in (rw found (ap some same), (m, rw (← same) member))
  ]
]

module _ {R : Type 0} (env : Env) where
  pub require_member-ok :
      (team_id caller_id : ℕ) (w : World R) {m : TeamMember}
      → (require_member env team_id caller_id w).0 ≡ ok m
      → find (is_member team_id caller_id) w.db.members ≡ some m
  unfolding require_member get_member query wrap not_found_as
  require_member-ok team_id caller_id w h = ground arith

  -- Whatever calls fail, looking up a task for a caller gives what the decision on the tables says,
  -- or the error of a failed call, and then one of its two calls of the driver has failed.
  pub visible_task-decides :
      (caller_id task_id : ℕ) (w : World R)
      → ((visible_task env caller_id task_id w).0 ≡ access w.db caller_id task_id)
        ⊎ ((env.db_fails w.step || env.db_fails (suc w.step) ≡ true)
            × ((visible_task env caller_id task_id w).0 ≡ err (db other)))
  unfolding visible_task find_task require_member get_member query wrap not_found_as ◌>>=◌
  visible_task-decides caller_id task_id w = ground arith

  -- While no call of the driver fails, the calls that look up a task for a caller answer as the
  -- decision on the tables does: not found without the task, forbidden without a membership of its
  -- team, and else the task.
  pub visible_task-access :
      (caller_id task_id : ℕ) (w : World R)
      → ((n : ℕ) → env.db_fails n ≡ false)
      → (visible_task env caller_id task_id w).0 ≡ access w.db caller_id task_id
  unfolding visible_task find_task require_member get_member query wrap not_found_as ◌>>=◌
  visible_task-access caller_id task_id w h = ground (arith, h w.step, h (suc w.step))

  -- What a success shows.
  pub visible_task-ok :
      (caller_id task_id : ℕ) (w : World R) {t : Task}
      → (visible_task env caller_id task_id w).0 ≡ ok t
      → (find (has_id task_id) w.db.tasks ≡ some t)
        × ((m : TeamMember) × (find (is_member t.team_id caller_id) w.db.members ≡ some m))
  visible_task-ok caller_id task_id w h = elim (visible_task-decides caller_id task_id w) [
    | inl decided ↦ access-ok w.db caller_id task_id (sym decided ∙ h)
    | inr (failed, result) ↦ cc
  ]
