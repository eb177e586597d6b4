-- ===== src/Invariant/Entries.antt =====
-- The last values in the entries that an update writes.
use secunda_homework.Base.{
  ℕ, Bool, true, false, not, ◌&&◌, Option, none, some, ◌++◌, ◌≡◌, ◌∙◌, arith, if◌then◌else◌, ◌==◌,
  ==_refl, is_some,
}
use secunda_homework.Text.{Bytes, codes, beq}
use secunda_homework.Entity.Rows.{Task, TaskHistory}
use secunda_homework.Repository.Tasks.{TaskPatch}
use secunda_homework.Service.Audit.{build_history_entries, listed_if}
use secunda_homework.Invariant.Trail.{last_value, last_value-append, later, later-none}

-- What a list of one entry or none gives.
abbrev listed_value : Bytes → ℕ → Bool → TaskHistory → Option (Option Bytes)
listed_value field id b h =
    if h.task_id == id && beq h.field field && b then some h.new_value else none

last_value-listed :
    (field : Bytes) (id : ℕ) (b : Bool) (h : TaskHistory)
    → last_value field id (listed_if b h) ≡ listed_value field id b h
unfolding last_value
last_value-listed field id true h = ground arith
last_value-listed field id false h = ground arith

last_value_four :
    (field : Bytes) (id : ℕ) (b c d e : Bool) (h i j k : TaskHistory)
    → last_value field id (listed_if b h ++ (listed_if c i ++ (listed_if d j ++ listed_if e k)))
      ≡ later
          (later
            (later (listed_value field id e k) (listed_value field id d j))
            (listed_value field id c i))
          (listed_value field id b h)
last_value_four field id b c d e h i j k = rw (
  last_value-append field id (listed_if b h) _,
  last_value-append field id (listed_if c i) _,
  last_value-append field id (listed_if d j) _,
  last_value-listed field id b h,
  last_value-listed field id c i,
  last_value-listed field id d j,
  last_value-listed field id e k,
)

module _ (id actor_id at : ℕ) (old new : Task) (p : TaskPatch) where
  pub last_value-title :
      last_value (codes "title") id (build_history_entries id actor_id at old new p)
      ≡ (if is_some p.title && not (beq old.title new.title) then some (some new.title) else none)
  unfolding build_history_entries beq
  last_value-title = rw (last_value_four, ==_refl id)

  pub last_value-status :
      last_value (codes "status") id (build_history_entries id actor_id at old new p) ≡ (
        if is_some p.status && not (beq old.status new.status)
        then some (some new.status)
        else none)
  unfolding build_history_entries beq
  last_value-status = rw (last_value_four, ==_refl id) (later-none _ ∙ later-none _)

  -- The entries are of one task.
  pub last_value-others :
      (field : Bytes) (other : ℕ)
      → id == other ≡ false
      → last_value field other (build_history_entries id actor_id at old new p) ≡ none
  unfolding build_history_entries
  last_value-others field other e = rw (last_value_four, e)
