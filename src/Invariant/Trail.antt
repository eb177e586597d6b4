-- ===== src/Invariant/Trail.antt =====
-- What it means that the history of a task tells its present: the last value that was written down
-- for the title or the status (internal/service/task_service.go).
use secunda_homework.Base.{
  ℕ, suc, true, false, ◌&&◌, Option, none, some, List, [], ◌∷◌, ◌++◌, map, ◌≡◌, refl, sym,
  if◌then◌else◌, any, find, All, ◌==◌, ==_iff, inl, inr, Bool-cases,
}
use secunda_homework.Text.{Bytes, codes, beq}
use secunda_homework.Entity.Rows.{User, Task, TaskHistory}
use secunda_homework.Store.State.{Db, Seq, Env}
use secunda_homework.Repository.Rows.{task_exists}
use secunda_homework.Repository.Tasks.{has_id}
use secunda_homework.Repository.History.{history_row}
use secunda_homework.Repository.History.Laws.{numbered}
use secunda_homework.Invariant.{IsHistoryRow, IsSound}

abbrev pub later : Option (Option Bytes) → Option (Option Bytes) → Option (Option Bytes)
later none o = o
later (some v) o = some v

-- The value of the last entry for a field of a task.
unfoldable pub last_value : Bytes → ℕ → List TaskHistory → Option (Option Bytes)
last_value field id [] = none
last_value field id (h ∷ hs) =
    later (last_value field id hs)
      (if h.task_id == id && beq h.field field then some h.new_value else none)

-- There is no such entry, or it has the value.
abbrev pub Shows : Option (Option Bytes) → Bytes → Type 0
Shows none v = Unit
Shows (some w) v = w ≡ some v

pub record Tells (history : List TaskHistory) (id : ℕ) (t : Task) : Type 0 where
  pub title : Shows (last_value (codes "title") id history) t.title
  pub status : Shows (last_value (codes "status") id history) t.status

-- So it is for every task.
abbrev pub Audited : List Task → List TaskHistory → Type 0
Audited tasks history = (id : ℕ) (t : Task) → find (has_id id) tasks ≡ some t → Tells history id t

abbrev pub IsAudited : Env → Db → Seq → Type 0
IsAudited env d s = IsSound env d s × Audited d.tasks d.history

pub later-none : (a : Option (Option Bytes)) → later a none ≡ a
later-none none = refl
later-none (some v) = refl

later_assoc : (a b c : Option (Option Bytes)) → later (later a b) c ≡ later a (later b c)
later_assoc none b c = refl
later_assoc (some v) b c = refl

pub last_value-append :
    (field : Bytes) (id : ℕ) (xs ys : List TaskHistory)
    → last_value field id (xs ++ ys) ≡ later (last_value field id ys) (last_value field id xs)
unfolding last_value
last_value-append field id [] ys = sym (later-none (last_value field id ys))
last_value-append field id (x ∷ xs) ys =
    rw (last_value-append field id xs ys) (later_assoc (last_value field id ys) _ _)

-- The keys and the rounding of times do not matter.
pub last_value-numbered :
    (field : Bytes) (id n : ℕ) (column_time : ℕ → ℕ) (hs : List TaskHistory)
    → last_value field id (numbered n (map (history_row column_time) hs)) ≡ last_value field id hs
unfolding last_value
last_value-numbered field id n column_time [] = refl
last_value-numbered field id n column_time (h ∷ hs) =
    rw (last_value-numbered field id (suc n) column_time hs)

-- A key that no task has is in no entry.
pub last_value-missing :
    (field : Bytes) (n : ℕ) (users : List User) (tasks : List Task) (hs : List TaskHistory)
    → any (λ t. t.id == n) tasks ≡ false
    → All (IsHistoryRow users tasks) hs
    → last_value field n hs ≡ none
unfolding last_value task_exists
last_value-missing field n users tasks [] new h = refl
last_value-missing field n users tasks (r ∷ rs) new h = elim (Bool-cases (r.task_id == n)) [
  | inl same ↦
      let key = (==_iff r.task_id n).0 same in
      let there : any (λ t. t.id == n) tasks ≡ true = rw (← key) h.0.0 in cc
  | inr other ↦ rw (other, last_value-missing field n users tasks rs new h.1)
]
