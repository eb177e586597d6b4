-- ===== src/Authority/Acts.antt =====
-- Each operation of internal/service that a user may call, as one step.
use secunda_homework.Base.{
  ℕ, Bool, true, false, not, ◌&&◌, ◌||◌, ◌≡◌, refl, Option, none, some, List, [], ◌∷◌, ◌++◌, All,
  All-append, map, inl, inr, suc, is_some,
}
use secunda_homework.Text.{Bytes, codes, beq}
use secunda_homework.Entity.Rows.{Task, TaskHistory}
use secunda_homework.Dto.Requests.{
  CreateTeamRequest, InviteRequest, CreateTaskRequest, UpdateTaskRequest, CreateCommentRequest,
}
use secunda_homework.Cache.{Cache}
use secunda_homework.Store.State.{World, Env}
use secunda_homework.Store.Monad.{M, Result, ok, err}
use secunda_homework.Store.Effects.{Reads}
use secunda_homework.Store.Triples.{Triple-holds}
use secunda_homework.Repository.Tasks.{TaskPatch}
use secunda_homework.Repository.History.{history_row}
use secunda_homework.Repository.History.Laws.{numbered}
use secunda_homework.Service.Audit.{build_history_entries, listed_if, text_differs, shown_id}
use secunda_homework.Service.Tasks
use secunda_homework.Service.Tasks.Effects.{update_atomic}
use secunda_homework.Service.Tasks.Update.{update-IsUpdated}
use secunda_homework.Service.Teams
use secunda_homework.Service.Teams.Laws.{invite_atomic, invite-IsInvited}
use secunda_homework.Service.Comments
use secunda_homework.Authority.{IsEntryOf, Step, stay, invite, change_task}
use secunda_homework.Authority.Services.{
  create-Stepped, delete-Stepped, post-Stepped, found-Stepped,
}

-- One step of a user, whether it returns or fails.
pub record Acts {R A : Type 0} (uid : ℕ) (m : M R A) : Type 0 where
  pub steps : (w : World R) → Step uid w.db w.seq (m w).1.db

pub Acts-Reads : {R A : Type 0} (uid : ℕ) (m : M R A) → Reads m → Acts uid m
Acts-Reads uid m r = record { steps = λ w. rw (r.same w) stay }

-- The entries of an update are of its task and by its actor.
listed_if-IsEntryOf :
    (task_id uid : ℕ) (b : Bool) (h : TaskHistory)
    → IsEntryOf task_id uid h
    → All (IsEntryOf task_id uid) (listed_if b h)
listed_if-IsEntryOf task_id uid true h e = (e, tt)
listed_if-IsEntryOf task_id uid false h e = tt

four-IsEntryOf :
    (task_id uid : ℕ) (b c d e : Bool) (h i j k : TaskHistory)
    → IsEntryOf task_id uid h
    → IsEntryOf task_id uid i
    → IsEntryOf task_id uid j
    → IsEntryOf task_id uid k
    → All
        (IsEntryOf task_id uid)
        (listed_if b h ++ (listed_if c i ++ (listed_if d j ++ listed_if e k)))
four-IsEntryOf task_id uid b c d e h i j k p q r s =
    let P = IsEntryOf task_id uid in
    All-append P (listed_if b h) _ (listed_if-IsEntryOf task_id uid b h p) (
      All-append P (listed_if c i) _ (listed_if-IsEntryOf task_id uid c i q) (
        All-append P (listed_if d j) (listed_if e k) (listed_if-IsEntryOf task_id uid d j r)
          (listed_if-IsEntryOf task_id uid e k s)))

build_history_entries-IsEntryOf :
    (task_id uid at : ℕ) (old new : Task) (p : TaskPatch)
    → All (IsEntryOf task_id uid) (build_history_entries task_id uid at old new p)
unfolding build_history_entries
build_history_entries-IsEntryOf task_id uid at old new p =
    let entry : Bytes → Option Bytes → Option Bytes → TaskHistory = λ field before after. record {
      id = 0;
      task_id = task_id;
      changed_by = uid;
      field = field;
      old_value = before;
      new_value = after;
      changed_at = at;
    } in
    four-IsEntryOf task_id uid (is_some p.title && not (beq old.title new.title))
      (is_some p.description && text_differs old.description new.description)
      (is_some p.status && not (beq old.status new.status))
      (is_some p.assignee_id || p.clear_assignee)
      (entry (codes "title") (some old.title) (some new.title))
      (entry (codes "description") old.description new.description)
      (entry (codes "status") (some old.status) (some new.status))
      (entry (codes "assignee_id") (shown_id old.assignee_id) (shown_id new.assignee_id))
      (refl, refl) (refl, refl) (refl, refl) (refl, refl)

numbered-IsEntryOf :
    (task_id uid n : ℕ) (column_time : ℕ → ℕ) (hs : List TaskHistory)
    → All (IsEntryOf task_id uid) hs
    → All (IsEntryOf task_id uid) (numbered n (map (history_row column_time) hs))
numbered-IsEntryOf task_id uid n column_time [] h = tt
numbered-IsEntryOf task_id uid n column_time (x ∷ xs) h =
    (h.0, numbered-IsEntryOf task_id uid (suc n) column_time xs h.1)

module _ {R : Type 0} (env : Env) (uid : ℕ) where
  invited :
      (team_id : ℕ) (req : InviteRequest) (w : World R) (r : Result (Unit {0}))
      → (Teams.invite env uid team_id req w).0 ≡ r
      → Step uid w.db w.seq (Teams.invite env uid team_id req w).1.db
  invited team_id req w (err e) h = rw (invite_atomic env uid team_id req w e h) stay
  invited team_id req w (ok x) h =
      let i = invite-IsInvited env uid team_id req w h in
      rw i.rows (invite _ i.actor i.belongs i.may_invite i.is_new)

  pub Acts-invite :
      (team_id : ℕ) (req : InviteRequest) → Acts {R = R} uid (Teams.invite env uid team_id req)
  Acts-invite team_id req = record { steps = λ w. invited team_id req w _ refl }

  pub Acts-found : (req : CreateTeamRequest) → Acts {R = R} uid (Teams.create env uid req)
  Acts-found req = record {
    steps = λ w.
        Triple-holds _ (λ a d s h. h) (found-Stepped env none uid w.db w.seq req) w
          ((refl, refl), tt);
  }

  pub Acts-post :
      (task_id : ℕ) (req : CreateCommentRequest)
      → Acts {R = R} uid (Comments.create env uid task_id req)
  Acts-post task_id req = record {
    steps = λ w.
        Triple-holds _ (λ a d s h. h) (post-Stepped env none uid w.db w.seq task_id req) w
          ((refl, refl), tt);
  }

module _ {R : Type 0} (env : Env) (cache : Option (Cache R)) (uid : ℕ) where
  pub Acts-create : (req : CreateTaskRequest) → Acts uid (Tasks.create env cache uid req)
  Acts-create req = record {
    steps = λ w.
        Triple-holds _ (λ a d s h. h) (create-Stepped env cache uid w.db w.seq req) w
          ((refl, refl), tt);
  }

  pub Acts-delete : (task_id : ℕ) → Acts uid (Tasks.delete env cache uid task_id)
  Acts-delete task_id = record {
    steps = λ w.
        Triple-holds _ (λ a d s h. h) (delete-Stepped env cache uid w.db w.seq task_id) w
          ((refl, refl), tt);
  }

  updated :
      (task_id : ℕ) (req : UpdateTaskRequest) (w : World R) (r : Result Task)
      → (Tasks.update env cache uid task_id req w).0 ≡ r
      → Step uid w.db w.seq (Tasks.update env cache uid task_id req w).1.db
  updated task_id req w (err e) h = rw (update_atomic env cache uid task_id req w e h) stay
  updated task_id req w (ok u) h = elim (update-IsUpdated env cache uid task_id req w u h) [
    | inl i ↦ rw i.rows (
        change_task i.old i.member task_id i.row_time i.patch _ i.found i.belongs (
          numbered-IsEntryOf task_id uid _ env.column_time _
            (build_history_entries-IsEntryOf task_id uid i.at i.old u i.patch)))
    | inr (p, asked, same, seen) ↦ rw same stay
  ]

  pub Acts-update :
      (task_id : ℕ) (req : UpdateTaskRequest) → Acts uid (Tasks.update env cache uid task_id req)
  Acts-update task_id req = record { steps = λ w. updated task_id req w _ refl }
