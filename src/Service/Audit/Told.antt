-- ===== src/Service/Audit/Told.antt =====
-- What a request asks of a task's row and which entries of the history tell of it, described from
-- the request alone, for `buildHistoryEntries` of internal/service/task_service.go and the
-- statement of `UpdateTx` of internal/repository/task_repo.go.
use secunda_homework.Base.{
  ◌≢◌, ◌≡◌, ◌↔◌, Bool-cases, inl, inr, refl, sym, ap, ◌∙◌, arith, ℕ, zero, suc, Bool, true, false,
  not, ◌&&◌, ◌||◌, Option, none, some, List, [], ◌∷◌, ◌++◌, is_some,
}
use mathlib.Core.Path.{ap₂, subst}
use secunda_homework.Text.{Bytes, codes, beq, trim_space}
use secunda_homework.Text.Equality.{beq_iff}
use secunda_homework.Entity.TaskStatus.{TaskStatus}
use secunda_homework.Entity.Rows.{Task, TaskHistory}
use secunda_homework.Dto.Requests.{UpdateTaskRequest}
use secunda_homework.Repository.Tasks.{
  TaskPatch, apply_patch, assigned, new_description, new_assignee,
}
use secunda_homework.Service.Audit.{
  asked_assignee, asks_to_clear, text_differs, shown_id, listed_if, build_history_entries,
}
use secunda_homework.Service.Audit.Asked.{Means, trimmed}

abbrev asked_title : Option Bytes → Bytes → Bytes
asked_title none old = old
asked_title (some s) old = trim_space s

abbrev asked_description : Option Bytes → Option Bytes → Option Bytes
asked_description none old = old
asked_description (some s) old = some s

abbrev asked_status : Option TaskStatus → TaskStatus → TaskStatus
asked_status none old = old
asked_status (some s) old = s

-- The number 0 stands for nobody.
abbrev asked_owner : Option ℕ → Option ℕ → Option ℕ
asked_owner none old = old
asked_owner (some zero) old = none
asked_owner (some (suc k)) old = some (suc k)

-- A row with what a request asks for.
abbrev pub asked_row : UpdateTaskRequest → ℕ → Task → Task
asked_row req time t = record t {
  title = asked_title req.title t.title;
  description = asked_description req.description t.description;
  status = asked_status req.status t.status;
  assignee_id = asked_owner req.assignee_id t.assignee_id;
  updated_at = time;
}

-- One entry just when there is something to tell.
pub data Told (tells : Type 0) (entry : TaskHistory) : List TaskHistory → Type 0 where
  written : tells → Told tells entry (entry ∷ [])
  unwritten : ¬ tells → Told tells entry []

abbrev entry_of : (task_id actor_id at : ℕ) → Bytes → Option Bytes → Option Bytes → TaskHistory
entry_of task_id actor_id at field before after = record {
  id = 0;
  task_id = task_id;
  changed_by = actor_id;
  field = field;
  old_value = before;
  new_value = after;
  changed_at = at;
}

-- The entries of a change of a row from `old` to `new`.
pub record IsTold (req : UpdateTaskRequest) (task_id actor_id at : ℕ) (old new : Task)
    (entries : List TaskHistory) : Type 0 where
  pub titles : List TaskHistory
  pub descriptions : List TaskHistory
  pub statuses : List TaskHistory
  pub assignees : List TaskHistory
  pub parts : entries ≡ titles ++ (descriptions ++ (statuses ++ assignees))
  pub title :
      Told
        ((req.title ≢ none) × (old.title ≢ new.title))
        (entry_of task_id actor_id at (codes "title") (some old.title) (some new.title))
        titles
  pub description :
      Told
        ((req.description ≢ none)
          × ((s : Bytes) → old.description ≡ some s → new.description ≢ some s))
        (entry_of task_id actor_id at (codes "description") old.description new.description)
        descriptions
  pub status :
      Told
        ((req.status ≢ none) × (old.status ≢ new.status))
        (entry_of task_id actor_id at (codes "status") (some old.status) (some new.status))
        statuses
  pub assignee :
      Told
        (req.assignee_id ≢ none)
        (entry_of task_id actor_id at
          (codes "assignee_id")
          (shown_id old.assignee_id)
          (shown_id new.assignee_id))
        assignees

listed_if-Told :
    {P : Type 0} (b : Bool) (h : TaskHistory)
    → (b ≡ true → P)
    → (P → b ≡ true)
    → Told P h (listed_if b h)
listed_if-Told true h f g = written (f refl)
listed_if-Told false h f g = unwritten (λ p. ground (arith, g p))

asked_title-assigned : (o : Option Bytes) (t : Bytes) → assigned (trimmed o) t ≡ asked_title o t
asked_title-assigned none t = refl
asked_title-assigned (some s) t = refl

asked_status-assigned : (o : Option TaskStatus) (t : TaskStatus) → assigned o t ≡ asked_status o t
asked_status-assigned none t = refl
asked_status-assigned (some s) t = refl

asked_description-new : (o t : Option Bytes) → new_description o t ≡ asked_description o t
asked_description-new none t = refl
asked_description-new (some s) t = refl

asked_owner-new :
    (o t : Option ℕ) → new_assignee (asks_to_clear o) (asked_assignee o) t ≡ asked_owner o t
asked_owner-new none t = refl
asked_owner-new (some zero) t = refl
asked_owner-new (some (suc k)) t = ground arith

pub apply_patch-asked :
    (req : UpdateTaskRequest) (p : TaskPatch) (b : Bool) (time : ℕ) (t : Task)
    → Means req p b
    → apply_patch p time t ≡ asked_row req time t
unfolding apply_patch
apply_patch-asked req p b time t m = rw (
  m.title,
  m.description,
  m.status,
  m.assignee_id,
  m.clears,
  asked_title-assigned req.title t.title,
  asked_status-assigned req.status t.status,
  asked_description-new req.description t.description,
  asked_owner-new req.assignee_id t.assignee_id,
)

some-given : {A : Type 0} (o : Option A) → (is_some o ≡ true) ↔ (o ≢ none)
some-given none = (λ h. ground (arith, h), λ h. absurd (h refl))
some-given (some a) = (λ _ e. cc, λ _. refl)

trimmed-given : (o : Option Bytes) → is_some (trimmed o) ≡ is_some o
trimmed-given none = refl
trimmed-given (some s) = refl

assignee-given : (o : Option ℕ) → (is_some (asked_assignee o) || asks_to_clear o) ≡ is_some o
assignee-given none = refl
assignee-given (some zero) = refl
assignee-given (some (suc k)) = ground arith

and_differs :
    (b : Bool) (s t : Bytes) {P : Type 0}
    → (b ≡ true) ↔ P
    → ((b && not (beq s t)) ≡ true) ↔ (P × (s ≢ t))
and_differs b s t f = (
  λ h. (f.0 (ground (arith, h)), λ e. ground (arith, h, (beq_iff s t).1 e)),
  λ g. elim (Bool-cases (beq s t)) [
    | inl same ↦ absurd (g.1 ((beq_iff s t).0 same))
    | inr differs ↦ ground (arith, f.1 g.0, differs)
  ],
)

text_differs_iff :
    (s t : Option Bytes) → (text_differs s t ≡ true) ↔ ((x : Bytes) → s ≡ some x → t ≢ some x)
text_differs_iff none t = (λ h x e. cc, λ f. refl)
text_differs_iff (some s) none = (λ h x e g. cc, λ f. refl)
text_differs_iff (some s) (some t) = (
  λ h x e g. ground (arith, h, (beq_iff s t).1 (ground (arith, e, g))),
  λ f. elim (Bool-cases (beq s t)) [
    | inl same ↦ absurd (f s refl (sym (ap some ((beq_iff s t).0 same))))
    | inr differs ↦ ground (arith, differs)
  ],
)

pub build_history_entries-IsTold :
    (req : UpdateTaskRequest) (p : TaskPatch) (b : Bool) (task_id actor_id at : ℕ) (old new : Task)
    → Means req p b
    → IsTold req task_id actor_id at old new (build_history_entries task_id actor_id at old new p)
unfolding build_history_entries
build_history_entries-IsTold req p b task_id actor_id at old new m =
    let title = and_differs (is_some p.title) old.title new.title (
      subst (λ v. (v ≡ true) ↔ (req.title ≢ none))
        (sym (ap is_some m.title ∙ trimmed-given req.title)) (some-given req.title)) in
    let status = and_differs (is_some p.status) old.status new.status (
      subst (λ v. (is_some v ≡ true) ↔ (req.status ≢ none)) (sym m.status)
        (some-given req.status)) in
    let differs = text_differs_iff old.description new.description in
    let described : (is_some p.description ≡ true) ↔ (req.description ≢ none) =
      subst (λ v. (is_some v ≡ true) ↔ (req.description ≢ none)) (sym m.description)
        (some-given req.description) in
    let assigned_ : ((is_some p.assignee_id || p.clear_assignee) ≡ true)
        ↔ (req.assignee_id ≢ none) =
      subst (λ v. (v ≡ true) ↔ (req.assignee_id ≢ none))
        (sym (ap₂ (λ o c. is_some o || c) m.assignee_id m.clears ∙ assignee-given req.assignee_id))
        (some-given req.assignee_id) in
    record {
      titles = _;
      descriptions = _;
      statuses = _;
      assignees = _;
      parts = refl;
      title = listed_if-Told _ _ title.0 title.1;
      description =
          listed_if-Told (is_some p.description && text_differs old.description new.description) _
            (λ h. (described.0 (ground (arith, h)), differs.0 (ground (arith, h))))
            (λ g. ground (arith, described.1 g.0, differs.1 g.1));
      status = listed_if-Told _ _ status.0 status.1;
      assignee = listed_if-Told _ _ assigned_.0 assigned_.1;
    }
