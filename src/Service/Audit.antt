-- ===== src/Service/Audit.antt =====
-- The helpers of internal/service/task_service.go: the patch that a request asks for, and the
-- entries of the history for the fields that changed.
pub mod Laws
pub mod Asked
pub mod Told
use secunda_homework.Base.{
  ℕ, Bool, true, false, not, ◌&&◌, ◌||◌, Option, none, some, List, [], ◌∷◌, ◌++◌, if◌then◌else◌,
  ltb, ◌==◌, length, is_some, is_none,
}
use secunda_homework.Text.{Bytes, codes, beq, is_empty, trim_space, format_uint}
use secunda_homework.Entity.TaskStatus
use secunda_homework.Entity.TaskStatus.{TaskStatus}
use secunda_homework.Entity.Rows.{Task, TaskHistory}
use secunda_homework.Dto.Requests.{UpdateTaskRequest}
use secunda_homework.Repository.Tasks.{TaskPatch}

-- The title to write: `none` if it is refused, `some none` if there is none.
abbrev pub checked_title : Option Bytes → Option (Option Bytes)
checked_title none = some none
checked_title (some t) =
    let title = trim_space t in
    if is_empty title || ltb 255 (length title) then none else some (some title)

abbrev pub checked_status : Option TaskStatus → Option (Option TaskStatus)
checked_status none = some none
checked_status (some s) = if TaskStatus.is_valid s then some (some s) else none

-- The number 0 stands for nobody.
abbrev pub asked_assignee : Option ℕ → Option ℕ
asked_assignee none = none
asked_assignee (some id) = if id == 0 then none else some id

abbrev pub asks_to_clear : Option ℕ → Bool
asks_to_clear none = false
asks_to_clear (some id) = id == 0

abbrev pub patch_of :
    UpdateTaskRequest
    → Option (Option Bytes)
    → Option (Option TaskStatus)
    → Option (TaskPatch × Bool)
patch_of req none status = none
patch_of req (some title) none = none
patch_of req (some title) (some status) = some (
  record {
    title = title;
    description = req.description;
    status = status;
    assignee_id = asked_assignee req.assignee_id;
    clear_assignee = asks_to_clear req.assignee_id;
  },
  is_some title || (is_some req.description || (is_some status || is_some req.assignee_id)),
)

-- `buildPatchRich`: the patch, and whether it has any change; `none` if the request is invalid.
unfoldable pub build_patch_rich : UpdateTaskRequest → Option (TaskPatch × Bool)
build_patch_rich req = patch_of req (checked_title req.title) (checked_status req.status)

-- `*oldT.Description != *newT.Description`, or one of them is nil.
abbrev pub text_differs : Option Bytes → Option Bytes → Bool
text_differs none new = true
text_differs (some old) none = true
text_differs (some old) (some new) = not (beq old new)

abbrev pub shown_id : Option ℕ → Option Bytes
shown_id none = none
shown_id (some id) = some (format_uint id)

abbrev pub listed_if : {A : Type 0} → Bool → A → List A
listed_if true a = a ∷ []
listed_if false a = []

-- `buildHistoryEntries`.
unfoldable pub build_history_entries :
    (task_id actor_id now : ℕ) → Task → Task → TaskPatch → List TaskHistory
build_history_entries task_id actor_id now old new patch =
    let entry : Bytes → Option Bytes → Option Bytes → TaskHistory = λ field before after. record {
      id = 0;
      task_id = task_id;
      changed_by = actor_id;
      field = field;
      old_value = before;
      new_value = after;
      changed_at = now;
    } in
    listed_if (is_some patch.title && not (beq old.title new.title))
      (entry (codes "title") (some old.title) (some new.title))
    ++ (listed_if (is_some patch.description && text_differs old.description new.description)
          (entry (codes "description") old.description new.description)
        ++ (listed_if (is_some patch.status && not (beq old.status new.status))
              (entry (codes "status") (some old.status) (some new.status))
            ++ listed_if (is_some patch.assignee_id || patch.clear_assignee) (
                entry (codes "assignee_id") (shown_id old.assignee_id) (shown_id new.assignee_id))))
