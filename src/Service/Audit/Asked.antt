-- ===== src/Service/Audit/Asked.antt =====
-- What `buildPatchRich` of internal/service/task_service.go makes of a request, and what
-- `buildHistoryEntries` makes of a change.
use secunda_homework.Base.{◌≡◌, refl, arith, Bool, ◌||◌, Option, none, some, is_some}
use secunda_homework.Text.{Bytes, trim_space}
use secunda_homework.Entity.TaskStatus.{TaskStatus}
use secunda_homework.Dto.Requests.{UpdateTaskRequest}
use secunda_homework.Repository.Tasks.{TaskPatch}
use secunda_homework.Service.Audit.{
  checked_title, checked_status, asked_assignee, asks_to_clear, patch_of, build_patch_rich,
}

abbrev pub trimmed : Option Bytes → Option Bytes
trimmed none = none
trimmed (some s) = some (trim_space s)

-- The patch of a request that is accepted.
pub record Means (req : UpdateTaskRequest) (p : TaskPatch) (has_changes : Bool) : Type 0 where
  pub title : p.title ≡ trimmed req.title
  pub description : p.description ≡ req.description
  pub status : p.status ≡ req.status
  pub assignee_id : p.assignee_id ≡ asked_assignee req.assignee_id
  pub clears : p.clear_assignee ≡ asks_to_clear req.assignee_id
  pub changes :
      has_changes
      ≡ is_some req.title
        || (is_some req.description || (is_some req.status || is_some req.assignee_id))

checked_title-ok :
    (o t : Option Bytes) → checked_title o ≡ some t → (t ≡ trimmed o) × (is_some t ≡ is_some o)
checked_title-ok none t h = (cc, ground arith)
checked_title-ok (some s) t h = (ground arith, ground arith)

checked_status-ok : (o s : Option TaskStatus) → checked_status o ≡ some s → s ≡ o
checked_status-ok none s h = cc
checked_status-ok (some x) s h = ground arith

patch_of-Means :
    (req : UpdateTaskRequest) (t : Option (Option Bytes)) (s : Option (Option TaskStatus))
    (p : TaskPatch) (b : Bool)
    → checked_title req.title ≡ t
    → checked_status req.status ≡ s
    → patch_of req t s ≡ some (p, b)
    → Means req p b
patch_of-Means req none s p b ht hs h = cc
patch_of-Means req (some t) none p b ht hs h = cc
patch_of-Means req (some t) (some s) p b ht hs h =
    let title = checked_title-ok req.title t ht in
    let status = checked_status-ok req.status s hs in
    record {
      title = ground (arith, title.0);
      description = ground arith;
      status = ground (arith, status);
      assignee_id = ground arith;
      clears = ground arith;
      changes = ground (arith, title.1, status);
    }

pub build_patch_rich-Means :
    (req : UpdateTaskRequest) (p : TaskPatch) (b : Bool)
    → build_patch_rich req ≡ some (p, b)
    → Means req p b
unfolding build_patch_rich
build_patch_rich-Means req p b h = patch_of-Means req _ _ p b refl refl h
