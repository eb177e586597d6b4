-- ===== src/Service/Audit/Laws.antt =====
-- The patch and the history entries.
use secunda_homework.Base.{true, false, some, ◌≡◌, arith, inl, inr, Option-cases}
use secunda_homework.Dto.Requests.{UpdateTaskRequest}
use secunda_homework.Repository.Tasks.{TaskPatch, is_empty_patch}
use secunda_homework.Service.Audit.{build_patch_rich, checked_title, checked_status}

-- A patch that is said to have changes is not empty.
pub build_patch-full :
    (req : UpdateTaskRequest) (p : TaskPatch)
    → build_patch_rich req ≡ some (p, true)
    → is_empty_patch p ≡ false
unfolding build_patch_rich is_empty_patch
build_patch-full req p h = elim (Option-cases (checked_title req.title)) [
  | inl refused ↦ ground arith
  | inr (title, fine) ↦ elim (Option-cases (checked_status req.status)) [
    | inl refused ↦ ground arith
    | inr (status, good) ↦ ground arith
  ]
]
