-- ===== src/Invariant/Updates.antt =====
-- The update of a task (`Update` of internal/service/task_service.go) and the soundness of the
-- tables.
use secunda_homework.Base.{
  ℕ, Bool, true, false, ◌||◌, Option, none, some, List, [], ◌∷◌, ◌≡◌, refl, arith, ltb, length, inl,
  inr, Option-cases, Bool-cases,
}
use secunda_homework.Text.{Bytes, is_empty, trim_space}
use secunda_homework.Entity.TaskStatus.{TaskStatus}
use secunda_homework.Entity.Rows.{Task, TaskHistory}
use secunda_homework.Dto.Requests.{UpdateTaskRequest}
use secunda_homework.Cache.{Cache}
use secunda_homework.Store.State.{Env}
use secunda_homework.Store.Effects.{
  Reads, Reads-pure, Reads-throw, Reads-now, Reads-query, Reads-check_result, Reads-reject,
}
use secunda_homework.Store.Keeps.{
  Keeps, Keeps-Reads, Keeps-bind, Keeps-within_tx, Keeps-if, Keeps-exec,
}
use secunda_homework.Repository.Tasks.{
  TaskPatch, find_task_with, write_patch, update_task_tx, is_empty_patch, check_updated,
}
use secunda_homework.Repository.History.{insert_history_tx}
use secunda_homework.Service.Tasks.Effects.{Reads-visible_task, Reads-get}
use secunda_homework.Service.Audit.{build_patch_rich, checked_title, checked_status}
use secunda_homework.Service.Tasks.{
  change, patched, update as update_task, update_and_record, record_changes, insert_entries,
}
use secunda_homework.Invariant.{IsSound}
use secunda_homework.Invariant.Statements.{IsSound-mono}
use secunda_homework.Invariant.Services.{checked-IsText, Reads-dropped}
use secunda_homework.Invariant.Tasks.{IsPatch, IsPatchTitle, IsPatchStatus, Writes-update_task}
use secunda_homework.Invariant.Inserts.{Writes-insert_history}

checked_title-IsPatchTitle :
    (o title : Option Bytes) → checked_title o ≡ some title → IsPatchTitle title
checked_title-IsPatchTitle o none h = tt
checked_title-IsPatchTitle none (some s) h = cc
checked_title-IsPatchTitle (some t) (some s) h =
    elim (Bool-cases (is_empty (trim_space t) || ltb 255 (length (trim_space t)))) [
      | inl bad ↦ absurd (ground arith)
      | inr fits ↦
          let same : trim_space t ≡ s = ground arith in rw (← same) (checked-IsText 255 t fits)
    ]

checked_status-IsPatchStatus :
    (o status : Option TaskStatus) → checked_status o ≡ some status → IsPatchStatus status
checked_status-IsPatchStatus o none h = tt
checked_status-IsPatchStatus none (some s) h = cc
checked_status-IsPatchStatus (some t) (some s) h = ground arith

build_patch_rich-IsPatch :
    (req : UpdateTaskRequest) (p : TaskPatch) (changes : Bool)
    → build_patch_rich req ≡ some (p, changes)
    → IsPatch p
unfolding build_patch_rich
build_patch_rich-IsPatch req p changes h = elim (Option-cases (checked_title req.title)) [
  | inl refused ↦ absurd (ground arith)
  | inr (title, fine) ↦ elim (Option-cases (checked_status req.status)) [
    | inl refused ↦ absurd (ground arith)
    | inr (status, good) ↦
        let same_title : title ≡ p.title = ground arith in
        let same_status : status ≡ p.status = ground arith in
        (
          rw (← same_title) (checked_title-IsPatchTitle req.title title fine),
          rw (← same_status) (checked_status-IsPatchStatus req.status status good),
        )
  ]
]

module _ {R : Type 0} (env : Env) where
  pub Keeps-insert_history_tx :
      (h : TaskHistory) → Keeps (IsSound env) (insert_history_tx {R = R} env h)
  unfolding insert_history_tx
  Keeps-insert_history_tx r =
      Keeps-exec (IsSound env) env _ (λ at d s h. Writes-insert_history env _ at d s h)

  Reads-check_updated :
      (changed : Bool) (found : Option Task) → Reads {R = R} (check_updated changed found)
  unfolding check_updated
  Reads-check_updated changed none = Reads-throw _
  Reads-check_updated changed (some t) = Reads-reject _ _ _ (Reads-pure (some t))

  Reads-find_task_with : (id : ℕ) → Reads {R = R} (find_task_with env id)
  unfolding find_task_with
  Reads-find_task_with id = Reads-query env _

  Keeps-write_patch :
      (id : ℕ) (p : TaskPatch) → IsPatch p → Keeps (IsSound env) (write_patch {R = R} env id p)
  unfolding write_patch
  Keeps-write_patch id p good =
      Keeps-bind _ _
        (Keeps-exec (IsSound env) env _ (λ at d s h. Writes-update_task env id p at d s good h))
        (λ changed. Keeps-bind _ _ (Keeps-Reads _ (Reads-check_result env)) (λ x.
          Keeps-bind _ _ (Keeps-Reads _ (Reads-find_task_with id))
            (λ found. Keeps-Reads _ (Reads-check_updated changed found))))

  pub Keeps-update_task_tx :
      (id : ℕ) (p : TaskPatch) → IsPatch p → Keeps (IsSound env) (update_task_tx {R = R} env id p)
  unfolding update_task_tx
  Keeps-update_task_tx id p good =
      Keeps-if (is_empty_patch p) (find_task_with env id) (write_patch env id p)
        (λ e. Keeps-Reads _ (Reads-find_task_with id)) (λ e. Keeps-write_patch id p good)

  Keeps-insert_entries :
      (hs : List TaskHistory) → Keeps (IsSound env) (insert_entries {R = R} env hs)
  unfolding insert_entries
  Keeps-insert_entries [] = Keeps-Reads _ (Reads-pure tt)
  Keeps-insert_entries (h ∷ hs) =
      Keeps-bind _ _ (Keeps-insert_history_tx h) (λ x. Keeps-insert_entries hs)

  Keeps-record_changes :
      (task_id actor_id at : ℕ) (old : Task) (p : TaskPatch) (new : Option Task)
      → Keeps (IsSound env) (record_changes {R = R} env task_id actor_id at old p new)
  unfolding record_changes
  Keeps-record_changes task_id actor_id at old p none = Keeps-Reads _ (Reads-throw _)
  Keeps-record_changes task_id actor_id at old p (some new) =
      Keeps-bind _ _ (Keeps-insert_entries _) (λ x. Keeps-Reads _ (Reads-pure new))

  Keeps-update_and_record :
      (task_id actor_id at : ℕ) (old : Task) (p : TaskPatch)
      → IsPatch p
      → Keeps (IsSound env) (update_and_record {R = R} env task_id actor_id at old p)
  unfolding update_and_record
  Keeps-update_and_record task_id actor_id at old p good =
      Keeps-bind _ _ (Keeps-update_task_tx task_id p good)
        (λ new. Keeps-record_changes task_id actor_id at old p new)

module _ {R : Type 0} (env : Env) (cache : Option (Cache R)) where
  Keeps-change :
      (actor_id task_id : ℕ) (p : TaskPatch)
      → IsPatch p
      → Keeps (IsSound env) (change env cache actor_id task_id p)
  unfolding change
  Keeps-change actor_id task_id p good =
      Keeps-bind _ _ (Keeps-Reads _ (Reads-visible_task env actor_id task_id)) (λ old.
        Keeps-bind _ _ (Keeps-Reads _ (Reads-now env)) (λ at.
          Keeps-bind _ _
            (Keeps-within_tx (IsSound env) env _ (IsSound-mono env)
              (Keeps-update_and_record env task_id actor_id at old p good))
            (λ u.
              Keeps-bind _ _ (Keeps-Reads _ (Reads-dropped cache old.team_id))
                (λ x. Keeps-Reads _ (Reads-pure u)))))

  Keeps-patched :
      (actor_id task_id : ℕ) (o : Option (TaskPatch × Bool))
      → ((p : TaskPatch) (changes : Bool) → o ≡ some (p, changes) → IsPatch p)
      → Keeps (IsSound env) (patched env cache actor_id task_id o)
  Keeps-patched actor_id task_id none good = Keeps-Reads _ (Reads-throw _)
  Keeps-patched actor_id task_id (some (p, true)) good =
      Keeps-change actor_id task_id p (good p true refl)
  Keeps-patched actor_id task_id (some (p, false)) good =
      Keeps-Reads _ (Reads-get env cache actor_id task_id)

  pub Keeps-update_task :
      (actor_id task_id : ℕ) (req : UpdateTaskRequest)
      → Keeps (IsSound env) (update_task env cache actor_id task_id req)
  unfolding update_task
  Keeps-update_task actor_id task_id req =
      Keeps-patched actor_id task_id (build_patch_rich req)
        (λ p changes h. build_patch_rich-IsPatch req p changes h)
