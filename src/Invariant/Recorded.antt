-- ===== src/Invariant/Recorded.antt =====
-- The update of a task (`Update` of internal/service/task_service.go) and the trail of changes.
use secunda_homework.Base.{
  ℕ, Bool, true, false, not, ◌&&◌, Option, none, some, List, ◌++◌, map, ◌≡◌, refl, sym, ap, ◌∙◌,
  ◌⊎◌, inl, inr, arith, if◌then◌else◌, find, find-true, update, ◌==◌, ==_iff, is_some, Bool-cases,
}
use secunda_homework.Text.{Bytes, codes, beq}
use secunda_homework.Text.Equality.{beq_iff}
use secunda_homework.Entity.Rows.{Task, TaskHistory}
use secunda_homework.Dto.Requests.{UpdateTaskRequest}
use secunda_homework.Cache.{Cache}
use secunda_homework.Store.State.{Db, World, Env}
use secunda_homework.Store.Monad.{Result, ok, err}
use secunda_homework.Store.Keeps.{Keeps}
use secunda_homework.Repository.Tasks.{TaskPatch, has_id, is_live_with, apply_patch, assigned}
use secunda_homework.Repository.History.{history_row}
use secunda_homework.Repository.History.Laws.{numbered}
use secunda_homework.Service.Audit.{build_history_entries}
use secunda_homework.Service.Tasks.{update as update_service}
use secunda_homework.Service.Tasks.Effects.{update_atomic}
use secunda_homework.Service.Tasks.Update.{IsUpdated, update-IsUpdated}
use secunda_homework.Invariant.Updates.{Keeps-update_task}
use secunda_homework.Invariant.Trail.{
  Shows, Tells, Audited, IsAudited, later, last_value, last_value-append, last_value-numbered,
}
use secunda_homework.Invariant.Entries.{last_value-title, last_value-status, last_value-others}
use secunda_homework.Invariant.Audit.{find-updated}

Shows-later :
    (b : Bool) (o : Option (Option Bytes)) (old new : Bytes)
    → Shows o old
    → (b ≡ false → new ≡ old)
    → Shows (later (if b then some (some new) else none) o) new
Shows-later true o old new h k = refl
Shows-later false o old new h k = rw (k refl) h

-- A text that is not written down is as it was.
assigned_kept :
    (asked : Option Bytes) (old new : Bytes)
    → (new ≡ assigned asked old) ⊎ (new ≡ old)
    → is_some asked && not (beq old new) ≡ false
    → new ≡ old
assigned_kept none old new (inl h) k = h
assigned_kept (some s) old new (inl h) k = sym ((beq_iff old new).0 (ground arith))
assigned_kept asked old new (inr h) k = h

module _ (column_time : ℕ → ℕ) (id actor_id time n : ℕ) (old u : Task) (p : TaskPatch)
    (hs : List TaskHistory) where
  abbrev entries : List TaskHistory
  entries = build_history_entries id actor_id time old u p

  abbrev written : List TaskHistory
  written = hs ++ numbered n (map (history_row column_time) entries)

  last_value-written :
      (field : Bytes) (j : ℕ)
      → last_value field j written ≡ later (last_value field j entries) (last_value field j hs)
  last_value-written field j =
      last_value-append field j hs _
      ∙ ap (λ o. later o (last_value field j hs))
          (last_value-numbered field j n column_time entries)

  Tells-others : (j : ℕ) (t : Task) → id == j ≡ false → Tells hs j t → Tells written j t
  Tells-others j t other h = record {
    title =
        rw
          (
            last_value-written (codes "title") j,
            last_value-others id actor_id time old u p (codes "title") j other,
          )
          h.title;
    status =
        rw
          (
            last_value-written (codes "status") j,
            last_value-others id actor_id time old u p (codes "status") j other,
          )
          h.status;
  }

  -- The row is patched, or it is dead and stays.
  Tells-patched :
      (row_time : ℕ)
      → u ≡ (if is_live_with id old then apply_patch p row_time old else old)
      → Tells hs id old
      → Tells written id u
  unfolding apply_patch
  Tells-patched row_time e h =
      let title : (u.title ≡ assigned p.title old.title) ⊎ (u.title ≡ old.title) = ground arith in
      let status : (u.status ≡ assigned p.status old.status) ⊎ (u.status ≡ old.status) =
        ground arith in
      record {
        title =
            rw (last_value-written (codes "title") id, last_value-title id actor_id time old u p)
              (Shows-later _ _ old.title u.title h.title
                (assigned_kept p.title old.title u.title title));
        status =
            rw (last_value-written (codes "status") id, last_value-status id actor_id time old u p)
              (Shows-later _ _ old.status u.status h.status
                (assigned_kept p.status old.status u.status status));
      }

  Audited-patched :
      (row_time : ℕ) (tasks : List Task)
      → find (has_id id) tasks ≡ some old
      → find (has_id id) (update (is_live_with id) (apply_patch p row_time) tasks) ≡ some u
      → Audited tasks hs
      → Audited (update (is_live_with id) (apply_patch p row_time) tasks) written
  unfolding apply_patch
  Audited-patched row_time tasks found returned h j t there = elim (Bool-cases (id == j)) [
    | inl same ↦
        let (x, (was, patched)) = find-updated (has_id id) _ _ tasks u (λ y. refl) returned in
        let here : old ≡ x = ground arith in
        let moved = rw (← (==_iff id j).0 same) at there in
        let this : t ≡ u = ground arith in
        rw (this, ← (==_iff id j).0 same)
          (Tells-patched row_time (rw here patched) (h id old found))
    | inr other ↦
        let (x, (was, patched)) = find-updated (has_id j) _ _ tasks t (λ y. refl) there in
        let key = find-true (has_id j) tasks was in
        let kept : t ≡ x = ground (arith, ==_iff id j, ==_iff x.id j, ==_iff x.id id) in
        Tells-others j t other (rw kept (h j x was))
  ]

module _ {R : Type 0} (env : Env) (cache : Option (Cache R)) where
  Audited-IsUpdated :
      (actor_id task_id n : ℕ) (req : UpdateTaskRequest) (d d' : Db) (u : Task)
      → IsUpdated env actor_id task_id req d n d' u
      → Audited d.tasks d.history
      → Audited d'.tasks d'.history
  Audited-IsUpdated actor_id task_id n req d d' u i h = rw i.rows (
      Audited-patched env.column_time task_id actor_id i.at n i.old u i.patch d.history i.row_time
        d.tasks i.found (rw i.rows at i.returned) h)

  Audited-update :
      (actor_id task_id : ℕ) (req : UpdateTaskRequest) (w : World R) (r : Result Task)
      → (update_service env cache actor_id task_id req w).0 ≡ r
      → Audited w.db.tasks w.db.history
      → Audited
          (update_service env cache actor_id task_id req w).1.db.tasks
          (update_service env cache actor_id task_id req w).1.db.history
  Audited-update actor_id task_id req w (err e) k h =
      rw (update_atomic env cache actor_id task_id req w e k) h
  Audited-update actor_id task_id req w (ok u) k h =
      elim (update-IsUpdated env cache actor_id task_id req w u k) [
        | inl updated ↦ Audited-IsUpdated actor_id task_id w.seq.history req w.db _ u updated h
        | inr (p, asked, same, seen) ↦ rw same h
      ]

  pub Keeps-IsAudited_update :
      (actor_id task_id : ℕ) (req : UpdateTaskRequest)
      → Keeps (IsAudited env) (update_service env cache actor_id task_id req)
  Keeps-IsAudited_update actor_id task_id req = record {
    keeps = λ w h.
        let k = (Keeps-update_task env cache actor_id task_id req).keeps w h.0 in
        ((k.0, Audited-update actor_id task_id req w _ refl h.1), k.1);
  }
