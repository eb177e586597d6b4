-- ===== src/Handler/Laws.antt =====
-- What a client of the task routes is told, and what a refusal leaves.
use secunda_homework.Base.{
  ℕ, ◌<◌, ◌≢◌, Bool, true, false, Option, none, some, ◌≡◌, refl, ap, ◌∙◌, arith, if◌then◌else◌,
  ==_iff,
}
use secunda_homework.Text.{Bytes, format_uint, uint_mod}
use secunda_homework.Text.Decimal.{parse_uint-format_uint}
use secunda_homework.Entity.Rows.{Task}
use secunda_homework.Dto.Requests.{UpdateTaskRequest, has_any_update}
use secunda_homework.Cache.{Cache}
use secunda_homework.Store.State.{World, Env, Err}
use secunda_homework.Store.Monad.{Result, ok, err}
use secunda_homework.Service.Tasks
use secunda_homework.Service.Tasks.Effects.{update_atomic}
use secunda_homework.Service.Access.Laws.{access, visible_task-access}
use secunda_homework.Handler.{
  Response, write_service_error, shown, nonzero, path_id, answer, with_id, with_body, task_reply,
  get_task, update_with, update_task,
}

nonzero-some : (id : ℕ) → id ≢ 0 → nonzero (some id) ≡ some id
nonzero-some id given = ground (arith, ==_iff id 0)

path_id-format_uint : (id : ℕ) → id ≢ 0 → id < uint_mod → path_id (format_uint id) ≡ some id
path_id-format_uint id given small =
    ap nonzero (parse_uint-format_uint id small) ∙ nonzero-some id given

if-kept :
    {R : Type 0} (b : Bool) (f g : World R → Response × World R) (w : World R)
    → ((f w).0.status ≢ 200 → (f w).1.db ≡ w.db)
    → ((g w).0.status ≢ 200 → (g w).1.db ≡ w.db)
    → ((if b then f else g) w).0.status ≢ 200
    → ((if b then f else g) w).1.db ≡ w.db
if-kept true f g w hf hg h = hf h
if-kept false f g w hf hg h = hg h

module _ {R : Type 0} (env : Env) (cache : Option (Cache R)) where
  -- While no call of the driver fails, the route of one task, asked for an identifier that is not 0
  -- and fits 64 bits, answers with the task and 200 or with the error response of the decision on
  -- the tables.
  pub get_task-access :
      (uid id : ℕ) (w : World R)
      → ((n : ℕ) → env.db_fails n ≡ false)
      → id ≢ 0
      → id < uint_mod
      → (get_task env cache uid (format_uint id) w).0
        ≡ shown (task_reply env cache 200) (access w.db uid id)
  unfolding get_task answer Tasks.get
  get_task-access uid id w calm given small =
      rw (path_id-format_uint id given small, visible_task-access env uid id w calm) refl

  kept :
      (r : Result Task)
      → (shown (task_reply env cache 200) r).status ≢ 200
      → (e : Err) × (r ≡ err e)
  unfolding write_service_error
  kept (ok t) h = absurd (h refl)
  kept (err e) h = (e, refl)

  answer-kept :
      (uid id : ℕ) (req : UpdateTaskRequest) (w : World R)
      → (answer (task_reply env cache 200) (Tasks.update env cache uid id req) w).0.status ≢ 200
      → (answer (task_reply env cache 200) (Tasks.update env cache uid id req) w).1.db ≡ w.db
  unfolding answer
  answer-kept uid id req w h =
      let (e, p) = kept ((Tasks.update env cache uid id req w).0) h in
      update_atomic env cache uid id req w e p

  update_with-kept :
      (uid id : ℕ) (body : Option UpdateTaskRequest) (w : World R)
      → (with_body (update_with env cache uid id) body w).0.status ≢ 200
      → (with_body (update_with env cache uid id) body w).1.db ≡ w.db
  update_with-kept uid id none w h = refl
  update_with-kept uid id (some req) w h =
      if-kept (has_any_update req) _ _ w (answer-kept uid id req w) (λ k. refl) h

  with_id-kept :
      (uid : ℕ) (body : Option UpdateTaskRequest) (o : Option ℕ) (w : World R)
      → (with_id (λ id. with_body (update_with env cache uid id) body) o w).0.status ≢ 200
      → (with_id (λ id. with_body (update_with env cache uid id) body) o w).1.db ≡ w.db
  with_id-kept uid body none w h = refl
  with_id-kept uid body (some id) w h = update_with-kept uid id body w h

  -- An update route that answers with a status other than 200, for a bad path, a bad body or an
  -- error of the service, has changed no table.
  pub update_task_refused :
      (uid : ℕ) (param : Bytes) (body : Option UpdateTaskRequest) (w : World R)
      → (update_task env cache uid param body w).0.status ≢ 200
      → (update_task env cache uid param body w).1.db ≡ w.db
  unfolding update_task
  update_task_refused uid param body w h = with_id-kept uid body (path_id param) w h
