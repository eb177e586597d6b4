-- ===== src/Invariant/Services.antt =====
-- The operations of internal/service but the update of a task, by the rules of Store/Keeps.
use secunda_homework.Base.{ℕ, true, false, ◌||◌, Option, ◌≡◌, refl, arith, ltb, length, inl}
use secunda_homework.Text.{Bytes, is_empty, trim_space}
use secunda_homework.Text.Trim.{trim_space_idem, length-trim_space}
use secunda_homework.Entity.Role
use secunda_homework.Entity.Role.Laws.{is_valid_iff}
use secunda_homework.Entity.TaskStatus
use secunda_homework.Entity.TaskStatus.{TaskStatus}
use secunda_homework.Dto.Requests.{
  RegisterRequest, CreateTeamRequest, InviteRequest, CreateTaskRequest, CreateCommentRequest,
}
use secunda_homework.Cache.{Cache}
use secunda_homework.Store.State.{Db, Seq, Env}
use secunda_homework.Store.Monad.{attempt}
use secunda_homework.Store.Effects.{Reads, Reads-pure, Reads-now, Reads-attempt}
use secunda_homework.Store.Keeps.{Keeps, Keeps-Reads, Keeps-bind, Keeps-guard}
use secunda_homework.Service.TaskCache.{invalidate}
use secunda_homework.Service.TaskCache.Laws.{Reads-invalidate}
use secunda_homework.Service.Tasks.Effects.{Reads-require_member, Reads-visible_task}
use secunda_homework.Service.Teams.Laws.{Reads-find_user, Reads-find_team}
use secunda_homework.Service.Auth.Laws.{
  Reads-or_failed, Reads-not_taken, Reads-stop_on, Reads-find_user_by_email, Reads-issue,
}
use secunda_homework.Service.Auth.{Libraries, register}
use secunda_homework.Service.Teams
use secunda_homework.Service.Comments
use secunda_homework.Service.Tasks.{create, delete, is_refused}
use secunda_homework.Invariant.{IsText}
use secunda_homework.Invariant.Laws.{StatementLaws}
use secunda_homework.Invariant.Calls
use secunda_homework.Invariant.Calls.{
  Keeps-create_user, Keeps-add_member, Keeps-create_comment, Keeps-soft_delete,
}

-- What a check for an empty or overlong text leaves.
pub checked-IsText :
    (max : ℕ) (s : Bytes)
    → is_empty (trim_space s) || ltb max (length (trim_space s)) ≡ false
    → IsText max (trim_space s)
checked-IsText max s h = (ground arith, trim_space_idem s, ground arith)

-- What the checks of a new task leave.
created_title :
    (req : CreateTaskRequest) → is_refused req ≡ false → IsText 255 (trim_space req.title)
unfolding is_refused
created_title req h =
    (ground arith, trim_space_idem req.title, ground (arith, length-trim_space req.title))

created_status :
    (req : CreateTaskRequest) → is_refused req ≡ false → TaskStatus.is_valid req.status ≡ true
unfolding is_refused
created_status req h = ground arith

module _ {R : Type 0} (cache : Option (Cache R)) where
  pub Reads-dropped : (team_id : ℕ) → Reads (attempt (invalidate cache team_id))
  Reads-dropped team_id = Reads-attempt _ (Reads-invalidate cache team_id)

module _ {R : Type 0} (env : Env) {P : Db → Seq → Type 0} (laws : StatementLaws env P) where
  pub Keeps-create_team :
      (actor_id : ℕ) (req : CreateTeamRequest) → Keeps P (Teams.create {R = R} env actor_id req)
  unfolding Teams.create
  Keeps-create_team actor_id req = Keeps-guard _ _ _ (λ fits.
      Keeps-bind _ _ (Keeps-Reads _ (Reads-find_user env _ actor_id)) (λ u.
        Keeps-bind _ _ (Keeps-Reads _ (Reads-now env)) (λ created.
          Keeps-bind _ _ (Keeps-Reads _ (Reads-now env)) (λ updated.
            Keeps-bind _ _ (Calls.Keeps-create_team env laws _ (checked-IsText 100 req.name fits))
              (λ id. Keeps-bind _ _ (Keeps-Reads _ (Reads-now env)) (λ joined.
                Keeps-bind _ _
                  (Keeps-add_member env laws _ ((is_valid_iff Role.owner).1 (inl refl)))
                  (λ x. Keeps-Reads _ (Reads-pure _))))))))

  pub Keeps-invite :
      (actor_id team_id : ℕ) (req : InviteRequest)
      → Keeps P (Teams.invite {R = R} env actor_id team_id req)
  unfolding Teams.invite
  Keeps-invite actor_id team_id req =
      Keeps-bind _ _ (Keeps-Reads _ (Reads-find_team env _ team_id)) (λ t.
        Keeps-bind _ _ (Keeps-Reads _ (Reads-require_member env team_id actor_id)) (λ actor.
          Keeps-guard _ _ _ (λ may.
            Keeps-bind _ _ (Keeps-Reads _ (Reads-find_user env _ req.user_id)) (λ u.
              Keeps-guard _ _ _ (λ valid.
                Keeps-bind _ _ (Keeps-Reads _ (Reads-now env))
                  (λ joined. Keeps-add_member env laws _ (ground arith)))))))

  pub Keeps-post :
      (caller_id task_id : ℕ) (req : CreateCommentRequest)
      → Keeps P (Comments.create {R = R} env caller_id task_id req)
  unfolding Comments.create
  Keeps-post caller_id task_id req = Keeps-guard _ _ _ (λ fits.
      Keeps-bind _ _ (Keeps-Reads _ (Reads-visible_task env caller_id task_id)) (λ t.
        Keeps-bind _ _ (Keeps-Reads _ (Reads-now env)) (λ created.
          Keeps-bind _ _ (Keeps-Reads _ (Reads-now env))
            (λ updated. Keeps-create_comment env laws _ (checked-IsText 4000 req.body fits)))))

  pub Keeps-register :
      (lib : Libraries) (req : RegisterRequest) → Keeps P (register {R = R} env lib req)
  unfolding register
  Keeps-register lib req = Keeps-bind _ _ (Keeps-Reads _ (Reads-stop_on _)) (λ x.
      Keeps-bind _ _ (Keeps-Reads _ (Reads-find_user_by_email env lib _)) (λ existing.
        Keeps-bind _ _ (Keeps-Reads _ (Reads-not_taken env lib existing)) (λ y.
          Keeps-bind _ _ (Keeps-Reads _ (Reads-or_failed _)) (λ hash.
            Keeps-bind _ _ (Keeps-Reads _ (Reads-now env)) (λ at.
              Keeps-bind _ _ (Keeps-create_user env laws lib.to_lower _) (λ id.
                Keeps-bind _ _ (Keeps-Reads _ (Reads-issue env lib id _))
                  (λ token. Keeps-Reads _ (Reads-pure _))))))))

module _ {R : Type 0} (env : Env) (cache : Option (Cache R)) {P : Db → Seq → Type 0}
    (laws : StatementLaws env P) where
  pub Keeps-create_task :
      (actor_id : ℕ) (req : CreateTaskRequest) → Keeps P (create env cache actor_id req)
  unfolding create
  Keeps-create_task actor_id req = Keeps-guard _ _ _ (λ fine.
      Keeps-bind _ _ (Keeps-Reads _ (Reads-require_member env req.team_id actor_id)) (λ m.
        Keeps-bind _ _ (Keeps-Reads _ (Reads-now env)) (λ created.
          Keeps-bind _ _ (Keeps-Reads _ (Reads-now env)) (λ updated.
            Keeps-bind _ _
              (Calls.Keeps-create_task env laws _ (created_title req fine)
                (created_status req fine))
              (λ id.
                Keeps-bind _ _ (Keeps-Reads _ (Reads-dropped cache req.team_id))
                  (λ x. Keeps-Reads _ (Reads-pure _)))))))

  pub Keeps-delete_task : (actor_id task_id : ℕ) → Keeps P (delete env cache actor_id task_id)
  unfolding delete
  Keeps-delete_task actor_id task_id =
      Keeps-bind _ _ (Keeps-Reads _ (Reads-visible_task env actor_id task_id)) (λ t.
        Keeps-bind _ _ (Keeps-soft_delete env laws task_id)
          (λ x. Keeps-Reads _ (Reads-dropped cache t.team_id)))
