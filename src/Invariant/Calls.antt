-- ===== src/Invariant/Calls.antt =====
-- The methods of internal/repository that write, by the rules of Store/Keeps.
use secunda_homework.Base.{ℕ, true, ◌≡◌}
use secunda_homework.Text.{Bytes}
use secunda_homework.Entity.Role
use secunda_homework.Entity.TaskStatus
use secunda_homework.Entity.Rows.{User, Team, TeamMember, Task, TaskComment}
use secunda_homework.Store.State.{Db, Seq, Env}
use secunda_homework.Store.Effects.{
  Reads-pure, Reads-throw, Reads-query, Reads-map_err, Reads-bind, Reads-check_result,
}
use secunda_homework.Store.Keeps.{
  Keeps, Keeps-Reads, Keeps-map_err, Keeps-bind, Keeps-exec, Keeps-if,
}
use secunda_homework.Repository.Users.{create_user}
use secunda_homework.Repository.Teams.{create_team, add_member}
use secunda_homework.Repository.Tasks.{create_task, missing_or_deleted, soft_delete}
use secunda_homework.Repository.Comments.{create_comment}
use secunda_homework.Invariant.{IsText}
use secunda_homework.Invariant.Laws.{StatementLaws}

module _ {R : Type 0} (env : Env) {P : Db → Seq → Type 0} (laws : StatementLaws env P) where
  pub Keeps-create_user :
      (to_lower : Bytes → Bytes) (u : User) → Keeps P (create_user {R = R} env to_lower u)
  unfolding create_user
  Keeps-create_user to_lower u =
      Keeps-bind _ _
        (Keeps-map_err _ _ (Keeps-exec P env _ (λ at d s h. laws.insert_user _ at d s h)))
        (λ id. Keeps-Reads _ (Reads-bind _ _ (Reads-check_result env) (λ x. Reads-pure id)))

  pub Keeps-create_team : (t : Team) → IsText 100 t.name → Keeps P (create_team {R = R} env t)
  unfolding create_team
  Keeps-create_team t name =
      Keeps-bind _ _
        (Keeps-map_err _ _ (Keeps-exec P env _ (λ at d s h. laws.insert_team _ at d s name h)))
        (λ id. Keeps-Reads _ (Reads-bind _ _ (Reads-check_result env) (λ x. Reads-pure id)))

  pub Keeps-add_member :
      (m : TeamMember) → Role.is_valid m.role ≡ true → Keeps P (add_member {R = R} env m)
  unfolding add_member
  Keeps-add_member m role =
      Keeps-map_err _ _ (Keeps-exec P env _ (λ at d s h. laws.insert_member _ at d s role h))

  pub Keeps-create_task :
      (t : Task)
      → IsText 255 t.title
      → TaskStatus.is_valid t.status ≡ true
      → Keeps P (create_task {R = R} env t)
  unfolding create_task
  Keeps-create_task t title status =
      Keeps-bind _ _
        (Keeps-map_err _ _
          (Keeps-exec P env _ (λ at d s h. laws.insert_task _ at d s title status h)))
        (λ id. Keeps-Reads _ (Reads-bind _ _ (Reads-check_result env) (λ x. Reads-pure id)))

  pub Keeps-create_comment :
      (c : TaskComment) → IsText 4000 c.body → Keeps P (create_comment {R = R} env c)
  unfolding create_comment
  Keeps-create_comment c body =
      Keeps-bind _ _
        (Keeps-map_err _ _ (Keeps-exec P env _ (λ at d s h. laws.insert_comment _ at d s body h)))
        (λ id. Keeps-Reads _ (Reads-bind _ _ (Reads-check_result env) (λ x. Reads-pure id)))

  pub Keeps-soft_delete : (id : ℕ) → Keeps P (soft_delete {R = R} env id)
  unfolding soft_delete missing_or_deleted
  Keeps-soft_delete id =
      Keeps-bind _ _ (Keeps-exec P env _ (λ at d s h. laws.delete_task id at d s h)) (λ changed.
        Keeps-bind _ _ (Keeps-Reads _ (Reads-check_result env)) (λ x.
          Keeps-if changed _ _ (λ e. Keeps-Reads _ (Reads-pure tt))
            (λ e.
              Keeps-Reads _
                (Reads-bind _ _ (Reads-map_err _ _ (Reads-query env _)) (λ t. Reads-throw _)))))
