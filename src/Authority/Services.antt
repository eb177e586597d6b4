-- ===== src/Authority/Services.antt =====
-- The operations of internal/service that write, each as a step of its user.
use secunda_homework.Base.{
  ℕ, ◌≡◌, refl, ◌∙◌, arith, Option, none, some, [], ◌∷◌, ◌++◌, find, update,
}
use secunda_homework.Entity.Role
use secunda_homework.Entity.Rows.{Team, TeamMember, Task, TaskComment}
use secunda_homework.Dto.Requests.{CreateTeamRequest, CreateTaskRequest, CreateCommentRequest}
use secunda_homework.Cache.{Cache}
use secunda_homework.Store.State.{Db, Seq, World, Env, not_found}
use secunda_homework.Store.Monad.{M, ok, ◌>>=◌}
use secunda_homework.Store.Effects.{
  Reads, Reads-pure, Reads-now, Reads-stop_if, Reads-bind, Reads-check_result, Reads-if,
  Reads-map_err, Reads-query, Reads-throw,
}
use secunda_homework.Store.Triples.{
  Assertion, Triple, Triple-Finds, Triple-Reads, Triple-exec, Triple-bind, Triple-map_err,
  Triple-pure, Triple-weaken,
}
use secunda_homework.Repository.Teams.{
  is_member, insert_team, insert_member, create_team, add_member,
}
use secunda_homework.Repository.Tasks.{
  TaskPatch, has_id, is_live_with, apply_patch, deleted_row, task_row, insert_task, create_task,
  soft_delete, missing_or_deleted,
}
use secunda_homework.Repository.Comments.{comment_row, insert_comment, create_comment}
use secunda_homework.Service.Access.Laws.{require_member-ok, visible_task-ok}
use secunda_homework.Service.Tasks
use secunda_homework.Service.Tasks.Effects.{Reads-require_member, Reads-visible_task}
use secunda_homework.Service.Teams
use secunda_homework.Service.Comments
use secunda_homework.Service.Teams.Laws.{Reads-find_user}
use secunda_homework.Invariant.Services.{Reads-dropped}
use secunda_homework.Authority.{Step, stay, add_team, found_team, add_task, delete_task, comment}

module _ {R : Type 0} (env : Env) (cache : Option (Cache R)) (uid : ℕ) (d0 : Db) (s0 : Seq) where
  abbrev pub AtStart : Assertion
  AtStart d s = (d ≡ d0) × (s ≡ s0)

  abbrev pub Stepped : Assertion
  Stepped d s = Step uid d0 s0 d

  stays : (d : Db) (s : Seq) → AtStart d s → Stepped d s
  stays d s h = rw h.0 stay

  -- At the start, with a fact about the tables.
  abbrev pub Knowing : (Db → Type 0) → Assertion
  Knowing G d s = AtStart d s × G d

  abbrev IsIn : ℕ → TeamMember → Db → Type 0
  IsIn team_id m d = find (is_member team_id uid) d.members ≡ some m

  abbrev Sees : ℕ → Task → Db → Type 0
  Sees task_id t d =
      (find (has_id task_id) d.tasks ≡ some t)
      × ((m : TeamMember) × (find (is_member t.team_id uid) d.members ≡ some m))

  known : (G : Db → Type 0) (d : Db) (s : Seq) → Knowing G d s → Stepped d s
  known G d s h = stays d s h.0

  module _ {A B : Type 0} (G : Db → Type 0) where
    reading :
        (m : M R A) (f : A → M R B)
        → Reads m
        → ((a : A) → Triple (Knowing G) (f a) (λ b. Stepped) Stepped)
        → Triple (Knowing G) (m >>= f) (λ b. Stepped) Stepped
    reading m f r k =
        Triple-bind m f (λ a. Knowing G) (λ b. Stepped)
          (Triple-Reads (Knowing G) Stepped (known G) m r) k

    finding :
        (H : A → Db → Type 0) (m : M R A) (f : A → M R B)
        → Reads m
        → ((w : World R) (a : A) → (m w).0 ≡ ok a → H a w.db)
        → ((a : A) → Triple (Knowing (H a)) (f a) (λ b. Stepped) Stepped)
        → Triple (Knowing G) (m >>= f) (λ b. Stepped) Stepped
    finding H m f r shows k =
        Triple-bind m f (λ a. Knowing (H a)) (λ b. Stepped)
          (Triple-weaken (λ a d s h. (h.0.0, h.1))
            (Triple-Finds (Knowing G) Stepped (known G) m (λ a d s. H a d) r shows))
          k

    -- The statement that writes, and what follows it and only reads.
    writing :
        (m : M R A) (f : A → M R B)
        → Triple (Knowing G) m (λ a. Stepped) Stepped
        → ((a : A) → Reads (f a))
        → Triple (Knowing G) (m >>= f) (λ b. Stepped) Stepped
    writing m f h r =
        Triple-bind m f (λ a. Stepped) (λ b. Stepped) h
          (λ a. Triple-Reads Stepped Stepped (λ d s h. h) (f a) (r a))

  create_task-Stepped :
      (t : Task) (m : TeamMember)
      → t.created_by ≡ uid
      → Triple {R = R} (Knowing (IsIn t.team_id m)) (create_task env t) (λ id. Stepped) Stepped
  unfolding create_task insert_task
  create_task-Stepped t m mine =
      writing _ _ _
        (Triple-map_err _ _ (
          Triple-exec _ Stepped (known _) env _ (λ id. Stepped)
            (λ at d s id d' s' p e.
              let row : Task = record (task_row env.column_time t) {
                id = s.task;
                deleted_at = none;
              } in
              let same : d' ≡ record d { tasks = d.tasks ++ row ∷ [] } = ground arith in
              rw (same, ← p.0.0, ← p.0.1) (add_task row m p.1 mine))))
        (λ id. Reads-bind _ _ (Reads-check_result env) (λ x. Reads-pure id))

  pub create-Stepped :
      (req : CreateTaskRequest)
      → Triple (Knowing (λ d. Unit {0})) (Tasks.create env cache uid req) (λ t. Stepped) Stepped
  unfolding Tasks.create
  create-Stepped req = reading _ _ _ (Reads-stop_if _ _) (λ x.
      finding _ (IsIn req.team_id) _ _ (Reads-require_member env req.team_id uid)
        (require_member-ok env req.team_id uid)
        (λ m. reading _ _ _ (Reads-now env) (λ created. reading _ _ _ (Reads-now env) (λ updated.
          writing _ _ _ (create_task-Stepped _ m refl)
            (λ id. Reads-bind _ _ (Reads-dropped cache req.team_id) (λ y. Reads-pure _))))))

  Reads-missing_or_deleted : (task_id : ℕ) → Reads {R = R} (missing_or_deleted env task_id)
  unfolding missing_or_deleted
  Reads-missing_or_deleted task_id =
      Reads-bind _ _ (Reads-map_err _ _ (Reads-query env _)) (λ t. Reads-throw _)

  soft_delete-Stepped :
      (task_id : ℕ) (t : Task)
      → Triple {R = R} (Knowing (Sees task_id t)) (soft_delete env task_id) (λ x. Stepped) Stepped
  unfolding soft_delete secunda_homework.Repository.Tasks.delete_task
  soft_delete-Stepped task_id t =
      writing _ _ _
        (Triple-exec _ Stepped (known _) env _ (λ changed. Stepped)
          (λ at d s changed d' s' p e.
            let same : d' ≡ record d {
              tasks = update (is_live_with task_id) (deleted_row (env.column_time at)) d.tasks;
            } =
              ground arith in
            rw (same, ← p.0.0, ← p.0.1) (delete_task t p.1.1.0 task_id _ p.1.0 p.1.1.1)))
        (λ changed.
          Reads-bind _ _ (Reads-check_result env)
            (λ x. Reads-if changed _ _ (Reads-pure tt) (Reads-missing_or_deleted task_id)))

  pub delete-Stepped :
      (task_id : ℕ)
      → Triple (Knowing (λ d. Unit {0})) (Tasks.delete env cache uid task_id) (λ x. Stepped) Stepped
  unfolding Tasks.delete
  delete-Stepped task_id =
      finding _ (Sees task_id) _ _ (Reads-visible_task env uid task_id)
        (visible_task-ok env uid task_id)
        (λ t. writing _ _ _ (soft_delete-Stepped task_id t) (λ x. Reads-dropped cache t.team_id))

  create_comment-Stepped :
      (c : TaskComment) (t : Task)
      → c.user_id ≡ uid
      → Triple {R = R} (Knowing (Sees c.task_id t)) (create_comment env c) (λ id. Stepped) Stepped
  unfolding create_comment insert_comment
  create_comment-Stepped c t mine =
      writing _ _ _
        (Triple-map_err _ _ (
          Triple-exec _ Stepped (known _) env _ (λ id. Stepped)
            (λ at d s id d' s' p e.
              let row : TaskComment = record (comment_row env.column_time c) { id = s.comment } in
              let same : d' ≡ record d { comments = d.comments ++ row ∷ [] } = ground arith in
              rw (same, ← p.0.0, ← p.0.1) (comment t p.1.1.0 row p.1.0 p.1.1.1 mine))))
        (λ id. Reads-bind _ _ (Reads-check_result env) (λ x. Reads-pure id))

  pub post-Stepped :
      (task_id : ℕ) (req : CreateCommentRequest)
      → Triple {R = R}
          (Knowing (λ d. Unit {0}))
          (Comments.create env uid task_id req)
          (λ id. Stepped)
          Stepped
  unfolding Comments.create
  post-Stepped task_id req = reading _ _ _ (Reads-stop_if _ _) (λ x.
      finding _ (Sees task_id) _ _ (Reads-visible_task env uid task_id)
        (visible_task-ok env uid task_id)
        (λ t.
          reading _ _ _ (Reads-now env) (λ created.
            reading _ _ _ (Reads-now env) (λ updated. create_comment-Stepped _ t refl))))

  -- The tables with a new team and no member.
  abbrev Added : ℕ → Assertion
  Added id d s =
      (t : Team) × (d ≡ record d0 { teams = d0.teams ++ t ∷ [] })
      × (t.id ≡ s0.team)
      × (t.created_by ≡ uid)
      × (id ≡ s0.team)

  added : (id : ℕ) (d : Db) (s : Seq) → Added id d s → Stepped d s
  added id d s (t, same, key, mine, key') = rw same (add_team t key mine)

  create_team-Added :
      (t : Team)
      → t.created_by ≡ uid
      → Triple {R = R} (Knowing (λ d. Unit {0})) (create_team env t) Added Stepped
  unfolding create_team insert_team
  create_team-Added t mine =
      Triple-bind _ _ Added Added
        (Triple-map_err _ _ (
          Triple-exec _ Stepped (known _) env _ Added (λ at d s id d' s' p e.
            let row : Team = record t {
              id = s.team;
              created_at = env.column_time t.created_at;
              updated_at = env.column_time t.updated_at;
            } in
            let same : d' ≡ record d { teams = d.teams ++ row ∷ [] } = ground arith in
            let key : id ≡ s.team = ground arith in
            rw (← p.0.0, ← p.0.1) (row, same, refl, mine, key))))
        (λ id.
          Triple-bind _ _ (λ x. Added id) Added
            (Triple-Reads (Added id) Stepped (added id) _ (Reads-check_result env))
            (λ x. Triple-pure id (λ d s h. h)))

  add_member-Stepped :
      (m : TeamMember) (id : ℕ)
      → m.team_id ≡ id
      → m.user_id ≡ uid
      → m.role ≡ Role.owner
      → Triple {R = R} (Added id) (add_member env m) (λ x. Stepped) Stepped
  unfolding add_member insert_member
  add_member-Stepped m id of_team mine owner = Triple-map_err _ _ (
      Triple-exec (Added id) Stepped (added id) env _ (λ x. Stepped)
        (λ at d s x d' s' (t, was, key, founder, key') e.
          let row : TeamMember = record m { joined_at = env.column_time m.joined_at } in
          let same : d' ≡ record d { members = d.members ++ row ∷ [] } = ground arith in
          rw (same, was) (found_team t row key founder (of_team ∙ key') mine owner)))

  pub found-Stepped :
      (req : CreateTeamRequest)
      → Triple {R = R} (Knowing (λ d. Unit {0})) (Teams.create env uid req) (λ t. Stepped) Stepped
  unfolding Teams.create
  found-Stepped req = reading _ _ _ (Reads-stop_if _ _) (λ x.
      reading _ _ _ (Reads-find_user env not_found uid) (λ u.
        reading _ _ _ (Reads-now env) (λ created. reading _ _ _ (Reads-now env) (λ updated.
          Triple-bind _ _ Added _ (create_team-Added _ refl) (λ id.
            Triple-bind _ _ (λ joined. Added id) _
              (Triple-Reads (Added id) Stepped (added id) _ (Reads-now env))
              (λ joined.
                Triple-bind _ _ (λ x. Stepped) _ (add_member-Stepped _ id refl refl refl)
                  (λ x. Triple-pure _ (λ d s h. h))))))))
