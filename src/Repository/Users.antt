-- ===== src/Repository/Users.antt =====
-- internal/repository/user_repo.go. `strings.ToLower` is an argument.
use secunda_homework.Base.{ℕ, suc, Bool, Option, [], ◌∷◌, ◌++◌, if◌then◌else◌, any, find, ◌==◌}
use secunda_homework.Text.{Bytes, trim_space}
use secunda_homework.Entity.Rows.{User}
use secunda_homework.Store.State.{Db, Seq, Env, db, duplicate}
use secunda_homework.Store.Monad.{M, Result, ok, err, pure, map_err, ◌>>=◌, ◌>>◌}
use secunda_homework.Store.Calls.{query, exec, check_result}
use secunda_homework.Repository.Rows.{wrap, on_duplicate, one_row}

module _ (env : Env) where
  abbrev pub has_email : Bytes → User → Bool
  has_email email u = env.collate u.email email

  -- INSERT INTO users.
  unfoldable pub insert_user : User → ℕ → Db → Seq → Result (ℕ × Db × Seq)
  insert_user u at d s =
      if any (has_email u.email) d.users
      then err (db duplicate)
      else ok (
        s.user,
        record d { users = d.users ++ (record u { id = s.user }) ∷ [] },
        record s { user = suc s.user },
      )

  -- The row as its columns keep it.
  abbrev pub user_row : (Bytes → Bytes) → User → User
  user_row to_lower u = record {
    id = u.id;
    email = to_lower (trim_space u.email);
    password_hash = u.password_hash;
    name = trim_space u.name;
    created_at = env.column_time u.created_at;
    updated_at = env.column_time u.updated_at;
  }

module _ {R : Type 0} (env : Env) where
  unfoldable pub create_user : (Bytes → Bytes) → User → M R ℕ
  create_user to_lower u = do
    id ← map_err on_duplicate (exec env (insert_user env (user_row env to_lower u)))
    check_result env
    pure id

  unfoldable pub find_user : ℕ → M R User
  find_user id = map_err wrap (query env (λ d. one_row (find (λ u. u.id == id) d.users)))

  -- No such user is `nil` without an error.
  unfoldable pub find_user_by_email : (Bytes → Bytes) → Bytes → M R (Option User)
  find_user_by_email to_lower email =
      query env (λ d. ok (find (has_email env (to_lower (trim_space email))) d.users))
