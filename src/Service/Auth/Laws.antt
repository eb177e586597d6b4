-- ===== src/Service/Auth/Laws.antt =====
-- Registration and login: what a success shows, and that a refusal tells nothing.
use cubical.Cubical.Foundations.Prelude.{subst}
use secunda_homework.Base.{
  ℕ, true, false, ◌⊎◌, inl, inr, Option, none, some, ◌≡◌, refl, sym, ap, ◌∙◌, arith, find,
}
use secunda_homework.Text.{Bytes, trim_space}
use secunda_homework.Entity.Rows.{User}
use secunda_homework.Dto.Requests.{LoginRequest}
use secunda_homework.Dto.Responses.{AuthResponse}
use secunda_homework.Dto.Validation.{ValidationError, validate_login}
use secunda_homework.Store.State.{Db, World, Env, validation, invalid_credentials}
use secunda_homework.Store.Monad.{Result, ok, err, lift, ok-injective, ◌>>=◌}
use secunda_homework.Store.Calls.{now, query}
use secunda_homework.Store.Effects.{
  Reads, passed, Reads-pure, Reads-throw, Reads-now, Reads-query, Reads-bind, Reads-stop_if,
}
use secunda_homework.Token.{issue_at}
use secunda_homework.Repository.Users.{has_email, find_user_by_email}
use secunda_homework.Service.Auth.{
  Libraries, or_failed, stop_on, auth_response, not_taken, issue, checked_password, login,
}

pub Reads-lift : {R A : Type 0} (r : Result A) → Reads {R = R} (lift r)
Reads-lift r = record { same = λ w. refl; same_seq = λ w. refl }

pub Reads-stop_on : {R : Type 0} (e : Option ValidationError) → Reads {R = R} (stop_on e)
Reads-stop_on none = Reads-pure tt
Reads-stop_on (some e) = Reads-throw (validation (some e))

pub Reads-or_failed : {R A : Type 0} (o : Option A) → Reads {R = R} (lift (or_failed o))
Reads-or_failed o = Reads-lift _

pub Reads-not_taken :
    {R : Type 0} (env : Env) (lib : Libraries) (o : Option User)
    → Reads {R = R} (not_taken env lib o)
Reads-not_taken env lib none = Reads-pure tt
Reads-not_taken env lib (some u) = Reads-throw _

stop_on-ok :
    {R : Type 0} (e : Option ValidationError) (w : World R) {x : Unit {0}}
    → (stop_on e w).0 ≡ ok x
    → e ≡ none
stop_on-ok none w h = refl
stop_on-ok (some e) w h = cc

lift-ok : {A : Type 0} (o : Option A) {a : A} → or_failed o ≡ ok a → o ≡ some a
lift-ok none h = cc
lift-ok (some x) h = ap some (ok-injective h)

module _ (env : Env) (lib : Libraries) where
  -- The address by which a user is looked up.
  abbrev pub login_key : Bytes → Bytes
  login_key email = lib.to_lower (trim_space (lib.to_lower (trim_space email)))

  abbrev pub user_with : Db → Bytes → Option User
  user_with d email = find (has_email env (login_key email)) d.users

  -- A login that succeeds is for the user whose address was given, with that user's password; the
  -- token is signed for that user, and no table has changed.
  pub record IsLoggedIn (req : LoginRequest) (d after : Db) (resp : AuthResponse) : Type 0 where
    pub user : User
    pub at : ℕ
    pub known : user_with d req.email ≡ some user
    pub matching : lib.bcrypt.compare user.password_hash req.password ≡ true
    pub signed : issue_at lib.jwt lib.tokens user.id user.email at ≡ some resp.token
    pub shown : resp ≡ auth_response env.format_utc user resp.token
    pub same : after ≡ d

module _ {R : Type 0} (env : Env) (lib : Libraries) where
  -- For a valid login request whose user lookup does not fail, an unknown address and a wrong
  -- password give the same error, and the tables are as before.
  pub login_refuses :
      (req : LoginRequest) (w : World R)
      → validate_login lib.parses_address req ≡ none
      → env.db_fails w.step ≡ false
      → (user_with env lib w.db req.email ≡ none)
        ⊎ ((u : User) × (user_with env lib w.db req.email ≡ some u)
            × (lib.bcrypt.compare u.password_hash req.password ≡ false))
      → ((login env lib req w).0 ≡ err invalid_credentials) × ((login env lib req w).1.db ≡ w.db)
  unfolding login find_user_by_email query checked_password ◌>>=◌
  login_refuses req w valid up (inl unknown) = (rw (valid, up, unknown), rw (valid, up, unknown))
  login_refuses req w valid up (inr (u, found, wrong)) =
      (rw (valid, up, found, wrong), rw (valid, up, found, wrong))

  pub Reads-find_user_by_email :
      (email : Bytes) → Reads {R = R} (find_user_by_email env lib.to_lower email)
  unfolding find_user_by_email
  Reads-find_user_by_email email = Reads-query env _

  find_user_by_email-ok :
      (email : Bytes) (w : World R) {o : Option User}
      → (find_user_by_email env lib.to_lower email w).0 ≡ ok o
      → find (has_email env (lib.to_lower (trim_space email))) w.db.users ≡ o
  unfolding find_user_by_email query
  find_user_by_email-ok email w h = ground arith

  Reads-checked_password :
      (password : Bytes) (o : Option User) → Reads {R = R} (checked_password env lib password o)
  unfolding checked_password
  Reads-checked_password password none = Reads-throw invalid_credentials
  Reads-checked_password password (some u) = Reads-bind _ _ (Reads-stop_if _ _) (λ _. Reads-pure u)

  checked_password-ok :
      (password : Bytes) (o : Option User) (w : World R) {u : User}
      → (checked_password env lib password o w).0 ≡ ok u
      → (o ≡ some u) × (lib.bcrypt.compare u.password_hash password ≡ true)
  unfolding checked_password ◌>>=◌
  checked_password-ok password none w h = cc
  checked_password-ok password (some v) w h = ground arith

  issue-ok :
      (user_id : ℕ) (email : Bytes) (w : World R) {token : Bytes}
      → (issue env lib user_id email w).0 ≡ ok token
      → (at : ℕ) × (issue_at lib.jwt lib.tokens user_id email at ≡ some token)
  unfolding issue now ◌>>=◌
  issue-ok user_id email w h =
      (env.clock w.step, lift-ok (issue_at lib.jwt lib.tokens user_id email (env.clock w.step)) h)

  pub Reads-issue : (user_id : ℕ) (email : Bytes) → Reads {R = R} (issue env lib user_id email)
  unfolding issue
  Reads-issue user_id email = Reads-bind _ _ (Reads-now env) (λ at. Reads-lift _)

  pub Reads-login : (req : LoginRequest) → Reads {R = R} (login env lib req)
  unfolding login
  Reads-login req = Reads-bind _ _ (Reads-stop_on _) (λ _.
      Reads-bind _ _ (Reads-find_user_by_email _) (λ found.
        Reads-bind _ _ (Reads-checked_password _ found)
          (λ u. Reads-bind _ _ (Reads-issue u.id u.email) (λ token. Reads-pure _))))

  -- A login that succeeds is for the user whose address was given, with a password that matches
  -- that user's hash; the token is signed for that user and no table has changed.
  pub login-IsLoggedIn :
      (req : LoginRequest) (w : World R) (resp : AuthResponse)
      → (login env lib req w).0 ≡ ok resp
      → IsLoggedIn env lib req w.db (login env lib req w).1.db resp
  unfolding login auth_response
  login-IsLoggedIn req w resp h =
      let e = validate_login lib.parses_address req in
      let email = lib.to_lower (trim_space req.email) in
      let p = passed (stop_on e) _ w (Reads-stop_on e) h in
      let w1 = (stop_on e w).1 in
      let q =
        passed (find_user_by_email env lib.to_lower email) _ w1 (Reads-find_user_by_email email)
          p.rest in
      let w2 = (find_user_by_email env lib.to_lower email w1).1 in
      let known = find_user_by_email-ok email w1 q.first in
      let r =
        passed (checked_password env lib req.password q.value) _ w2
          (Reads-checked_password req.password q.value) q.rest in
      let w3 = (checked_password env lib req.password q.value w2).1 in
      let (found, matching) = checked_password-ok req.password q.value w2 r.first in
      let s =
        passed (issue env lib r.value.id r.value.email) _ w3 (Reads-issue r.value.id r.value.email)
          r.rest in
      let (at, signed) = issue-ok r.value.id r.value.email w3 s.first in
      let is_resp : auth_response env.format_utc r.value s.value ≡ resp = ok-injective s.rest in
      let same1 = (Reads-stop_on e).same w in
      record {
        user = r.value;
        at = at;
        known =
            subst (λ d. find (has_email env (login_key env lib req.email)) d.users ≡ some r.value)
              same1 (known ∙ found);
        matching = matching;
        signed =
            subst (λ t. issue_at lib.jwt lib.tokens r.value.id r.value.email at ≡ some t)
              (ap (λ x. x.token) is_resp) signed;
        shown = sym is_resp ∙ ap (auth_response env.format_utc r.value) (ap (λ x. x.token) is_resp);
        same = (Reads-login req).same w;
      }
