-- ===== src/Handler/Denials.antt =====
-- Rules for handlers whose service refuses at given tables (internal/handler), one for each way they
-- are built.
use secunda_homework.Base.{
  ℕ, ◌≤◌, Bool, true, false, Option, none, some, ◌≡◌, refl, ◌∙◌, arith, if◌then◌else◌,
}
use secunda_homework.Text.{Bytes}
use secunda_homework.Store.State.{
  Db, World, Err, validation, forbidden, not_found, already_exists, email_taken,
  invalid_credentials, invalid_token, expired_token, token_signature, not_team_member, nil_pointer,
  db, failed,
}
use secunda_homework.Store.Monad.{M, Result, ok, err, continue, ◌>>=◌}
use secunda_homework.Store.Effects.{Reads}
use secunda_homework.Handler.{
  Response, Message, bad_request, stop, answer, shown, write_service_error, with_path, with_body,
}

same_id : {j k : ℕ} → some j ≡ some k → j ≡ k
same_id h = cc

abbrev pub is_err : {A : Type 0} → Result A → Bool
is_err (ok a) = false
is_err (err e) = true

module _ {R : Type 0} (d : Db) where
  -- Code that returns an error at these tables.
  pub record Denied {A : Type 0} (m : M R A) : Type 0 where
    pub denies : (w : World R) → w.db ≡ d → is_err (m w).0 ≡ true

  pub record Turns (h : World R → Response × World R) : Type 0 where
    pub turns : (w : World R) → w.db ≡ d → 400 ≤ (h w).0.status

continue_denied :
    {R A B : Type 0} (r : Result A) (f : A → M R B) (w : World R)
    → is_err r ≡ true
    → is_err (continue r f w).0 ≡ true
continue_denied (ok a) f w h = cc
continue_denied (err e) f w h = refl

module _ {R A B : Type 0} {d : Db} where
  pub Denied-bind : (m : M R A) (f : A → M R B) → Denied d m → Denied d (m >>= f)
  unfolding ◌>>=◌
  Denied-bind m f h = record { denies = λ w e. continue_denied (m w).0 f (m w).1 (h.denies w e) }

  continue_then :
      (r : Result A) (f : A → M R B) (w : World R)
      → w.db ≡ d
      → ((a : A) → Denied d (f a))
      → is_err (continue r f w).0 ≡ true
  continue_then (ok a) f w e h = (h a).denies w e
  continue_then (err x) f w e h = refl

  pub Denied-then :
      (m : M R A) (f : A → M R B) → Reads m → ((a : A) → Denied d (f a)) → Denied d (m >>= f)
  unfolding ◌>>=◌
  Denied-then m f r h = record { denies = λ w e. continue_then (m w).0 f (m w).1 (r.same w ∙ e) h }

error_status : (e : Err) → 400 ≤ (write_service_error e).status
unfolding write_service_error
error_status (validation e) = omega arith
error_status forbidden = omega arith
error_status not_found = omega arith
error_status already_exists = omega arith
error_status email_taken = omega arith
error_status invalid_credentials = omega arith
error_status invalid_token = omega arith
error_status expired_token = omega arith
error_status token_signature = omega arith
error_status not_team_member = omega arith
error_status (db e) = omega arith
error_status failed = omega arith
error_status nil_pointer = omega arith

shown_denied :
    {A : Type 0} (show : A → Response) (r : Result A)
    → is_err r ≡ true
    → 400 ≤ (shown show r).status
shown_denied show (ok a) h = cc
shown_denied show (err e) h = error_status e

module _ {R : Type 0} {d : Db} where
  pub Turns-answer :
      {A : Type 0} (show : A → Response) (m : M R A) → Denied d m → Turns d (answer show m)
  unfolding answer
  Turns-answer show m h = record { turns = λ w e. shown_denied show (m w).0 (h.denies w e) }

  pub Turns-bad : (message : Message) → Turns {R = R} d (stop (bad_request message))
  unfolding bad_request
  Turns-bad message = record { turns = λ w e. omega arith }

  pub Turns-path :
      (message : Bytes) (run : ℕ → World R → Response × World R) (o : Option ℕ) (k : ℕ)
      → o ≡ some k
      → Turns d (run k)
      → Turns d (with_path message run o)
  Turns-path message run none k e h = Turns-bad _
  Turns-path message run (some j) k e h = rw (same_id e) h

  pub Turns-body :
      {A : Type 0} (run : A → World R → Response × World R) (o : Option A)
      → ((a : A) → Turns d (run a))
      → Turns d (with_body run o)
  Turns-body run none h = Turns-bad _
  Turns-body run (some a) h = h a

  pub Turns-if :
      (b : Bool) (f g : World R → Response × World R)
      → Turns d f
      → Turns d g
      → Turns d (if b then f else g)
  Turns-if true f g h k = h
  Turns-if false f g h k = k
