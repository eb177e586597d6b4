-- ===== src/Store/Monad.antt =====
-- Code that reads and writes the state and may return an error. What was written before an error
-- stays written, unless a transaction undoes it.
use secunda_homework.Base.{Bool, true, false, ◌≡◌, refl}
use secunda_homework.Store.State.{World, Err}

pub data Result (A : Type 0) : Type 0 where
  ok : A → Result A
  err : Err → Result A

pub ok-injective : {A : Type 0} {a b : A} → ok a ≡ ok b → a ≡ b
ok-injective h = cc

abbrev pub M : Type 0 → Type 0 → Type 0
M R A = World R → Result A × World R

module _ {A : Type 0} where
  -- The error is replaced.
  abbrev pub replaced : (Err → Err) → Result A → Result A
  replaced f (ok a) = ok a
  replaced f (err e) = err (f e)

module _ {R A : Type 0} where
  abbrev pub pure : A → M R A
  pure a w = (ok a, w)

  abbrev pub throw : Err → M R A
  throw e w = (err e, w)

  abbrev pub lift : Result A → M R A
  lift r w = (r, w)

  abbrev pub map_err : (Err → Err) → M R A → M R A
  map_err f m w = let (r, w') = m w in (replaced f r, w')

module _ {R A : Type 0} where
  -- The error of a call that is ignored.
  abbrev pub attempt : M R A → M R (Unit {0})
  attempt m w = (ok tt, (m w).1)

module _ {R A B : Type 0} where
  abbrev pub continue : Result A → (A → M R B) → M R B
  continue (ok a) f w = f a w
  continue (err e) f w = (err e, w)

  infixl 5 ◌>>=◌
  unfoldable pub ◌>>=◌ : M R A → (A → M R B) → M R B
  ◌>>=◌ m f w = let (r, w') = m w in continue r f w'

  continue-ok :
      (r : Result A) (f : A → M R B) (w : World R) {b : B}
      → (continue r f w).0 ≡ ok b
      → (a : A) × (r ≡ ok a) × (continue r f w ≡ f a w) × ((f a w).0 ≡ ok b)
  continue-ok (ok a) f w h = (a, refl, refl, h)
  continue-ok (err e) f w h = cc

  -- A block that returns has passed its first step, and is what follows it.
  pub bind-ok :
      (m : M R A) (f : A → M R B) (w : World R) {b : B}
      → ((m >>= f) w).0 ≡ ok b
      → (a : A) × ((m w).0 ≡ ok a) × ((m >>= f) w ≡ f a (m w).1) × ((f a (m w).1).0 ≡ ok b)
  unfolding ◌>>=◌
  bind-ok m f w h = continue-ok (m w).0 f (m w).1 h

  pub bind-step :
      (m : M R A) (f : A → M R B) (w : World R) {a : A} → (m w).0 ≡ ok a → (m >>= f) w ≡ f a (m w).1
  unfolding ◌>>=◌
  bind-step m f w h = rw h

  pub bind-stop :
      (m : M R A) (f : A → M R B) (w : World R) {e : Err}
      → (m w).0 ≡ err e
      → (m >>= f) w ≡ (err e, (m w).1)
  unfolding ◌>>=◌
  bind-stop m f w h = rw h

module _ {R B : Type 0} where
  infixl 5 ◌>>◌
  abbrev pub ◌>>◌ : M R (Unit {0}) → M R B → M R B
  m >> k = m >>= λ _. k

  -- `if test { return err }` before the rest.
  abbrev pub reject : Bool → Err → M R B → M R B
  reject true e m = throw e
  reject false e m = m

replaced-ok : {A : Type 0} (f : Err → Err) (r : Result A) {a : A} → replaced f r ≡ ok a → r ≡ ok a
replaced-ok f (ok a) h = h
replaced-ok f (err e) h = cc

-- Replacing errors lets no other result through.
pub map_err-ok :
    {R A : Type 0} (f : Err → Err) (m : M R A) (w : World R) {a : A}
    → (map_err f m w).0 ≡ ok a
    → (m w).0 ≡ ok a
map_err-ok f m w h = replaced-ok f (m w).0 h

module _ {R : Type 0} where
  -- `if test { return err }`.
  abbrev pub stop_if : Bool → Err → M R (Unit {0})
  stop_if true e = throw e
  stop_if false e = pure tt

  pub stop_if-ok :
      (b : Bool) (e : Err) (w : World R) {x : Unit {0}} → (stop_if b e w).0 ≡ ok x → b ≡ false
  stop_if-ok true e w h = cc
  stop_if-ok false e w h = refl

module _ {R A B : Type 0} where
  -- What follows a call whose error is ignored.
  pub attempt-bind :
      (m : M R A) (f : Unit {0} → M R B) (w : World R) → (attempt m >>= f) w ≡ f tt (m w).1
  unfolding ◌>>=◌
  attempt-bind m f w = refl
