-- ===== src/Store/Keeps.antt =====
-- Rules for a property of the tables that code preserves, failed calls and rollbacks included. The
-- property may speak of the next keys, which only grow.
use secunda_homework.Base.{
  ℕ, Bool, true, false, ◌≡◌, ◌≤◌, refl, arith, if◌then◌else◌, inl, inr, Bool-cases,
}
use secunda_homework.Store.State.{Db, Seq, World, Env, Err, next_step}
use secunda_homework.Store.Monad.{M, Result, ok, err, map_err, attempt, stop_if, continue, ◌>>=◌}
use secunda_homework.Store.Calls.{begin, written, exec, finish, within_tx}
use secunda_homework.Store.Effects.{Reads}

pub record Grows (s s' : Seq) : Type 0 where
  pub user : s.user ≤ s'.user
  pub team : s.team ≤ s'.team
  pub task : s.task ≤ s'.task
  pub history : s.history ≤ s'.history
  pub comment : s.comment ≤ s'.comment

pub Grows-refl : (s : Seq) → Grows s s
Grows-refl s = omega arith

pub Grows-trans : (s t u : Seq) → Grows s t → Grows t u → Grows s u
Grows-trans s t u g h = omega arith

Grows-of_eq : (s t : Seq) → t ≡ s → Grows s t
Grows-of_eq s t e = rw e (Grows-refl s)

module _ (P : Db → Seq → Type 0) where
  -- What a statement makes of the tables.
  abbrev pub Writes : {A : Type 0} → Seq → Result (A × Db × Seq) → Type 0
  Writes s (ok (a, d', s')) = P d' s' × Grows s s'
  Writes s (err e) = Unit

  abbrev pub Kept : {R : Type 0} → World R → World R → Type 0
  Kept w w' = P w'.db w'.seq × Grows w.seq w'.seq

  pub record Keeps {R A : Type 0} (m : M R A) : Type 0 where
    pub keeps : (w : World R) → P w.db w.seq → Kept w (m w).1

module _ {P : Db → Seq → Type 0} {R A : Type 0} where
  pub Keeps-Reads : (m : M R A) → Reads m → Keeps P m
  Keeps-Reads m r = record {
    keeps = λ w h. (rw (r.same w, r.same_seq w) h, Grows-of_eq w.seq _ (r.same_seq w));
  }

  pub Keeps-map_err : (f : Err → Err) (m : M R A) → Keeps P m → Keeps P (map_err f m)
  Keeps-map_err f m k = record { keeps = λ w h. k.keeps w h }

  pub Keeps-attempt : (m : M R A) → Keeps P m → Keeps P (attempt m)
  Keeps-attempt m k = record { keeps = λ w h. k.keeps w h }

  pub Keeps-if :
      (b : Bool) (m n : M R A)
      → (b ≡ true → Keeps P m)
      → (b ≡ false → Keeps P n)
      → Keeps P (if b then m else n)
  Keeps-if true m n k l = k refl
  Keeps-if false m n k l = l refl

module _ {P : Db → Seq → Type 0} {R A B : Type 0} where
  continue-Kept :
      (r : Result A) (f : A → M R B) (w w' : World R)
      → ((a : A) → Keeps P (f a))
      → Kept P w w'
      → Kept P w (continue r f w').1
  continue-Kept (ok a) f w w' k h =
      let (p, g) = (k a).keeps w' h.0 in (p, Grows-trans w.seq w'.seq _ h.1 g)
  continue-Kept (err e) f w w' k h = h

  pub Keeps-bind :
      (m : M R A) (f : A → M R B) → Keeps P m → ((a : A) → Keeps P (f a)) → Keeps P (m >>= f)
  unfolding ◌>>=◌
  Keeps-bind m f k l = record { keeps = λ w h. continue-Kept (m w).0 f w (m w).1 l (k.keeps w h) }

module _ {P : Db → Seq → Type 0} {R B : Type 0} where
  -- What follows a test that would have stopped.
  pub Keeps-guard :
      (b : Bool) (e : Err) (f : Unit {0} → M R B)
      → (b ≡ false → Keeps P (f tt))
      → Keeps P (stop_if b e >>= f)
  unfolding ◌>>=◌
  Keeps-guard true e f k = record { keeps = λ w h. (h, Grows-refl w.seq) }
  Keeps-guard false e f k = record { keeps = λ w h. (k refl).keeps w h }

module _ (P : Db → Seq → Type 0) {R A : Type 0} (env : Env) where
  written-Kept :
      (r : Result (A × Db × Seq)) (w w' : World R)
      → w'.db ≡ w.db
      → w'.seq ≡ w.seq
      → Writes P w.seq r
      → P w.db w.seq
      → Kept P w (written env r w').1
  written-Kept (ok (a, d', s')) w w' p q h k = h
  written-Kept (err e) w w' p q h k = rw (p, q) (k, Grows-refl w.seq)

  pub Keeps-exec :
      (f : ℕ → Db → Seq → Result (A × Db × Seq))
      → ((at : ℕ) (d : Db) (s : Seq) → P d s → Writes P s (f at d s))
      → Keeps P (exec {R = R} env f)
  unfolding exec
  Keeps-exec f k = record {
    keeps = λ w h. elim (Bool-cases (env.db_fails w.step)) [
      | inl down ↦ rw down (h, Grows-refl w.seq)
      | inr up ↦ rw up (
          written-Kept (f (env.clock w.step) w.db w.seq) w (next_step w) refl refl
            (k (env.clock w.step) w.db w.seq h) h)
    ];
  }

  finish-Kept :
      (before : Db) (r : Result A) (w w' : World R)
      → before ≡ w.db
      → ((d : Db) (s s' : Seq) → Grows s s' → P d s → P d s')
      → P w.db w.seq
      → Kept P w w'
      → Kept P w (finish env before r w').1
  unfolding finish
  finish-Kept before (err e) w w' same mono p h = (rw same (mono w.db w.seq w'.seq h.1 p), h.1)
  finish-Kept before (ok a) w w' same mono p h = elim (Bool-cases (env.db_fails w'.step)) [
    | inl down ↦ rw (down, same) (mono w.db w.seq w'.seq h.1 p, h.1)
    | inr up ↦ rw up h
  ]

  -- A rollback takes the tables back and leaves the keys.
  pub Keeps-within_tx :
      (m : M R A)
      → ((d : Db) (s s' : Seq) → Grows s s' → P d s → P d s')
      → Keeps P m
      → Keeps P (within_tx env m)
  unfolding within_tx begin ◌>>=◌
  Keeps-within_tx m mono k = record {
    keeps = λ w h. elim (Bool-cases (env.db_fails w.step)) [
      | inl down ↦ rw down (h, Grows-refl w.seq)
      | inr up ↦ rw up (
          finish-Kept w.db (m (next_step w)).0 w (m (next_step w)).1 refl mono h
            (k.keeps (next_step w) h))
    ];
  }
