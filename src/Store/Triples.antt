-- ===== src/Store/Triples.antt =====
-- Rules for what code ensures of the tables: from what it starts in, what holds where it returns a
-- value, and what holds where it returns an error.
use secunda_homework.Base.{ℕ, ◌≡◌, refl, inl, inr, Bool-cases}
use secunda_homework.Store.State.{Db, Seq, World, Env, Err, next_step}
use secunda_homework.Store.Monad.{M, Result, ok, err, pure, map_err, replaced, continue, ◌>>=◌}
use secunda_homework.Store.Calls.{exec, written}
use secunda_homework.Store.Effects.{Reads}

-- What is said of the tables and of the next keys.
abbrev pub Assertion : Type 1
Assertion = Db → Seq → Type 0

abbrev pub After : {A : Type 0} → (A → Assertion) → Assertion → Result A → Assertion
After Q E (ok a) d s = Q a d s
After Q E (err e) d s = E d s

pub record Triple {R A : Type 0} (P : Assertion) (m : M R A) (Q : A → Assertion) (E : Assertion)
    : Type 0 where
  pub runs : (w : World R) → P w.db w.seq → After Q E (m w).0 (m w).1.db (m w).1.seq

module _ {A : Type 0} (Q : A → Assertion) (E : Assertion) where
  After_weaken :
      (T : A → Assertion)
      → ((a : A) (d : Db) (s : Seq) → Q a d s → T a d s)
      → (r : Result A) (d : Db) (s : Seq) → After Q E r d s
      → After T E r d s
  After_weaken T h (ok a) d s k = h a d s k
  After_weaken T h (err e) d s k = k

  After-either :
      ((a : A) (d : Db) (s : Seq) → Q a d s → E d s)
      → (r : Result A) (d : Db) (s : Seq) → After Q E r d s
      → E d s
  After-either h (ok a) d s k = h a d s k
  After-either h (err e) d s k = k

module _ {A : Type 0} (P E : Assertion) (weaker : (d : Db) (s : Seq) → P d s → E d s) where
  After-Finds :
      (G : A → Assertion) (r : Result A) (d d' : Db) (s s' : Seq)
      → d' ≡ d
      → s' ≡ s
      → ((a : A) → r ≡ ok a → G a d s)
      → P d s
      → After (λ a d s. P d s × G a d s) E r d' s'
  After-Finds G (ok a) d d' s s' same keys shows p = rw (same, keys) (p, shows a refl)
  After-Finds G (err e) d d' s s' same keys shows p = rw (same, keys) (weaker d s p)

module _ {R A : Type 0} {P E : Assertion} (env : Env)
    (weaker : (d : Db) (s : Seq) → P d s → E d s) where
  After-written :
      (Q : A → Assertion) (r : Result (A × Db × Seq)) (w w' : World R)
      → w'.db ≡ w.db
      → w'.seq ≡ w.seq
      → ((a : A) (d' : Db) (s' : Seq) → r ≡ ok (a, d', s') → Q a d' s')
      → P w.db w.seq
      → After Q E (written env r w').0 (written env r w').1.db (written env r w').1.seq
  After-written Q (ok (a, d', s')) w w' same keys shows p = shows a d' s' refl
  After-written Q (err e) w w' same keys shows p = rw (same, keys) (weaker w.db w.seq p)

module _ {R A : Type 0} (P E : Assertion) (weaker : (d : Db) (s : Seq) → P d s → E d s) where
  -- What only reads, and what its success shows.
  pub Triple-Finds :
      (m : M R A) (G : A → Assertion)
      → Reads m
      → ((w : World R) (a : A) → (m w).0 ≡ ok a → G a w.db w.seq)
      → Triple P m (λ a d s. P d s × G a d s) E
  Triple-Finds m G r shows = record {
    runs = λ w p.
        After-Finds P E weaker G (m w).0 w.db _ w.seq _ (r.same w) (r.same_seq w) (shows w) p;
  }

  pub Triple-Reads : (m : M R A) → Reads m → Triple P m (λ a. P) E
  Triple-Reads m r = record {
    runs = λ w p.
        After_weaken (λ a d s. P d s × Unit {0}) E (λ a. P) (λ a d s x. x.0) (m w).0 _ _
          ((Triple-Finds m (λ a d s. Unit {0}) r (λ w a h. tt)).runs w p);
  }

  -- A statement that writes.
  pub Triple-exec :
      (env : Env) (f : ℕ → Db → Seq → Result (A × Db × Seq)) (Q : A → Assertion)
      → ((at : ℕ) (d : Db) (s : Seq) (a : A) (d' : Db) (s' : Seq)
          → P d s
          → f at d s ≡ ok (a, d', s')
          → Q a d' s')
      → Triple {R = R} P (exec env f) Q E
  unfolding exec
  Triple-exec env f Q shows = record {
    runs = λ w p. elim (Bool-cases (env.db_fails w.step)) [
      | inl down ↦ rw down (weaker w.db w.seq p)
      | inr up ↦ rw up (
          After-written {P = P} env weaker Q (f (env.clock w.step) w.db w.seq) w (next_step w) refl
            refl (λ a d' s' e. shows (env.clock w.step) w.db w.seq a d' s' p e) p)
    ];
  }

module _ {R A B : Type 0} (E : Assertion) where
  After-continue :
      (Q : A → Assertion) (T : B → Assertion) (r : Result A) (f : A → M R B) (w : World R)
      → ((a : A) → Triple (Q a) (f a) T E)
      → After Q E r w.db w.seq
      → After T E (continue r f w).0 (continue r f w).1.db (continue r f w).1.seq
  After-continue Q T (ok a) f w h k = (h a).runs w k
  After-continue Q T (err e) f w h k = k

module _ {R A B : Type 0} {P E : Assertion} where
  pub Triple-bind :
      (m : M R A) (f : A → M R B) (Q : A → Assertion) (T : B → Assertion)
      → Triple P m Q E
      → ((a : A) → Triple (Q a) (f a) T E)
      → Triple P (m >>= f) T E
  unfolding ◌>>=◌
  Triple-bind m f Q T h k = record {
    runs = λ w p. After-continue E Q T (m w).0 f (m w).1 k (h.runs w p);
  }

module _ {A : Type 0} (Q : A → Assertion) (E : Assertion) where
  After-replaced :
      (f : Err → Err) (r : Result A) (d : Db) (s : Seq)
      → After Q E r d s
      → After Q E (replaced f r) d s
  After-replaced f (ok a) d s h = h
  After-replaced f (err e) d s h = h

module _ {R A : Type 0} {P E : Assertion} {Q : A → Assertion} where
  pub Triple-map_err : (f : Err → Err) (m : M R A) → Triple P m Q E → Triple P (map_err f m) Q E
  Triple-map_err f m h = record { runs = λ w p. After-replaced Q E f (m w).0 _ _ (h.runs w p) }

  pub Triple-pure : (a : A) → ((d : Db) (s : Seq) → P d s → Q a d s) → Triple {R = R} P (pure a) Q E
  Triple-pure a h = record { runs = λ w p. h w.db w.seq p }

  -- What holds either way.
  pub Triple-holds :
      (m : M R A)
      → ((a : A) (d : Db) (s : Seq) → Q a d s → E d s)
      → Triple P m Q E
      → (w : World R) → P w.db w.seq
      → E (m w).1.db (m w).1.seq
  Triple-holds m h t w p = After-either Q E h (m w).0 _ _ (t.runs w p)

module _ {R A : Type 0} {P E : Assertion} {Q T : A → Assertion} where
  pub Triple-weaken :
      {m : M R A}
      → ((a : A) (d : Db) (s : Seq) → Q a d s → T a d s)
      → Triple P m Q E
      → Triple P m T E
  Triple-weaken {m} h t = record { runs = λ w p. After_weaken Q E T h (m w).0 _ _ (t.runs w p) }
