-- ===== src/Store/Effects.antt =====
-- Rules about what code does to the database, one for each way to build code: it only reads, it
-- never fails, or it changes nothing where it fails.
use secunda_homework.Base.{ℕ, Bool, true, false, ◌≡◌, ◌≢◌, refl, ap, ◌∙◌, arith, if◌then◌else◌}
use secunda_homework.Store.State.{Db, Seq, World, Env, Err, next_step}
use secunda_homework.Store.Monad.{
  M, Result, ok, err, pure, throw, reject, map_err, replaced, attempt, stop_if, continue, bind-ok,
  ◌>>=◌,
}
use secunda_homework.Store.Calls.{now, check_result, begin, query, exec, finish, within_tx}

module _ {R A : Type 0} where
  -- Whatever happens, the tables and the generated keys are as before.
  pub record Reads (m : M R A) : Type 0 where
    pub same : (w : World R) → (m w).1.db ≡ w.db
    pub same_seq : (w : World R) → (m w).1.seq ≡ w.seq

  -- It never returns an error.
  pub record Total (m : M R A) : Type 0 where
    pub returns : (w : World R) {e : Err} → (m w).0 ≢ err e

  -- Where it returns an error, the tables are as before.
  pub record Atomic (m : M R A) : Type 0 where
    pub undone : (w : World R) {e : Err} → (m w).0 ≡ err e → (m w).1.db ≡ w.db

replaced-err :
    {A : Type 0} (f : Err → Err) (r : Result A) {e : Err}
    → replaced f r ≡ err e
    → (e' : Err) × (r ≡ err e')
replaced-err f (ok a) h = cc
replaced-err f (err e) h = (e, refl)

module _ {R A : Type 0} where
  pub Reads-pure : (a : A) → Reads {R = R} (pure a)
  Reads-pure a = record { same = λ w. refl; same_seq = λ w. refl }

  pub Reads-throw : (e : Err) → Reads {R = R} {A = A} (throw e)
  Reads-throw e = record { same = λ w. refl; same_seq = λ w. refl }

  pub Reads-query : (env : Env) (f : Db → Result A) → Reads {R = R} (query env f)
  unfolding query
  Reads-query env f = record { same = λ w. refl; same_seq = λ w. refl }

  pub Reads-map_err : (f : Err → Err) (m : M R A) → Reads m → Reads (map_err f m)
  Reads-map_err f m r = record { same = λ w. r.same w; same_seq = λ w. r.same_seq w }

  pub Reads-reject : (b : Bool) (e : Err) (m : M R A) → Reads m → Reads (reject b e m)
  Reads-reject true e m r = Reads-throw e
  Reads-reject false e m r = r

  pub Reads-if : (b : Bool) (m n : M R A) → Reads m → Reads n → Reads (if b then m else n)
  Reads-if true m n r s = r
  Reads-if false m n r s = s

  pub Total-pure : (a : A) → Total {R = R} (pure a)
  Total-pure a = record { returns = λ w h. cc }

  pub Atomic-Reads : (m : M R A) → Reads m → Atomic m
  Atomic-Reads m r = record { undone = λ w h. r.same w }

  pub Atomic-map_err : (f : Err → Err) (m : M R A) → Atomic m → Atomic (map_err f m)
  Atomic-map_err f m a = record {
    undone = λ w h. let (e, p) = replaced-err f (m w).0 h in a.undone w p;
  }

  pub Atomic-if : (b : Bool) (m n : M R A) → Atomic m → Atomic n → Atomic (if b then m else n)
  Atomic-if true m n a b = a
  Atomic-if false m n a b = b

  pub Atomic-exec :
      (env : Env) (f : ℕ → Db → Seq → Result (A × Db × Seq)) → Atomic {R = R} (exec env f)
  unfolding exec
  Atomic-exec env f = record { undone = λ w h. ground arith }

  -- A transaction that fails at its beginning, in its body or at its end leaves nothing behind.
  pub Atomic-within_tx : (env : Env) (m : M R A) → Atomic (within_tx env m)
  unfolding within_tx finish begin ◌>>=◌
  Atomic-within_tx env m = record { undone = λ w h. ground arith }

  pub Reads-attempt : (m : M R A) → Reads m → Reads (attempt m)
  Reads-attempt m r = record { same = λ w. r.same w; same_seq = λ w. r.same_seq w }

  pub Total-attempt : (m : M R A) → Total (attempt m)
  Total-attempt m = record { returns = λ w h. cc }

module _ {R : Type 0} where
  pub Reads-stop_if : (b : Bool) (e : Err) → Reads {R = R} (stop_if b e)
  Reads-stop_if true e = record { same = λ w. refl; same_seq = λ w. refl }
  Reads-stop_if false e = record { same = λ w. refl; same_seq = λ w. refl }

module _ {R : Type 0} (env : Env) where
  pub Reads-now : Reads {R = R} (now env)
  unfolding now
  Reads-now = record { same = λ w. refl; same_seq = λ w. refl }

  pub Total-now : Total {R = R} (now env)
  unfolding now
  Total-now = record { returns = λ w h. cc }

  pub Reads-check_result : Reads {R = R} (check_result env)
  unfolding check_result
  Reads-check_result = record { same = λ w. refl; same_seq = λ w. refl }

  -- The driver's results do not fail.
  pub Total-check_result : ((n : ℕ) → env.result_fails n ≡ false) → Total {R = R} (check_result env)
  unfolding check_result
  Total-check_result h = record { returns = λ w k. ground (arith, h w.step) }

module _ {R A B : Type 0} where
  Reads-continue :
      (r : Result A) (f : A → M R B) (w : World R)
      → ((a : A) → Reads (f a))
      → (continue r f w).1.db ≡ w.db
  Reads-continue (ok a) f w h = (h a).same w
  Reads-continue (err e) f w h = refl

  Reads-continue_seq :
      (r : Result A) (f : A → M R B) (w : World R)
      → ((a : A) → Reads (f a))
      → (continue r f w).1.seq ≡ w.seq
  Reads-continue_seq (ok a) f w h = (h a).same_seq w
  Reads-continue_seq (err e) f w h = refl

  pub Reads-bind : (m : M R A) (f : A → M R B) → Reads m → ((a : A) → Reads (f a)) → Reads (m >>= f)
  unfolding ◌>>=◌
  Reads-bind m f r h = record {
    same = λ w. Reads-continue (m w).0 f (m w).1 h ∙ r.same w;
    same_seq = λ w. Reads-continue_seq (m w).0 f (m w).1 h ∙ r.same_seq w;
  }

  Total-continue :
      (r : Result A) (f : A → M R B) (w : World R) {e : Err}
      → ((a : A) → Total (f a))
      → ((e : Err) → r ≢ err e)
      → (continue r f w).0 ≢ err e
  Total-continue (ok a) f w h k = (h a).returns w
  Total-continue (err e) f w h k = absurd (k e refl)

  pub Total-bind : (m : M R A) (f : A → M R B) → Total m → ((a : A) → Total (f a)) → Total (m >>= f)
  unfolding ◌>>=◌
  Total-bind m f t h = record {
    returns = λ w. Total-continue (m w).0 f (m w).1 h (λ e. t.returns w);
  }

  Atomic-continue :
      (r : Result A) (f : A → M R B) (w : World R) {e : Err}
      → ((a : A) → Atomic (f a))
      → (continue r f w).0 ≡ err e
      → (continue r f w).1.db ≡ w.db
  Atomic-continue (ok a) f w h k = (h a).undone w k
  Atomic-continue (err e) f w h k = refl

  -- Reading first keeps code atomic.
  pub Atomic-bind :
      (m : M R A) (f : A → M R B) → Reads m → ((a : A) → Atomic (f a)) → Atomic (m >>= f)
  unfolding ◌>>=◌
  Atomic-bind m f r h = record { undone = λ w k. Atomic-continue (m w).0 f (m w).1 h k ∙ r.same w }

  last-err :
      (r : Result A) (f : A → M R B) (w : World R) {e : Err}
      → ((a : A) → Total (f a))
      → (continue r f w).0 ≡ err e
      → (e' : Err) × (r ≡ err e') × ((continue r f w).1 ≡ w)
  last-err (ok a) f w h k = absurd ((h a).returns w k)
  last-err (err e') f w h k = (e', refl, refl)

  -- So does what never fails, afterwards.
  pub Atomic-last :
      (m : M R A) (f : A → M R B) → Atomic m → ((a : A) → Total (f a)) → Atomic (m >>= f)
  unfolding ◌>>=◌
  Atomic-last m f a h = record {
    undone =
        λ w k. let (e', p, q) = last-err (m w).0 f (m w).1 h k in ap (λ v. v.db) q ∙ a.undone w p;
  }

module _ {R A : Type 0} (env : Env) where
  -- A transaction that succeeds leaves what its body has done, and the body has succeeded.
  pub within_tx-ok :
      (m : M R A) (w : World R) {a : A}
      → (within_tx env m w).0 ≡ ok a
      → ((m (next_step w)).0 ≡ ok a) × ((within_tx env m w).1.db ≡ (m (next_step w)).1.db)
  unfolding within_tx begin finish ◌>>=◌
  within_tx-ok m w h = ground arith

-- A block that returns and begins by reading: what was read, and the rest from the same tables.
pub record Passed {R A B : Type 0} (m : M R A) (f : A → M R B) (w : World R) (b : B) : Type 0 where
  pub value : A
  pub first : (m w).0 ≡ ok value
  pub whole : (m >>= f) w ≡ f value (m w).1
  pub rest : (f value (m w).1).0 ≡ ok b
  pub db : (m w).1.db ≡ w.db
  pub seq : (m w).1.seq ≡ w.seq

pub passed :
    {R A B : Type 0} (m : M R A) (f : A → M R B) (w : World R) {b : B}
    → Reads m
    → ((m >>= f) w).0 ≡ ok b
    → Passed m f w b
passed m f w r h =
    let (a, first, whole, rest) = bind-ok m f w h in
    record {
      value = a;
      first = first;
      whole = whole;
      rest = rest;
      db = r.same w;
      seq = r.same_seq w;
    }

pub ruleset reads_rules = (
  Reads-pure, Reads-throw, Reads-query, Reads-map_err, Reads-reject, Reads-if, Reads-bind,
  Reads-now, Reads-check_result, Reads-attempt, Reads-stop_if,
)
