-- ===== src/Handler/Keeps.antt =====
-- Rules for what a handler keeps (internal/handler), one for each way it is built.
use secunda_homework.Base.{Option, none, some}
use secunda_homework.Store.State.{Db, Seq, World}
use secunda_homework.Store.Monad.{M}
use secunda_homework.Store.Keeps.{Grows-refl, Kept, Keeps}
use secunda_homework.Handler.{Response, answer, stop, with_body}

module _ (P : Db → Seq → Type 0) where
  pub record Serves {R : Type 0} (h : World R → Response × World R) : Type 0 where
    pub serves : (w : World R) → P w.db w.seq → Kept P w (h w).1

module _ {P : Db → Seq → Type 0} {R : Type 0} where
  pub Serves-answer :
      {A : Type 0} (show : A → Response) (m : M R A) → Keeps P m → Serves P (answer show m)
  unfolding answer
  Serves-answer show m k = record { serves = λ w h. k.keeps w h }

  pub Serves-stop : (r : Response) → Serves P (stop {R = R} r)
  Serves-stop r = record { serves = λ w h. (h, Grows-refl w.seq) }

  pub Serves-with_body :
      {A : Type 0} (run : A → World R → Response × World R) (o : Option A)
      → ((a : A) → Serves P (run a))
      → Serves P (with_body run o)
  Serves-with_body run none k = Serves-stop _
  Serves-with_body run (some a) k = k a
