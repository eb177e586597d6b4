-- ===== src/Handler/Refusals.antt =====
-- Rules for handlers that answer with an error (internal/handler), one for each way they are
-- built.
use secunda_homework.Base.{◌≤◌, ◌<◌, Option, none, some, ◌≡◌, refl, arith}
use secunda_homework.Store.State.{World}
use secunda_homework.Store.Monad.{M, Result, ok, err}
use secunda_homework.Store.Effects.{Atomic}
use secunda_homework.Handler.{Response, answer, shown, stop, with_body}

module _ {R : Type 0} where
  pub record Refuses (h : World R → Response × World R) : Type 0 where
    pub refused : (w : World R) → 400 ≤ (h w).0.status → (h w).1.db ≡ w.db

  answer-kept :
      {A : Type 0} (show : A → Response) (m : M R A) (w : World R) (r : Result A)
      → ((a : A) → (show a).status < 400)
      → Atomic m
      → (m w).0 ≡ r
      → 400 ≤ (shown show r).status
      → (m w).1.db ≡ w.db
  answer-kept show m w (ok a) low k e h = absurd (omega (arith, h, low a))
  answer-kept show m w (err x) low k e h = k.undone w e

  pub Refuses-answer :
      {A : Type 0} (show : A → Response) (m : M R A)
      → ((a : A) → (show a).status < 400)
      → Atomic m
      → Refuses (answer show m)
  unfolding answer
  Refuses-answer show m low k = record {
    refused = λ w h. answer-kept show m w (m w).0 low k refl h;
  }

  pub Refuses-stop : (r : Response) → Refuses (stop r)
  Refuses-stop r = record { refused = λ w h. refl }

  pub Refuses-with_body :
      {A : Type 0} (run : A → World R → Response × World R) (o : Option A)
      → ((a : A) → Refuses (run a))
      → Refuses (with_body run o)
  Refuses-with_body run none k = Refuses-stop _
  Refuses-with_body run (some a) k = k a
