-- ===== src/Middleware/RateLimit.antt =====
-- internal/middleware/ratelimit.go: a token bucket for each user. The bucket is that of
-- golang.org/x/time/rate, an argument; the mutex makes each call of the map one step.
pub mod Laws
pub mod Own
use secunda_homework.Base.{
  ℕ, suc, ◌-◌, ℤ, pos, negsuc, Bool, true, Option, none, some, List, [], ◌∷◌, if◌then◌else◌, ◌==◌,
  ltb,
}

-- A new bucket, and `Allow` at a time.
pub record Buckets (L : Type 0) : Type 0 where
  pub fresh : L
  pub allow : ℕ → L → Bool × L

pub record Entry (L : Type 0) : Type 0 where
  pub limiter : L
  pub last_use : ℕ

pub record PerUserLimiter (L : Type 0) : Type 0 where
  pub per_user : List (ℕ × Entry L)
  pub fallback : L

module _ {L : Type 0} where
  unfoldable pub lookup : ℕ → List (ℕ × Entry L) → Option (Entry L)
  lookup k [] = none
  lookup k ((j, e) ∷ m) = if j == k then some e else lookup k m

  unfoldable pub insert : ℕ → Entry L → List (ℕ × Entry L) → List (ℕ × Entry L)
  insert k e [] = (k, e) ∷ []
  insert k e ((j, d) ∷ m) = if j == k then (k, e) ∷ m else (j, d) ∷ insert k e m

  -- The entries that were last used before a time go.
  unfoldable pub drop_idle : ℕ → List (ℕ × Entry L) → List (ℕ × Entry L)
  drop_idle cutoff [] = []
  drop_idle cutoff ((j, e) ∷ m) =
      if ltb e.last_use cutoff then drop_idle cutoff m else (j, e) ∷ drop_idle cutoff m

  -- `gc`, at a time.
  unfoldable pub gc : ℕ → ℤ → PerUserLimiter L → PerUserLimiter L
  gc at (pos n) l = if n == 0 then l else record l { per_user = drop_idle (at - n) l.per_user }
  gc at (negsuc n) l = l

module _ {L : Type 0} (b : Buckets L) where
  unfoldable pub new_per_user_limiter : PerUserLimiter L
  new_per_user_limiter = record { per_user = []; fallback = b.fresh }

  abbrev pub limiter_of : Option (Entry L) → L
  limiter_of none = b.fresh
  limiter_of (some e) = e.limiter

  -- `get` at one time, and `Allow` on what it returns at another.
  unfoldable pub allow_user : (used at : ℕ) → ℕ → PerUserLimiter L → Bool × PerUserLimiter L
  allow_user used at uid l =
      if uid == 0
      then (let (fine, f) = b.allow at l.fallback in (fine, record l { fallback = f }))
      else (let (fine, x) = b.allow at (limiter_of (lookup uid l.per_user)) in
          (
            fine,
            record l { per_user = insert uid (record { limiter = x; last_use = used }) l.per_user },
          ))

  -- The requests of a list of users, each at a time.
  unfoldable pub allow_all : List (ℕ × ℕ) → PerUserLimiter L → PerUserLimiter L
  allow_all [] l = l
  allow_all ((uid, at) ∷ rs) l = allow_all rs (allow_user at at uid l).1
