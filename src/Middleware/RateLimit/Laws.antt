-- ===== src/Middleware/RateLimit/Laws.antt =====
-- The users' entries and the collection of idle ones (internal/middleware/ratelimit.go).
use secunda_homework.Base.{
  ℕ, ◌+◌, ◌-◌, ◌≤◌, ◌≢◌, pos, false, some, List, [], ◌∷◌, ◌≡◌, refl, ◌∙◌, arith, if◌then◌else◌,
  ◌==◌, ==_iff, ltb, inl, inr, Bool-cases, All,
}
use secunda_homework.Middleware.RateLimit.{
  Buckets, Entry, PerUserLimiter, lookup, insert, drop_idle, gc, allow_user, allow_all,
}

module _ {L : Type 0} where
  pub lookup-insert :
      (k j : ℕ) (e : Entry L) (m : List (ℕ × Entry L))
      → lookup j (insert k e m) ≡ (if k == j then some e else lookup j m)
  unfolding lookup insert
  lookup-insert k j e [] = refl
  lookup-insert k j e ((i, d) ∷ m) =
      ground (arith, ==_iff k j, ==_iff i k, ==_iff i j, lookup-insert k j e m)

  lookup-drop_idle :
      (cutoff k : ℕ) (e : Entry L) (m : List (ℕ × Entry L))
      → lookup k m ≡ some e
      → ltb e.last_use cutoff ≡ false
      → lookup k (drop_idle cutoff m) ≡ some e
  unfolding lookup drop_idle
  lookup-drop_idle cutoff k e [] h u = cc
  lookup-drop_idle cutoff k e ((i, d) ∷ m) h u =
      ground (arith, ==_iff i k, lookup-drop_idle cutoff k e m)

  -- Collecting idle entries keeps an entry that was used no longer ago than the given time.
  pub gc-keeps :
      (at ttl k : ℕ) (e : Entry L) (l : PerUserLimiter L)
      → lookup k l.per_user ≡ some e
      → at ≤ e.last_use + ttl
      → lookup k (gc at (pos ttl) l).per_user ≡ some e
  unfolding gc
  gc-keeps at ttl k e l h recent = ground (arith, lookup-drop_idle (at - ttl) k e l.per_user)

module _ {L : Type 0} (b : Buckets L) where
  pub lookup-allow_user :
      (used at uid k : ℕ) (l : PerUserLimiter L)
      → uid ≢ k
      → lookup k (allow_user b used at uid l).1.per_user ≡ lookup k l.per_user
  unfolding allow_user
  lookup-allow_user used at uid k l other = elim (Bool-cases (uid == 0)) [
    | inl anon ↦ rw anon
    | inr user ↦ rw user (lookup-insert uid k _ l.per_user ∙ ground (arith, ==_iff uid k))
  ]

  -- Whatever requests other users make, and whenever, the entry of a user in the limiter stays as
  -- it is.
  pub allow_all_isolated :
      (rs : List (ℕ × ℕ)) (k : ℕ) (l : PerUserLimiter L)
      → All (λ r. r.0 ≢ k) rs
      → lookup k (allow_all b rs l).per_user ≡ lookup k l.per_user
  unfolding allow_all
  allow_all_isolated [] k l h = refl
  allow_all_isolated ((uid, at) ∷ rs) k l (h, hs) =
      allow_all_isolated rs k (allow_user b at at uid l).1 hs ∙ lookup-allow_user at at uid k l h
