-- ===== src/Middleware/RateLimit/Own.antt =====
-- The limiter (internal/middleware/ratelimit.go) against the bucket of one user: requests of all
-- users, in any order, and the collections of idle entries between them.
use secunda_homework.Base.{
  ℕ, ◌-◌, ◌≢◌, ℤ, pos, negsuc, Bool, true, false, Option, none, some, List, [], ◌∷◌, ◌≡◌, refl, sym,
  ap, ◌∙◌, arith, if◌then◌else◌, ◌==◌, ==_iff, ltb, inl, inr, Bool-cases, map, select,
}
use secunda_homework.Middleware.RateLimit.{
  Buckets, Entry, PerUserLimiter, lookup, insert, drop_idle, gc, new_per_user_limiter, limiter_of,
  allow_user,
}
use secunda_homework.Middleware.RateLimit.Laws.{lookup-insert, lookup-allow_user}

-- A request passes the middleware, or the ticker fires.
pub data Event : Type 0 where
  request : (uid used at : ℕ) → Event
  collect : (at : ℕ) → Event

module _ {L : Type 0} where
  abbrev idle_since : ℕ → ℤ → Entry L → Bool
  idle_since at (pos n) e = if n == 0 then false else ltb e.last_use (at - n)
  idle_since at (negsuc n) e = false

  -- An entry that a collection leaves.
  abbrev pub kept : ℕ → ℤ → Option (Entry L) → Option (Entry L)
  kept at ttl none = none
  kept at ttl (some e) = if idle_since at ttl e then none else some e

module _ {L : Type 0} (b : Buckets L) (ttl : ℤ) where
  -- What the middleware answers, and to whom.
  unfoldable pub answers : List Event → PerUserLimiter L → List (ℕ × Bool)
  answers [] l = []
  answers (request uid used at ∷ es) l =
      let (fine, l') = allow_user b used at uid l in (uid, fine) ∷ answers es l'
  answers (collect at ∷ es) l = answers es (gc at ttl l)

  -- A bucket of one user, from the entry that there is for him.
  unfoldable pub own_answers : List Event → Option (Entry L) → List Bool
  own_answers [] o = []
  own_answers (request uid used at ∷ es) o =
      let (fine, x) = b.allow at (limiter_of b o) in
      fine ∷ own_answers es (some (record { limiter = x; last_use = used }))
  own_answers (collect at ∷ es) o = own_answers es (kept at ttl o)

-- The events that concern a user.
abbrev pub concerns : ℕ → Event → Bool
concerns k (request uid used at) = uid == k
concerns k (collect at) = true

module _ {L : Type 0} where
  -- The keys of the map are distinct.
  abbrev Distinct : List (ℕ × Entry L) → Type 0
  Distinct [] = Unit
  Distinct ((j, e) ∷ m) = (lookup j m ≡ none) × Distinct m

  insert-Distinct :
      (k : ℕ) (e : Entry L) (m : List (ℕ × Entry L)) → Distinct m → Distinct (insert k e m)
  unfolding lookup insert
  insert-Distinct k e [] h = (refl, tt)
  insert-Distinct k e ((j, d) ∷ m) h = elim (Bool-cases (j == k)) [
    | inl same ↦ rw same (ground (arith, h.0, ==_iff j k), h.1)
    | inr other ↦ rw other (
      lookup-insert k j e m ∙ ground (arith, h.0, ==_iff j k, ==_iff k j),
      insert-Distinct k e m h.1,
    )
  ]

  drop_idle-none :
      (cutoff k : ℕ) (m : List (ℕ × Entry L))
      → lookup k m ≡ none
      → lookup k (drop_idle cutoff m) ≡ none
  unfolding lookup drop_idle
  drop_idle-none cutoff k [] h = refl
  drop_idle-none cutoff k ((j, e) ∷ m) h = ground (arith, drop_idle-none cutoff k m)

  drop_idle-Distinct :
      (cutoff : ℕ) (m : List (ℕ × Entry L)) → Distinct m → Distinct (drop_idle cutoff m)
  unfolding drop_idle
  drop_idle-Distinct cutoff [] h = tt
  drop_idle-Distinct cutoff ((j, e) ∷ m) h = elim (Bool-cases (ltb e.last_use cutoff)) [
    | inl old ↦ rw old (drop_idle-Distinct cutoff m h.1)
    | inr new ↦ rw new (drop_idle-none cutoff j m h.0, drop_idle-Distinct cutoff m h.1)
  ]

  abbrev newer : ℕ → Option (Entry L) → Option (Entry L)
  newer cutoff none = none
  newer cutoff (some e) = if ltb e.last_use cutoff then none else some e

  lookup-drop_idle-newer :
      (cutoff k : ℕ) (m : List (ℕ × Entry L))
      → Distinct m
      → lookup k (drop_idle cutoff m) ≡ newer cutoff (lookup k m)
  unfolding lookup drop_idle
  lookup-drop_idle-newer cutoff k [] h = refl
  lookup-drop_idle-newer cutoff k ((j, e) ∷ m) h = elim (Bool-cases (j == k)) [
    | inl same ↦
        let gone : lookup k m ≡ none = ground (arith, h.0, ==_iff j k) in
        ground (arith, same, drop_idle-none cutoff k m gone)
    | inr other ↦ ground (arith, other, lookup-drop_idle-newer cutoff k m h.1)
  ]

  kept_zero : (time n : ℕ) (o : Option (Entry L)) → (n == 0) ≡ true → kept time (pos n) o ≡ o
  kept_zero time n none h = refl
  kept_zero time n (some e) h = rw h refl

  kept-newer :
      (time n : ℕ) (o : Option (Entry L))
      → (n == 0) ≡ false
      → kept time (pos n) o ≡ newer (time - n) o
  kept-newer time n none h = refl
  kept-newer time n (some e) h = rw h refl

  kept_negative : (time n : ℕ) (o : Option (Entry L)) → kept time (negsuc n) o ≡ o
  kept_negative time n none = refl
  kept_negative time n (some e) = refl

  lookup-gc :
      (time k : ℕ) (ttl : ℤ) (l : PerUserLimiter L)
      → Distinct l.per_user
      → lookup k (gc time ttl l).per_user ≡ kept time ttl (lookup k l.per_user)
  unfolding gc
  lookup-gc time k (pos n) l h = elim (Bool-cases (n == 0)) [
    | inl never ↦ rw (never, kept_zero time n (lookup k l.per_user) never) refl
    | inr often ↦
        rw (often, kept-newer time n (lookup k l.per_user) often)
          (lookup-drop_idle-newer (time - n) k l.per_user h)
  ]
  lookup-gc time k (negsuc n) l h = sym (kept_negative time n (lookup k l.per_user))

  gc-Distinct :
      (time : ℕ) (ttl : ℤ) (l : PerUserLimiter L)
      → Distinct l.per_user
      → Distinct (gc time ttl l).per_user
  unfolding gc
  gc-Distinct time (pos n) l h = elim (Bool-cases (n == 0)) [
    | inl never ↦ rw never h
    | inr often ↦ rw often (drop_idle-Distinct (time - n) l.per_user h)
  ]
  gc-Distinct time (negsuc n) l h = h

module _ {L : Type 0} (b : Buckets L) where
  allow_user-Distinct :
      (used time uid : ℕ) (l : PerUserLimiter L)
      → Distinct l.per_user
      → Distinct (allow_user b used time uid l).1.per_user
  unfolding allow_user
  allow_user-Distinct used time uid l h = elim (Bool-cases (uid == 0)) [
    | inl anon ↦ rw anon h
    | inr user ↦ rw user (insert-Distinct uid _ l.per_user h)
  ]

  -- A request of a user with a token takes from that user's bucket.
  allow_user-own :
      (used time k : ℕ) (l : PerUserLimiter L)
      → k ≢ 0
      → ((allow_user b used time k l).0 ≡ (b.allow time (limiter_of b (lookup k l.per_user))).0)
        × (lookup k (allow_user b used time k l).1.per_user
            ≡ some (record {
              limiter = (b.allow time (limiter_of b (lookup k l.per_user))).1;
              last_use = used;
            }))
  unfolding allow_user
  allow_user-own used time k l user =
      let named : (k == 0) ≡ false = ground (arith, ==_iff k 0) in
      rw named (refl, lookup-insert k k _ l.per_user ∙ ground (arith, ==_iff k k))

module _ {L : Type 0} (b : Buckets L) (ttl : ℤ) where
  answers-Distinct :
      (k : ℕ) (es : List Event) (l : PerUserLimiter L)
      → k ≢ 0
      → Distinct l.per_user
      → map (λ r. r.1) (select (λ r. r.0 == k) (answers b ttl es l))
        ≡ own_answers b ttl (select (concerns k) es) (lookup k l.per_user)
  unfolding answers own_answers select
  answers-Distinct k [] l user h = refl
  answers-Distinct k (collect time ∷ es) l user h =
      answers-Distinct k es (gc time ttl l) user (gc-Distinct time ttl l h)
      ∙ ap (own_answers b ttl (select (concerns k) es)) (lookup-gc time k ttl l h)
  answers-Distinct k (request uid used time ∷ es) l user h =
      let rest = λ (id : ℕ).
        answers-Distinct k es (allow_user b used time id l).1 user
          (allow_user-Distinct b used time id l h) in
      elim (Bool-cases (uid == k)) [
        | inl same ↦
            let e : uid ≡ k = ground (arith, ==_iff uid k) in
            let yes : (k == k) ≡ true = ground (arith, ==_iff k k) in
            let own = allow_user-own b used time k l user in
            rw (e, yes, own.0)
              (ap (λ t. (b.allow time (limiter_of b (lookup k l.per_user))).0 ∷ t)
                (rest k ∙ ap (own_answers b ttl (select (concerns k) es)) own.1))
        | inr other ↦ rw other (
            rest uid
            ∙ ap (own_answers b ttl (select (concerns k) es))
                (lookup-allow_user b used time uid k l (ground (arith, ==_iff uid k))))
      ]

-- From a limiter without entries on, whatever requests the users make and in whatever order, and
-- whenever idle entries are collected, each user with a token gets the answers that a bucket of
-- that user's own would give, to that user's requests alone, with the same collections.
pub answers-own :
    {L : Type 0} (b : Buckets L) (ttl : ℤ) (k : ℕ) (es : List Event)
    → k ≢ 0
    → map (λ r. r.1) (select (λ r. r.0 == k) (answers b ttl es (new_per_user_limiter b)))
      ≡ own_answers b ttl (select (concerns k) es) none
unfolding new_per_user_limiter lookup
answers-own b ttl k es user = answers-Distinct b ttl k es (new_per_user_limiter b) user tt
