-- ===== src/Service/TaskCache/Invalidate.antt =====
-- After the lists of a team are invalidated, none of its first hundred pages is answered from the
-- cache.
use secunda_homework.Base.{
  ℕ, zero, suc, ◌+◌, ◌≤◌, ◌<◌, pos, Bool, true, false, none, some, List, [], ◌∷◌, ◌≡◌, inl, inr,
  refl, arith, if◌then◌else◌, Bool-cases, ◌==◌, ==_iff,
}
use secunda_homework.Text.{Bytes, codes, is_empty}
use secunda_homework.Text.Equality.{OneOf}
use secunda_homework.Cache.{Cache}
use secunda_homework.Cache.Laws.{Deletes}
use secunda_homework.Dto.Filter.{TaskFilter}
use secunda_homework.Store.State.{World, Env}
use secunda_homework.Store.Monad.{M, Result, ok, err, continue, bind-ok, ◌>>=◌}
use secunda_homework.Service.TaskCache.{
  cache_key, task_list_cache_key, decoded, cached_statuses, succeeded, del_key, invalidate_pages,
  invalidate_statuses, invalidate, get_cached,
}
use secunda_homework.Service.TaskCache.Keys.{IsFilterStatus, status_cases}

succeeded-ok : (b : Bool) {x : Unit {0}} → succeeded b ≡ ok x → b ≡ true
succeeded-ok true h = refl
succeeded-ok false h = cc

module _ {R : Type 0} (c : Cache R) (laws : Deletes c) where
  abbrev Gone : World R → Bytes → Type 0
  Gone w key = laws.held w.redis key ≡ none

  del_key-Gone :
      (key : Bytes) (w : World R) {x : Unit {0}}
      → (del_key c key w).0 ≡ ok x
      → Gone (del_key c key w).1 key
  unfolding del_key
  del_key-Gone key w h = laws.del_gone key w.redis (succeeded-ok _ h)

  del_key-keeps : (key other : Bytes) (w : World R) → Gone w other → Gone (del_key c key w).1 other
  unfolding del_key
  del_key-keeps key other w h = laws.del_keeps key other w.redis h

  continue-keeps :
      {A B : Type 0} (r : Result A) (f : A → M R B) (key : Bytes) (w : World R)
      → ((a : A) (w : World R) → Gone w key → Gone (f a w).1 key)
      → Gone w key
      → Gone (continue r f w).1 key
  continue-keeps (ok a) f key w hf h = hf a w h
  continue-keeps (err e) f key w hf h = h

  -- What holds through every deletion holds through a sequence of them.
  bind-keeps :
      {A B : Type 0} (m : M R A) (f : A → M R B) (key : Bytes) (w : World R)
      → ((w : World R) → Gone w key → Gone (m w).1 key)
      → ((a : A) (w : World R) → Gone w key → Gone (f a w).1 key)
      → Gone w key
      → Gone ((m >>= f) w).1 key
  unfolding ◌>>=◌
  bind-keeps m f key w hm hf h = continue-keeps (m w).0 f key (m w).1 hf (hm w h)

  pages-keep :
      (team_id : ℕ) (status : Bytes) (page rounds : ℕ) (key : Bytes) (w : World R)
      → Gone w key
      → Gone (invalidate_pages c team_id status page rounds w).1 key
  unfolding invalidate_pages
  pages-keep team_id status page zero key w h = h
  pages-keep team_id status page (suc rounds) key w h =
      bind-keeps _ _ key w (del_key-keeps _ key)
        (λ _. pages-keep team_id status (page + 1) rounds key) h

  statuses-keep :
      (team_id : ℕ) (ss : List Bytes) (key : Bytes) (w : World R)
      → Gone w key
      → Gone (invalidate_statuses c team_id ss w).1 key
  unfolding invalidate_statuses
  statuses-keep team_id [] key w h = h
  statuses-keep team_id (s ∷ ss) key w h =
      bind-keeps _ _ key w (pages-keep team_id s 1 100 key) (λ _. statuses-keep team_id ss key) h

  pages-Gone :
      (team_id : ℕ) (status : Bytes) (page rounds p : ℕ) (w : World R) {x : Unit {0}}
      → (invalidate_pages c team_id status page rounds w).0 ≡ ok x
      → page ≤ p
      → p < page + rounds
      → Gone (invalidate_pages c team_id status page rounds w).1 (cache_key team_id status (pos p))
  unfolding invalidate_pages
  pages-Gone team_id status page zero p w h low high = absurd (omega arith)
  pages-Gone team_id status page (suc rounds) p w h low high =
      let key = cache_key team_id status (pos page) in
      let (a, first, whole, rest) =
        bind-ok (del_key c key) (λ _. invalidate_pages c team_id status (page + 1) rounds) w h in
      let w1 = (del_key c key w).1 in
      rw whole (elim (Bool-cases (p == page)) [
        | inl same ↦
            rw ((==_iff p page).0 same)
              (pages-keep team_id status (page + 1) rounds key w1 (del_key-Gone key w first))
        | inr other ↦
            pages-Gone team_id status (page + 1) rounds p w1 rest (ground (arith, ==_iff p page))
              (omega arith)
      ])

  statuses-Gone :
      (team_id : ℕ) (ss : List Bytes) (status : Bytes) (p : ℕ) (w : World R) {x : Unit {0}}
      → (invalidate_statuses c team_id ss w).0 ≡ ok x
      → OneOf status ss
      → 1 ≤ p
      → p ≤ 100
      → Gone (invalidate_statuses c team_id ss w).1 (cache_key team_id status (pos p))
  unfolding invalidate_statuses
  statuses-Gone team_id [] status p w h one low high = absurd one
  statuses-Gone team_id (s ∷ ss) status p w h (inl e) low high =
      let (a, first, whole, rest) =
        bind-ok (invalidate_pages c team_id s 1 100) (λ _. invalidate_statuses c team_id ss) w h in
      rw whole (
        statuses-keep team_id ss _ _
          (rw e (pages-Gone team_id s 1 100 p w first low (omega arith))))
  statuses-Gone team_id (s ∷ ss) status p w h (inr one) low high =
      let (a, first, whole, rest) =
        bind-ok (invalidate_pages c team_id s 1 100) (λ _. invalidate_statuses c team_id ss) w h in
      rw whole (statuses-Gone team_id ss status p _ rest one low high)

  -- A filter's status, as its key spells it, is one of the spellings that are invalidated.
  shown-OneOf :
      (s : Bytes) → IsFilterStatus s → OneOf (if is_empty s then codes "any" else s) cached_statuses
  shown-OneOf s h = elim (status_cases s h) [
    | inl e ↦ rw e (inl refl)
    | inr (inl e) ↦ rw e (inr (inl refl))
    | inr (inr (inl e)) ↦ rw e (inr (inr (inl refl)))
    | inr (inr (inr e)) ↦ rw e (inr (inr (inr (inl refl))))
  ]

  -- Where the invalidation of a team's lists succeeds on a cache that keeps its promises, a request
  -- for one of the pages 1 to 100 of that team, whatever its assignee and limit and with no status
  -- or a valid one, misses the cache.
  pub invalidate-misses :
      (env : Env) (f : TaskFilter) (p : ℕ) (w : World R)
      → IsFilterStatus f.status
      → f.page ≡ pos p
      → 1 ≤ p
      → p ≤ 100
      → (invalidate (some c) f.team_id w).0 ≡ ok tt
      → (get_cached env (some c) f (invalidate (some c) f.team_id w).1).0 ≡ ok none
  unfolding invalidate get_cached decoded task_list_cache_key
  invalidate-misses env f p w hs hp low high h =
      let gone =
        statuses-Gone f.team_id cached_statuses
          (if is_empty f.status then codes "any" else f.status) p w h (shown-OneOf f.status hs) low
          high in
      let miss = laws.get_missing _ _ gone in rw (hp, miss)
