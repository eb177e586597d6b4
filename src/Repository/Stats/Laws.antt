-- ===== src/Repository/Stats/Laws.antt =====
-- The report of the top creators: who is in it, and in which order.
use secunda_homework.Base.{
  ℕ, suc, ◌+◌, ◌≤◌, ◌<◌, true, false, List, [], ◌∷◌, map, ◌≡◌, refl, ap, ◌∙◌, ◌⊎◌, inl, inr, arith,
  any, select, take, length, All, ◌==◌, ==_iff, ltb, Bool-cases,
}
use secunda_homework.Text.{Bytes}
use secunda_homework.Entity.Rows.{User, Team}
use secunda_homework.Dto.Stats.{TopCreatorEntry}
use secunda_homework.Store.State.{Db}
use secunda_homework.Invariant.Tables.{Pairwise}
use secunda_homework.Repository.Rows.{order_by}
use secunda_homework.Repository.Rows.Order.{
  Pairwise-order_by, All-order_by, any-order_by, Pairwise-take, All-take, length-take, beyond_take,
}
use secunda_homework.Repository.Stats.{
  Creator, count, created_since, creators, ranks_before, entries, top_of_team,
}

-- More tasks, or as many and no later key.
abbrev pub IsAhead : (tasks id tasks' id' : ℕ) → Type 0
IsAhead m i n j = (n < m) ⊎ ((m ≡ n) × (i ≤ j))

-- Numbered from a first rank on.
abbrev pub IsNumbered : ℕ → List TopCreatorEntry → Type 0
IsNumbered n [] = Unit
IsNumbered n (e ∷ es) = (e.rank ≡ n) × IsNumbered (n + 1) es

abbrev pub tasks_of : ℕ → Db → Team → ℕ → ℕ
tasks_of since d team id = count (created_since since team.id id) d.tasks

pub record IsTop (since limit : ℕ) (d : Db) (team : Team) (es : List TopCreatorEntry) : Type 0 where
  pub ranks : IsNumbered 1 es
  pub order : Pairwise (λ a b. IsAhead a.task_count a.user_id b.task_count b.user_id) es
  pub bounded : length es ≤ limit
  pub counts : All (λ e. (e.task_count ≡ tasks_of since d team e.user_id) × (0 < e.task_count)) es
  pub complete :
      (id : ℕ)
      → any (λ u. u.id == id) d.users ≡ true
      → 0 < tasks_of since d team id
      → (any (λ e. e.user_id == id) es ≡ true)
        ⊎ ((length es ≡ limit)
            × All (λ e. IsAhead e.task_count e.user_id (tasks_of since d team id) id) es)

abbrev IsBefore : Creator → Creator → Type 0
IsBefore a b = IsAhead a.tasks a.user.id b.tasks b.user.id

ranks_before-IsBefore : (a b : Creator) → ranks_before a b ≡ true → IsBefore a b
ranks_before-IsBefore a b h = ground arith

ranks_before_total : (a b : Creator) → ranks_before a b ≡ false → ranks_before b a ≡ true
ranks_before_total a b h = ground arith

ranks_before_trans :
    (a b c : Creator) → ranks_before a b ≡ true → ranks_before b c ≡ true → ranks_before a c ≡ true
ranks_before_trans a b c h k = ground arith

module _ (team : Team) (from to : Bytes) where
  All-entries :
      (P : Creator → Type 0) (Q : TopCreatorEntry → Type 0) (n : ℕ) (cs : List Creator)
      → ((c : Creator) (m : ℕ)
          → P c
          → Q (record {
            team_id = team.id;
            team_name = team.name;
            user_id = c.user.id;
            user_name = c.user.name;
            user_email = c.user.email;
            task_count = c.tasks;
            rank = m;
            window_from = from;
            window_to = to;
          }))
      → All P cs
      → All Q (entries team from to n cs)
  unfolding entries
  All-entries P Q n [] f h = tt
  All-entries P Q n (c ∷ cs) f h = (f c n h.0, All-entries P Q (n + 1) cs f h.1)

  entries-IsNumbered : (n : ℕ) (cs : List Creator) → IsNumbered n (entries team from to n cs)
  unfolding entries
  entries-IsNumbered n [] = tt
  entries-IsNumbered n (c ∷ cs) = (refl, entries-IsNumbered (n + 1) cs)

  length-entries : (n : ℕ) (cs : List Creator) → length (entries team from to n cs) ≡ length cs
  unfolding entries
  length-entries n [] = refl
  length-entries n (c ∷ cs) = ap suc (length-entries (n + 1) cs)

  any-entries :
      (id n : ℕ) (cs : List Creator)
      → any (λ e. e.user_id == id) (entries team from to n cs) ≡ any (λ c. c.user.id == id) cs
  unfolding entries any
  any-entries id n [] = refl
  any-entries id n (c ∷ cs) = rw (any-entries id (n + 1) cs)

  Pairwise-entries :
      (n : ℕ) (cs : List Creator)
      → Pairwise (λ a b. ranks_before a b ≡ true) cs
      → Pairwise
          (λ a b. IsAhead a.task_count a.user_id b.task_count b.user_id)
          (entries team from to n cs)
  unfolding entries
  Pairwise-entries n [] h = tt
  Pairwise-entries n (c ∷ cs) h = (
    All-entries (λ b. ranks_before c b ≡ true) _ (n + 1) cs
        (λ b m before. ranks_before-IsBefore c b before) h.0,
    Pairwise-entries (n + 1) cs h.1,
  )

module _ (since : ℕ) (d : Db) (team : Team) where
  -- The number of tasks of a creator, which is not 0.
  abbrev Counted : Creator → Type 0
  Counted c = (c.tasks ≡ tasks_of since d team c.user.id) × (0 < c.tasks)

  abbrev creators_among : List User → List Creator
  creators_among users =
      select (λ c. ltb 0 c.tasks)
        (map (λ u. record { user = u; tasks = tasks_of since d team u.id }) users)

  creators-Counted : (users : List User) → All Counted (creators_among users)
  unfolding select
  creators-Counted [] = tt
  creators-Counted (u ∷ us) = elim (Bool-cases (ltb 0 (tasks_of since d team u.id))) [
    | inl some_task ↦ rw some_task ((refl, ground arith), creators-Counted us)
    | inr no_task ↦ rw no_task (creators-Counted us)
  ]

  any-creators :
      (id : ℕ) (users : List User)
      → any (λ u. u.id == id) users ≡ true
      → 0 < tasks_of since d team id
      → any (λ c. c.user.id == id) (creators_among users) ≡ true
  unfolding select any
  any-creators id [] h k = h
  any-creators id (u ∷ us) h k = elim (Bool-cases (u.id == id)) [
    | inl same ↦
        let key = (==_iff u.id id).0 same in
        let some_task : ltb 0 (tasks_of since d team u.id) ≡ true = rw key (ground arith) in
        rw (some_task, same) refl
    | inr other ↦
        let rest = any-creators id us (ground arith) k in
        elim (Bool-cases (ltb 0 (tasks_of since d team u.id))) [
          | inl some_task ↦ rw (some_task, other) rest
          | inr no_task ↦ rw no_task rest
        ]
  ]

  -- The report of the top creators of a team is numbered from 1, sorted by more tasks and then by
  -- the lower user key, no longer than its limit, and counts for each user the live tasks created
  -- in the team since the given time, at least one; a user with such a task who is missing is
  -- behind all of a full list.
  pub top_of_team-IsTop :
      (from to : Bytes) (limit : ℕ)
      → IsTop since limit d team (top_of_team since from to limit d team)
  unfolding top_of_team creators
  top_of_team-IsTop from to limit =
      let ranking = order_by ranks_before (creators_among d.users) in
      let best = take limit ranking in
      let sorted =
        Pairwise-order_by ranks_before ranks_before_total ranks_before_trans
          (creators_among d.users) in
      let counted =
        All-order_by ranks_before Counted (creators_among d.users) (creators-Counted d.users) in
      record {
        ranks = entries-IsNumbered team from to 1 best;
        order = Pairwise-entries team from to 1 best (Pairwise-take _ limit ranking sorted);
        bounded = rw (length-entries team from to 1 best) (length-take limit ranking);
        counts =
            All-entries team from to Counted _ 1 best (λ c m h. h)
              (All-take Counted limit ranking counted);
        complete = λ id known some_task. elim (Bool-cases (any (λ c. c.user.id == id) best)) [
          | inl listed ↦ inl (any-entries team from to id 1 best ∙ listed)
          | inr unlisted ↦
              let there =
                any-order_by ranks_before (λ c. c.user.id == id) (creators_among d.users)
                ∙ any-creators id d.users known some_task in
              let (c, (same, (of_c, (full, after)))) =
                beyond_take _ Counted (λ c. c.user.id == id) limit ranking sorted counted there
                  unlisted in
              let key = (==_iff c.user.id id).0 same in
              inr (
                length-entries team from to 1 best ∙ full,
                All-entries team from to (λ b. ranks_before b c ≡ true) _ 1 best
                    (λ b m before. rw (← key, ← of_c.0) (ranks_before-IsBefore b c before)) after,
              )
        ];
      }
