-- ===== src/Service/Tasks/Pages.antt =====
-- The pages of a list, one after another (`List` of internal/service/task_service.go).
use secunda_homework.Base.{
  ℕ, zero, suc, ◌+◌, ◌*◌, ◌≤◌, ◌<◌, pos, int_max, false, not, ◌&&◌, ◌==◌, Option, none, some, List,
  [], ◌∷◌, ◌++◌, map, ◌≡◌, refl, sym, ap, ◌∙◌, arith, leb, length, take, drop, select, find,
}
use secunda_homework.Text.{is_empty}
use secunda_homework.Entity.TaskStatus
use secunda_homework.Entity.Rows.{Task, TeamMember}
use secunda_homework.Dto.Filter.{TaskFilter}
use secunda_homework.Dto.Filter.Laws.{offset_fits}
use secunda_homework.Dto.Responses.{TaskResponse}
use secunda_homework.Cache.{Cache}
use secunda_homework.Store.State.{Db, World, Env, next_step}
use secunda_homework.Store.Monad.{M, ok, pure, ◌>>=◌, bind-step}
use secunda_homework.Store.Calls.{query}
use secunda_homework.Repository.Rows.{order_by, wrap}
use secunda_homework.Repository.Teams.{is_member, get_member}
use secunda_homework.Repository.Tasks.{list_tasks, count_tasks, task_list_where, window}
use secunda_homework.Service.Tasks.{list, list_from_db, to_task_response}
use secunda_homework.Service.Tasks.Effects.{Reads-list}
use secunda_homework.Service.Access.{not_found_as, require_member}
use secunda_homework.Service.TaskCache.{get_cached}
use secunda_homework.Service.TaskCache.Laws.{Reads-get_cached}

module _ {A : Type 0} where
  drop-nil : (n : ℕ) → drop {A = A} n [] ≡ []
  drop-nil zero = refl
  drop-nil (suc n) = refl

  take-nil : (n : ℕ) → take {A = A} n [] ≡ []
  take-nil zero = refl
  take-nil (suc n) = refl

  drop-drop : (k l : ℕ) (xs : List A) → drop l (drop k xs) ≡ drop (k + l) xs
  drop-drop zero l xs = let e : 0 + l ≡ l = omega arith in rw e
  drop-drop (suc k) l [] = drop-nil l ∙ sym (drop-nil (suc k + l))
  drop-drop (suc k) l (x ∷ xs) =
      let e : suc k + l ≡ suc (k + l) = omega arith in rw e (drop-drop k l xs)

  take_both : (l m : ℕ) (xs : List A) → take l xs ++ take m (drop l xs) ≡ take (l + m) xs
  take_both zero m xs = let e : 0 + m ≡ m = omega arith in rw e
  take_both (suc l) m [] = take-nil m ∙ sym (take-nil (suc l + m))
  take_both (suc l) m (x ∷ xs) =
      let e : suc l + m ≡ suc (l + m) = omega arith in rw e (ap (λ ys. x ∷ ys) (take_both l m xs))

  take_all : (n : ℕ) (xs : List A) → length xs ≤ n → take n xs ≡ xs
  take_all zero [] h = refl
  take_all zero (x ∷ xs) h = absurd (omega arith)
  take_all (suc n) [] h = refl
  take_all (suc n) (x ∷ xs) h = ap (λ ys. x ∷ ys) (take_all n xs (omega arith))

map_append : {A B : Type 0} (g : A → B) (xs ys : List A) → map g (xs ++ ys) ≡ map g xs ++ map g ys
map_append g [] ys = refl
map_append g (x ∷ xs) ys = ap (λ zs. g x ∷ zs) (map_append g xs ys)

next_rows : (n l : ℕ) → l + n * l ≡ suc n * l
next_rows n l = omega arith

next_offset : (p l : ℕ) → suc p * l ≡ p * l + l
next_offset p l = omega arith

module _ {R : Type 0} (env : Env) (cache : Option (Cache R)) (caller_id : ℕ) (f : TaskFilter)
    (l : ℕ) where
  -- The filter with a page, counted from 0.
  abbrev pub page : ℕ → TaskFilter
  page p = record f { page = pos (p + 1); limit = pos l }

  -- What a client reads: so many pages from one on.
  unfoldable pub read_pages : ℕ → ℕ → M R (List TaskResponse)
  read_pages p zero = pure []
  read_pages p (suc n) = do
    resp ← list env cache caller_id (page p)
    rest ← read_pages (suc p) n
    pure (resp.items ++ rest)

  -- The live tasks that the filter asks for, in the order of their keys.
  abbrev pub asked : Db → List Task
  asked d = order_by (λ a b. leb a.id b.id) (select (task_list_where env.collate f) d.tasks)

  -- The checks of `List` that come before the cache.
  abbrev pub Allows : Db → Type 0
  Allows d =
      (f.team_id == 0 ≡ false)
      × (not (is_empty f.status) && not (TaskStatus.is_valid f.status) ≡ false)
      × ((m : TeamMember) × (find (is_member f.team_id caller_id) d.members ≡ some m))

  module _ (up : (n : ℕ) → env.db_fails n ≡ false)
      (misses : (p : ℕ) (w : World R) → (get_cached env cache (page p) w).0 ≡ ok none) where
    list_from_db-page :
        (p : ℕ) (w : World R)
        → p < int_max
        → p * l < int_max
        → (list_from_db env cache (page p) w).0
          ≡ ok (record {
            items = map (to_task_response env.format_time) (take l (drop (p * l) (asked w.db)));
            meta = record {
              page = pos (p + 1);
              limit = pos l;
              total = length (select (task_list_where env.collate f) w.db.tasks);
            };
          })
    unfolding list_from_db list_tasks count_tasks query window task_list_where ◌>>=◌
    list_from_db-page p w small fits =
        let e = offset_fits (page p) p l refl refl small fits in simp (up, e)

    list-page :
        (p : ℕ) (w : World R)
        → Allows w.db
        → p < int_max
        → p * l < int_max
        → (list env cache caller_id (page p) w).0
          ≡ ok (record {
            items = map (to_task_response env.format_time) (take l (drop (p * l) (asked w.db)));
            meta = record {
              page = pos (p + 1);
              limit = pos l;
              total = length (select (task_list_where env.collate f) w.db.tasks);
            };
          })
    unfolding list require_member get_member query wrap not_found_as ◌>>=◌
    list-page p w (team, status, (m, belongs)) small fits =
        let w1 = next_step w in
        let same : (get_cached env cache (page p) w1).1.db ≡ w.db =
          (Reads-get_cached env cache (page p)).same w1 in
        let rows = list_from_db-page p (get_cached env cache (page p) w1).1 small fits in
        simp (team, status, up, belongs, misses p w1) (rows ∙ rw same refl)

    read_pages-ok :
        (n p : ℕ) (w : World R)
        → Allows w.db
        → p + n < int_max
        → (p + n) * l < int_max
        → (read_pages p n w).0
          ≡ ok (map (to_task_response env.format_time) (take (n * l) (drop (p * l) (asked w.db))))
    unfolding read_pages
    read_pages-ok zero p w may small fits = let e : 0 * l ≡ 0 = omega arith in rw e
    read_pages-ok (suc n) p w may small fits =
        let g = to_task_response env.format_time in
        let rows = drop (p * l) (asked w.db) in
        let first = list-page p w may (omega arith) (omega arith) in
        let next = (list env cache caller_id (page p) w).1 in
        let tables : next.db ≡ w.db = (Reads-list env cache caller_id (page p)).same w in
        let same : asked next.db ≡ asked w.db = ap asked tables in
        let rest = read_pages-ok n (suc p) next (rw tables may) (omega arith) (omega arith) in
        let following : drop (suc p * l) (asked w.db) ≡ drop l rows =
          ap (λ k. drop k (asked w.db)) (next_offset p l)
          ∙ sym (drop-drop (p * l) l (asked w.db)) in
        let joined : map g (take l rows) ++ map g (take (n * l) (drop l rows))
            ≡ map g (take (suc n * l) rows) =
          sym (map_append g (take l rows) _)
          ∙ ap (map g) (take_both l (n * l) rows ∙ ap (λ k. take k rows) (next_rows n l)) in
        rw
          (
            bind-step (list env cache caller_id (page p))
                (λ resp. read_pages (suc p) n >>= λ rest. pure (resp.items ++ rest)) w first,
            bind-step (read_pages (suc p) n) (λ rest. pure (map g (take l rows) ++ rest)) next rest,
            same,
            following,
          )
          (ap ok joined)

    -- While no call of the driver fails and the cache, if there is one, never has a page, a member
    -- of the team of a filter with no status or a valid one who reads n pages of l tasks each, from
    -- the first one on, with n and n times l below 2^63 and enough of them for all the tasks that
    -- the filter selects, gets each of these tasks once, in the order of their keys.
    pub read_pages_complete :
        (n : ℕ) (w : World R)
        → Allows w.db
        → n < int_max
        → n * l < int_max
        → length (asked w.db) ≤ n * l
        → (read_pages 0 n w).0 ≡ ok (map (to_task_response env.format_time) (asked w.db))
    read_pages_complete n w may small fits enough =
        let e : 0 * l ≡ 0 = omega arith in
        read_pages-ok n 0 w may (omega arith) (omega arith)
        ∙ ap (λ rows. ok (map (to_task_response env.format_time) rows))
            (rw e (take_all (n * l) (asked w.db) enough))
