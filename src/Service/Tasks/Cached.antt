-- ===== src/Service/Tasks/Cached.antt =====
-- What a list that was returned means for the requests that follow.
use secunda_homework.Base.{
  ℕ, ℤ, Bool, true, false, not, ◌&&◌, ◌==◌, Option, none, some, ◌≡◌, refl, arith, find,
}
use secunda_homework.Text.{Bytes, is_empty}
use secunda_homework.Entity.TaskStatus
use secunda_homework.Entity.Rows.{TeamMember}
use secunda_homework.Dto.Filter.{TaskFilter}
use secunda_homework.Dto.Responses.{TasksListResponse}
use secunda_homework.Cache.{Cache}
use secunda_homework.Cache.Laws.{Remembers}
use secunda_homework.Store.State.{World, Env, Err, validation}
use secunda_homework.Store.Monad.{ok, pure, stop_if, attempt, ◌>>=◌, bind-ok}
use secunda_homework.Store.Calls.{query}
use secunda_homework.Repository.Tasks.{list_tasks, count_tasks}
use secunda_homework.Repository.Teams.{is_member, get_member}
use secunda_homework.Service.Access.{not_found_as, require_member}
use secunda_homework.Service.TaskCache.{store, get_cached, decoded, task_list_cache_key}
use secunda_homework.Service.Tasks.{list, list_from_db, hit_or_read}

module _ {R : Type 0} (env : Env) (c : Cache R) (law : Remembers c) (f : TaskFilter)
    (resp : TasksListResponse) (raw : Bytes) (coded : env.marshal resp ≡ some raw)
    (given : is_empty raw ≡ false) (read : env.unmarshal raw ≡ some resp) where
  -- The next request with the key hits.
  abbrev Hits : World R → Type 0
  Hits w = decoded env.unmarshal (c.get (task_list_cache_key f) w.redis).0 ≡ some resp

  store-Hits :
      (r : TasksListResponse) (w : World R)
      → ((attempt (store env (some c) f r) >>= λ x. pure r) w).0 ≡ ok resp
      → Hits ((attempt (store env (some c) f r) >>= λ x. pure r) w).1
  unfolding store ◌>>=◌ decoded
  store-Hits r w h =
      let same : r ≡ resp = ground arith in
      rw (same, coded, law.set_get (task_list_cache_key f) raw _ w.redis, given) read

  list_from_db-Hits :
      (w : World R)
      → (list_from_db env (some c) f w).0 ≡ ok resp
      → Hits (list_from_db env (some c) f w).1
  unfolding list_from_db
  list_from_db-Hits w h =
      let (rows, first, whole, rest) = bind-ok (list_tasks env f) _ w h in
      let (total, second, whole', rest') = bind-ok (count_tasks env f) _ _ rest in
      rw (whole, whole') (store-Hits _ _ rest')

  hit_or_read-Hits :
      (o : Option TasksListResponse) (w : World R)
      → (get_cached env (some c) f w).0 ≡ ok o
      → (hit_or_read env (some c) f o (get_cached env (some c) f w).1).0 ≡ ok resp
      → Hits (hit_or_read env (some c) f o (get_cached env (some c) f w).1).1
  unfolding get_cached
  hit_or_read-Hits none w e h = list_from_db-Hits _ h
  hit_or_read-Hits (some r) w e h = rw (law.get_same (task_list_cache_key f) w.redis) (ground arith)

  list-Hits :
      (caller_id : ℕ) (w : World R)
      → (list env (some c) caller_id f w).0 ≡ ok resp
      → Hits (list env (some c) caller_id f w).1
  unfolding list
  list-Hits caller_id w h =
      let (x, a, whole_a, rest_a) = bind-ok _ _ w h in
      let (m, b, whole_b, rest_b) = bind-ok (require_member env f.team_id caller_id) _ _ rest_a in
      let (y, d, whole_d, rest_d) = bind-ok _ _ _ rest_b in
      let (o, e, whole_e, rest_e) = bind-ok (get_cached env (some c) f) _ _ rest_d in
      rw (whole_a, whole_b, whole_d, whole_e) (hit_or_read-Hits o _ e rest_e)

  stop_if-ok :
      (b : Bool) (e : Err) (w : World R) {x : Unit {0}} → (stop_if b e w).0 ≡ ok x → b ≡ false
  stop_if-ok true e w h = absurd cc
  stop_if-ok false e w h = refl

  list_passes :
      (caller_id : ℕ) (w : World R)
      → (list env (some c) caller_id f w).0 ≡ ok resp
      → (f.team_id == 0 ≡ false)
        × (not (is_empty f.status) && not (TaskStatus.is_valid f.status) ≡ false)
  unfolding list
  list_passes caller_id w h =
      let (x, a, whole_a, rest_a) = bind-ok (stop_if (f.team_id == 0) (validation none)) _ w h in
      let (m, b, whole_b, rest_b) = bind-ok (require_member env f.team_id caller_id) _ _ rest_a in
      let (y, d, whole_d, rest_d) =
        bind-ok
          (stop_if (not (is_empty f.status) && not (TaskStatus.is_valid f.status))
            (validation none))
          _ _ rest_b in
      (stop_if-ok _ _ _ a, stop_if-ok _ _ _ d)

  -- With a cache server that gives what was set, and a JSON coding that reads the answer back, a
  -- list that was returned is what every member of the team is answered for the same filter from
  -- then on, whatever the tables hold by then, while the server's state is as it was left and the
  -- membership can be read.
  pub list_repeats :
      (caller_id other_id : ℕ) (w w' : World R) (m : TeamMember)
      → (list env (some c) caller_id f w).0 ≡ ok resp
      → w'.redis ≡ (list env (some c) caller_id f w).1.redis
      → env.db_fails w'.step ≡ false
      → find (is_member f.team_id other_id) w'.db.members ≡ some m
      → (list env (some c) other_id f w').0 ≡ ok resp
  unfolding list require_member get_member query get_cached not_found_as ◌>>=◌
  list_repeats caller_id other_id w w' m h kept up belongs =
      let (team, status) = list_passes caller_id w h in
      let hit : Hits w' = rw kept (list-Hits caller_id w h) in simp (team, status, up, belongs, hit)

  -- With a cache server that gives what was set, and a JSON coding that reads the answer back, a
  -- list that was returned is what every member of the team is answered from then on for any other
  -- limit and assignee, with the same team, status and page, while the server's state is as it was
  -- left and the membership can be read.
  pub list_crosses :
      (limit : ℤ) (assignee_id : Option ℕ) (caller_id other_id : ℕ) (w w' : World R)
      (m : TeamMember)
      → (list env (some c) caller_id f w).0 ≡ ok resp
      → w'.redis ≡ (list env (some c) caller_id f w).1.redis
      → env.db_fails w'.step ≡ false
      → find (is_member f.team_id other_id) w'.db.members ≡ some m
      → (list env (some c) other_id (record f { limit = limit; assignee_id = assignee_id }) w').0
        ≡ ok resp
  unfolding list require_member get_member query get_cached not_found_as task_list_cache_key ◌>>=◌
  list_crosses limit assignee_id caller_id other_id w w' m h kept up belongs =
      let (team, status) = list_passes caller_id w h in
      let hit : Hits w' = rw kept (list-Hits caller_id w h) in simp (team, status, up, belongs, hit)
