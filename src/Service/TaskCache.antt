-- ===== src/Service/TaskCache.antt =====
-- internal/service/task_cache.go: the cache of task lists. A missing cache is `none`.
pub mod Laws
pub mod Keys
pub mod Invalidate
use secunda_homework.Base.{
  ℕ, zero, suc, ℤ, pos, ◌+◌, Bool, true, false, Option, none, some, List, [], ◌∷◌, ◌++◌,
  if◌then◌else◌,
}
use secunda_homework.Text.{Bytes, codes, is_empty, format_uint, format_int}
use secunda_homework.Dto.Filter.{TaskFilter}
use secunda_homework.Dto.Responses.{TasksListResponse}
use secunda_homework.Cache.{Cache}
use secunda_homework.Store.State.{World, Env, Err, failed}
use secunda_homework.Store.Monad.{M, Result, ok, err, pure, ◌>>=◌, ◌>>◌}

-- Five minutes, in nanoseconds.
abbrev pub task_list_cache_ttl : ℕ
task_list_cache_ttl = 300_000_000_000

-- The format string `task:list:team:%d:status:%s:page:%d`.
unfoldable pub cache_key : ℕ → Bytes → ℤ → Bytes
cache_key team_id status page =
    codes "task:list:team:"
    ++ (format_uint team_id
        ++ (codes ":status:" ++ (status ++ (codes ":page:" ++ format_int page))))

unfoldable pub task_list_cache_key : TaskFilter → Bytes
task_list_cache_key f =
    cache_key f.team_id (if is_empty f.status then codes "any" else f.status) f.page

-- What a hit gives; a failure, an empty string and a value that cannot be read are misses.
unfoldable pub decoded :
    (Bytes → Option TasksListResponse) → Option Bytes → Option TasksListResponse
decoded unmarshal none = none
decoded unmarshal (some raw) = if is_empty raw then none else unmarshal raw

abbrev pub cached_statuses : List Bytes
cached_statuses = codes "any" ∷ codes "todo" ∷ codes "in_progress" ∷ codes "done" ∷ []

abbrev pub succeeded : Bool → Result (Unit {0})
succeeded true = ok tt
succeeded false = err failed

module _ {R : Type 0} where
  -- `Cache.Del`.
  unfoldable pub del_key : Cache R → Bytes → M R (Unit {0})
  del_key c key w = let (fine, r) = c.del key w.redis in (succeeded fine, record w { redis = r })

  -- The pages of one status, the first page and how many are left given.
  unfoldable pub invalidate_pages : Cache R → ℕ → Bytes → ℕ → ℕ → M R (Unit {0})
  invalidate_pages c team_id status page zero = pure tt
  invalidate_pages c team_id status page (suc rounds) =
      del_key c (cache_key team_id status (pos page)) >>= λ _.
      invalidate_pages c team_id status (page + 1) rounds

  unfoldable pub invalidate_statuses : Cache R → ℕ → List Bytes → M R (Unit {0})
  invalidate_statuses c team_id [] = pure tt
  invalidate_statuses c team_id (s ∷ ss) =
      invalidate_pages c team_id s 1 100 >>= λ _. invalidate_statuses c team_id ss

  unfoldable pub invalidate : Option (Cache R) → ℕ → M R (Unit {0})
  invalidate none team_id = pure tt
  invalidate (some c) team_id = invalidate_statuses c team_id cached_statuses

  -- `Get`; its only error is a miss, `none`.
  unfoldable pub get_cached : Env → Option (Cache R) → TaskFilter → M R (Option TasksListResponse)
  get_cached env none f w = (ok none, w)
  get_cached env (some c) f w =
      let (reply, r) = c.get (task_list_cache_key f) w.redis in
      (ok (decoded env.unmarshal reply), record w { redis = r })

  abbrev pub stored : Cache R → Bytes → Option Bytes → M R (Unit {0})
  stored c key none w = (ok tt, w)
  stored c key (some raw) w =
      let (fine, r) = c.set key raw task_list_cache_ttl w.redis in
      (succeeded fine, record w { redis = r })

  unfoldable pub store : Env → Option (Cache R) → TaskFilter → TasksListResponse → M R (Unit {0})
  store env none f resp = pure tt
  store env (some c) f resp = stored c (task_list_cache_key f) (env.marshal resp)
