-- ===== src/Service/TaskCache/Laws.antt =====
-- What the cache of task lists does to the tables (internal/service/task_cache.go).
use secunda_homework.Base.{ℕ, zero, suc, ◌+◌, List, [], ◌∷◌, Option, none, some, refl}
use secunda_homework.Text.{Bytes}
use secunda_homework.Dto.Filter.{TaskFilter}
use secunda_homework.Dto.Responses.{TasksListResponse}
use secunda_homework.Cache.{Cache}
use secunda_homework.Store.State.{Env}
use secunda_homework.Store.Effects.{Reads, Reads-pure, Reads-bind}
use secunda_homework.Service.TaskCache.{
  get_cached, store, del_key, invalidate_pages, invalidate_statuses, invalidate, stored,
  task_list_cache_key, cached_statuses,
}

module _ {R : Type 0} (env : Env) where
  pub Reads-get_cached :
      (cache : Option (Cache R)) (f : TaskFilter) → Reads (get_cached env cache f)
  unfolding get_cached
  Reads-get_cached none f = record { same = λ w. refl; same_seq = λ w. refl }
  Reads-get_cached (some c) f = record { same = λ w. refl; same_seq = λ w. refl }

  Reads-stored : (c : Cache R) (key : Bytes) (raw : Option Bytes) → Reads (stored c key raw)
  Reads-stored c key none = record { same = λ w. refl; same_seq = λ w. refl }
  Reads-stored c key (some raw) = record { same = λ w. refl; same_seq = λ w. refl }

  pub Reads-store :
      (cache : Option (Cache R)) (f : TaskFilter) (resp : TasksListResponse)
      → Reads (store env cache f resp)
  unfolding store
  Reads-store none f resp = Reads-pure tt
  Reads-store (some c) f resp = Reads-stored c (task_list_cache_key f) (env.marshal resp)

module _ {R : Type 0} where
  Reads-del_key : (c : Cache R) (key : Bytes) → Reads (del_key c key)
  unfolding del_key
  Reads-del_key c key = record { same = λ w. refl; same_seq = λ w. refl }

  Reads-invalidate_pages :
      (c : Cache R) (team_id : ℕ) (status : Bytes) (page rounds : ℕ)
      → Reads (invalidate_pages c team_id status page rounds)
  unfolding invalidate_pages
  Reads-invalidate_pages c team_id status page zero = Reads-pure tt
  Reads-invalidate_pages c team_id status page (suc rounds) =
      Reads-bind _ _ (Reads-del_key c _)
        (λ _. Reads-invalidate_pages c team_id status (page + 1) rounds)

  Reads-invalidate_statuses :
      (c : Cache R) (team_id : ℕ) (ss : List Bytes) → Reads (invalidate_statuses c team_id ss)
  unfolding invalidate_statuses
  Reads-invalidate_statuses c team_id [] = Reads-pure tt
  Reads-invalidate_statuses c team_id (s ∷ ss) =
      Reads-bind _ _ (Reads-invalidate_pages c team_id s 1 100)
        (λ _. Reads-invalidate_statuses c team_id ss)

  pub Reads-invalidate : (cache : Option (Cache R)) (team_id : ℕ) → Reads (invalidate cache team_id)
  unfolding invalidate
  Reads-invalidate none team_id = Reads-pure tt
  Reads-invalidate (some c) team_id = Reads-invalidate_statuses c team_id cached_statuses
