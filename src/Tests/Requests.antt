-- ===== src/Tests/Requests.antt =====
-- Requests, query parameters, roles and cache keys at concrete values.
use secunda_homework.Base.{
  pos, negsuc, true, Option, none, some, List, [], ◌∷◌, ◌≡◌, ◌↔◌, inl, refl, sym, arith,
  if◌then◌else◌, find,
}
use secunda_homework.Text.{Bytes, codes, beq}
use secunda_homework.Entity.Role
use secunda_homework.Dto.Requests.{RegisterRequest, InviteRequest, CreateTaskRequest}
use secunda_homework.Dto.Validation.{validate_register, validate_invite, validate_create_task}
use secunda_homework.Dto.Validation.Laws.{IsRegistrable, validate_register_iff}
use secunda_homework.Dto.Filter.{TaskFilter, bind_task_filter, offset}
use secunda_homework.Dto.Filter.Laws.{IsBound, bind_task_filter-IsBound, offset_overflows}
use secunda_homework.Cache.Laws.{Deletes}
use secunda_homework.Store.Monad.{ok}
use secunda_homework.Service.TaskCache.{task_list_cache_key, invalidate, get_cached}
use secunda_homework.Service.TaskCache.Keys.{
  task_list_cache_key-ignores, task_list_cache_key_injective,
}
use secunda_homework.Service.TaskCache.Invalidate.{invalidate-misses}
use secunda_homework.Tests.{calm, key_cache, without, start}

abbrev query_string : Bytes → Bytes
query_string name =
    if beq name (codes "limit")
    then codes "1000"
    else if beq name (codes "page")
    then codes "-3"
    else codes ""

bind_task_filter-IsBound_example : IsBound (bind_task_filter query_string)
bind_task_filter-IsBound_example = bind_task_filter-IsBound query_string

abbrev third_page : TaskFilter
third_page = record {
  team_id = 7;
  status = codes "";
  assignee_id = none;
  page = pos 3;
  limit = pos 20;
}

abbrev far_page : TaskFilter
far_page = record third_page { page = pos 92233720368547760; limit = pos 100 }

offset_overflows_example : offset far_page ≡ negsuc 9223372036854775715
offset_overflows_example =
    offset_overflows far_page 92233720368547759 100 refl refl (omega arith) (omega arith)
      (omega arith)

abbrev ann_registers : RegisterRequest
ann_registers = record { email = codes "ann@x.io"; password = codes "password"; name = codes "Ann" }

validate_register_iff_example :
    (validate_register (λ s. true) ann_registers ≡ none) ↔ IsRegistrable (λ s. true) ann_registers
validate_register_iff_example = validate_register_iff (λ s. true) ann_registers

abbrev draft : CreateTaskRequest
draft = record {
  team_id = 7;
  title = codes " a ";
  description = none;
  status = codes "";
  assignee_id = none;
}

draft_passes : (validate_create_task draft).0 ≡ none
unfolding validate_create_task secunda_homework.Text.trim_space
draft_passes = refl

abbrev invites : InviteRequest
invites = record { user_id = 2; role = codes "Admin" }

invites_pass : (validate_invite invites).0 ≡ none
unfolding validate_invite Role.parse Role.to_lower beq
invites_pass = refl

abbrev narrow_page : TaskFilter
narrow_page = record third_page { limit = pos 1 }

task_list_cache_key_injective_example :
    (third_page.team_id ≡ narrow_page.team_id)
    × (third_page.status ≡ narrow_page.status)
    × (third_page.page ≡ narrow_page.page)
task_list_cache_key_injective_example =
    task_list_cache_key_injective third_page narrow_page (inl refl) (inl refl)
      (sym (task_list_cache_key-ignores third_page (pos 1) none))

held_keys : List Bytes → Bytes → Option Bytes
held_keys [] key = none
held_keys (k ∷ ks) key = if beq k key then some (codes "x") else held_keys ks key

key_cache-get :
    (key : Bytes) (r : List Bytes)
    → held_keys r key ≡ none
    → (key_cache.get key r).0 ≡ some (codes "")
unfolding find held_keys
key_cache-get key [] h = refl
key_cache-get key (k ∷ ks) h = ground (arith, key_cache-get key ks)

without-gone : (key : Bytes) (r : List Bytes) → held_keys (without key r) key ≡ none
unfolding held_keys
without-gone key [] = refl
without-gone key (k ∷ ks) = ground (arith, without-gone key ks)

without-keeps :
    (key k : Bytes) (r : List Bytes) → held_keys r k ≡ none → held_keys (without key r) k ≡ none
unfolding held_keys
without-keeps key k [] h = refl
without-keeps key k (x ∷ xs) h = ground (arith, without-keeps key k xs)

-- The list of keys keeps the promises of a cache.
key_cache-Deletes : Deletes key_cache
key_cache-Deletes = record {
  held = held_keys;
  get_missing = key_cache-get;
  del_gone = λ key r h. without-gone key r;
  del_keeps = without-keeps;
}

invalidation_succeeds : (invalidate (some key_cache) 7 start).0 ≡ ok tt
unfolding invalidate secunda_homework.Service.TaskCache.del_key
    secunda_homework.Service.TaskCache.invalidate_pages
    secunda_homework.Service.TaskCache.invalidate_statuses secunda_homework.Store.Monad.◌>>=◌
invalidation_succeeds = refl

invalidate-misses_example :
    (get_cached calm (some key_cache) third_page (invalidate (some key_cache) 7 start).1).0
    ≡ ok none
invalidate-misses_example =
    invalidate-misses key_cache key_cache-Deletes calm third_page 3 start (inl refl) refl
      (omega arith) (omega arith) invalidation_succeeds
