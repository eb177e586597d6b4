-- ===== src/Tests/Lists.antt =====
-- The list of tasks: asked for twice, and page by page.
use secunda_homework.Base.{
  arith, length, map, ℕ, pos, Bool, true, false, Option, none, some, List, [], ◌∷◌, ◌≡◌, refl, find,
  if◌then◌else◌,
}
use secunda_homework.Text.{Bytes, codes, beq, format_uint}
use secunda_homework.Text.Equality.{beq_refl}
use secunda_homework.Dto.Responses.{TasksListResponse}
use secunda_homework.Cache.{Cache}
use secunda_homework.Cache.Laws.{Remembers}
use secunda_homework.Store.State.{World, Env}
use secunda_homework.Store.Monad.{ok}
use secunda_homework.Repository.Teams.{is_member}
use secunda_homework.Service.Tasks.{list, to_task_response}
use secunda_homework.Service.Tasks.Pages.{page, asked, Allows, read_pages, read_pages_complete}
use secunda_homework.Service.Tasks.Cached.{list_repeats, list_crosses}
use secunda_homework.Service.TaskCache.{get_cached, decoded}
use secunda_homework.Tests.{calm, key_cache, start, tables, release, ann_in_core}
use secunda_homework.Tests.Tasks.{first_page}

-- A server that holds a value for each key.
abbrev server : Cache (Bytes → Bytes)
server = record {
  get = λ key r. (some (r key), r);
  set = λ key value ttl r. (true, λ k. if beq k key then value else r k);
  set_ex = λ key value ttl r. (true, λ k. if beq k key then value else r k);
  del = λ key r. (true, λ k. if beq k key then codes "" else r k);
}

server-Remembers : Remembers server
server-Remembers = record {
  set_get = λ key value ttl r. rw (beq_refl key);
  get_same = λ key r. refl;
}

abbrev answer : TasksListResponse
answer = record {
  items = to_task_response format_uint release ∷ [];
  meta = record { page = pos 1; limit = pos 20; total = 1 };
}

-- A coding of the one answer.
abbrev one_answer : Env
one_answer = record calm { marshal = λ resp. some (codes "x"); unmarshal = λ s. some answer }

abbrev empty_server : World (Bytes → Bytes)
empty_server = record { db = tables; seq = start.seq; redis = λ k. codes ""; step = 0 }

first_answer : (list one_answer (some server) 1 first_page empty_server).0 ≡ ok answer
unfolding list find secunda_homework.Base.wrap secunda_homework.Base.◌*ℤ◌ secunda_homework.Base.◌-ℤ◌
    secunda_homework.Dto.Filter.offset secunda_homework.Repository.Tasks.count_tasks
    secunda_homework.Repository.Tasks.list_tasks secunda_homework.Repository.Tasks.window
    secunda_homework.Repository.Teams.get_member secunda_homework.Service.Access.require_member
    secunda_homework.Service.TaskCache.decoded secunda_homework.Service.TaskCache.get_cached
    secunda_homework.Service.Tasks.list_from_db secunda_homework.Store.Calls.query
    secunda_homework.Store.Monad.◌>>=◌ secunda_homework.Base.select
    secunda_homework.Repository.Rows.order_by secunda_homework.Repository.Tasks.task_list_where
first_answer = refl

-- The tasks are gone, and the server is as it was left.
abbrev emptied : World (Bytes → Bytes)
emptied = record {
  db = record tables { tasks = [] };
  seq = start.seq;
  redis = (list one_answer (some server) 1 first_page empty_server).1.redis;
  step = 100;
}

ann_is_in : find (is_member 7 1) emptied.db.members ≡ some ann_in_core
unfolding find
ann_is_in = refl

list_repeats_example : (list one_answer (some server) 1 first_page emptied).0 ≡ ok answer
list_repeats_example =
    list_repeats one_answer server server-Remembers first_page answer (codes "x") refl refl refl 1 1
      empty_server emptied ann_in_core first_answer refl refl ann_is_in

-- The bug at one request: the second page size gets the answer of the first.
list_crosses_example :
    (list one_answer
      (some server)
      1
      (record first_page { limit = pos 5; assignee_id = some 2 })
      emptied).0
    ≡ ok answer
list_crosses_example =
    list_crosses one_answer server server-Remembers first_page answer (codes "x") refl refl refl
      (pos 5) (some 2) 1 1 empty_server emptied ann_in_core first_answer refl refl ann_is_in

-- A server that does not answer.
abbrev down_cache : Cache (List Bytes)
down_cache = record key_cache { get = λ key r. (none, r) }

down_misses :
    (p : ℕ) (w : World (List Bytes))
    → (get_cached calm (some down_cache) (page calm (some down_cache) 1 first_page 1 p) w).0
      ≡ ok none
unfolding get_cached decoded
down_misses p w = refl

one_asked : length (asked calm (some down_cache) 1 first_page 1 tables) ≡ 1
unfolding find secunda_homework.Base.select secunda_homework.Repository.Rows.order_by
    secunda_homework.Repository.Tasks.task_list_where
one_asked = refl

ann_may_list : Allows calm (some down_cache) 1 first_page 1 tables
ann_may_list = (refl, refl, (ann_in_core, ann_is_in))

read_pages_complete_example :
    (read_pages calm (some down_cache) 1 first_page 1 0 3 start).0
    ≡ ok (map (to_task_response format_uint) (asked calm (some down_cache) 1 first_page 1 tables))
read_pages_complete_example =
    read_pages_complete calm (some down_cache) 1 first_page 1 (λ n. refl) down_misses 3 start
      ann_may_list (omega arith) (omega arith) (omega (arith, one_asked))
