-- ===== src/Tests/Routes.antt =====
-- The task routes at concrete requests.
use secunda_homework.Base.{none, some, ◌≡◌, ◌≢◌, refl, arith}
use secunda_homework.Text.{codes, format_uint}
use secunda_homework.Handler.{get_task, update_task, shown, task_reply}
use secunda_homework.Handler.Laws.{get_task-access}
use secunda_homework.Service.Access.Laws.{access}
use secunda_homework.Tests.{calm, key_cache, start, tables}
use secunda_homework.Tests.Tasks.{finished}

get_task-access_example :
    (get_task calm (some key_cache) 1 (format_uint 3) start).0
    ≡ shown (task_reply calm (some key_cache) 200) (access tables 1 3)
get_task-access_example =
    get_task-access calm (some key_cache) 1 3 start (λ n. refl) (λ z. omega arith) (omega arith)

stranger_refused :
    (update_task calm (some key_cache) 2 (codes "3") (some finished) start).0.status ≡ 403
unfolding update_task format_uint secunda_homework.Base.any secunda_homework.Base.find
    secunda_homework.Base.update secunda_homework.Dto.Requests.has_any_update
    secunda_homework.Entity.TaskStatus.is_valid secunda_homework.Handler.answer
    secunda_homework.Handler.bad_request secunda_homework.Handler.write_service_error
    secunda_homework.Repository.History.insert_history
    secunda_homework.Repository.History.insert_history_tx
    secunda_homework.Repository.Rows.task_exists secunda_homework.Repository.Rows.user_exists
    secunda_homework.Repository.Rows.wrap secunda_homework.Repository.Tasks.apply_patch
    secunda_homework.Repository.Tasks.check_updated secunda_homework.Repository.Tasks.find_task
    secunda_homework.Repository.Tasks.find_task_with
    secunda_homework.Repository.Tasks.is_empty_patch secunda_homework.Repository.Tasks.update_task
    secunda_homework.Repository.Tasks.update_task_tx secunda_homework.Repository.Tasks.write_patch
    secunda_homework.Repository.Teams.get_member secunda_homework.Service.Access.not_found_as
    secunda_homework.Service.Access.require_member secunda_homework.Service.Access.visible_task
    secunda_homework.Service.Audit.build_history_entries
    secunda_homework.Service.Audit.build_patch_rich secunda_homework.Service.TaskCache.cache_key
    secunda_homework.Service.TaskCache.del_key secunda_homework.Service.TaskCache.invalidate
    secunda_homework.Service.TaskCache.invalidate_pages
    secunda_homework.Service.TaskCache.invalidate_statuses secunda_homework.Service.Tasks.change
    secunda_homework.Service.Tasks.get secunda_homework.Service.Tasks.insert_entries
    secunda_homework.Service.Tasks.record_changes secunda_homework.Service.Tasks.to_task_response
    secunda_homework.Service.Tasks.update secunda_homework.Service.Tasks.update_and_record
    secunda_homework.Store.Calls.begin secunda_homework.Store.Calls.check_result
    secunda_homework.Store.Calls.exec secunda_homework.Store.Calls.finish
    secunda_homework.Store.Calls.now secunda_homework.Store.Calls.query
    secunda_homework.Store.Calls.within_tx secunda_homework.Store.Monad.◌>>=◌
    secunda_homework.Text.beq secunda_homework.Text.format_int secunda_homework.Text.one_of
    secunda_homework.Text.parse_digits secunda_homework.Text.parse_uint
    secunda_homework.Text.trim_left secunda_homework.Text.trim_right
    secunda_homework.Text.trim_space
stranger_refused = refl

stranger_not_ok :
    (update_task calm (some key_cache) 2 (codes "3") (some finished) start).0.status ≢ 200
stranger_not_ok h = ground (arith, stranger_refused)
