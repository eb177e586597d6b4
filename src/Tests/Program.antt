-- ===== src/Tests/Program.antt =====
-- The router at concrete requests.
use secunda_homework.Base.{
  ℕ, ℤ, pos, Bool, true, false, Option, none, some, List, [], ◌∷◌, length, ◌≡◌, refl, arith, ◌==◌,
  ◌-◌, ltb,
}
use secunda_homework.Text.{Bytes, codes, is_empty, format_uint}
use secunda_homework.Entity.Role
use secunda_homework.Entity.TaskStatus
use secunda_homework.Repository.Rows.{user_exists, team_exists}
use secunda_homework.Token.{parsed, new_token_manager}
use secunda_homework.Service.Auth.{Libraries}
use secunda_homework.Middleware.RateLimit.{Buckets, Entry, PerUserLimiter, lookup, gc}
use secunda_homework.Invariant.{IsSound}
use secunda_homework.Router.{
  Request, open_request, authed_request, post_register, post_teams, put_task, delete_task_by_id,
  get_orphan_tasks, Deps, App, serve, serve_all,
}
use secunda_homework.Router.Laws.{serve_all-IsSound}
use secunda_homework.Router.Refusals.{serve_refused}
use secunda_homework.Router.Trail.{serve_all-IsAudited}
use secunda_homework.Invariant.Trail.{IsAudited, last_value}
use secunda_homework.Repository.Stats.{top_of_team}
use secunda_homework.Repository.Stats.Laws.{IsTop, top_of_team-IsTop}
use secunda_homework.Tests.Limits.{countdown, limiter}
use secunda_homework.Tests.Tasks.{finished}
use secunda_homework.Tests.{calm, key_cache, start, tables, core}
use secunda_homework.Tests.Login.{plain, plain_jwt}

-- A package that takes a token for its subject.
abbrev open_libraries : Libraries
open_libraries = record plain {
  jwt = record plain_jwt {
    parse = λ key_of issuer slack at token.
        parsed
          (record {
            email = codes "ann@x.io";
            subject = token;
            issuer = issuer;
            issued_at = 0;
            expires_at = 5000;
            not_before = 0;
          })
          true;
  };
}

abbrev pub deps : Deps (List Bytes) ℕ
deps = record {
  env = calm;
  lib = open_libraries;
  cache = some key_cache;
  buckets = countdown;
  print = format_uint;
}

abbrev pub app : App (List Bytes) ℕ
app = record { world = start; limiter = limiter }

abbrev requests : List Request
requests =
    open_request (
      post_register (
        some
          (record { email = codes "eve@x.io"; password = codes "password"; name = codes "Eve" })))
    ∷ authed_request (codes "Bearer 1") (post_teams (some (record { name = codes "ops" })))
    ∷ authed_request (codes "") get_orphan_tasks
    ∷ []

abbrev pub changes : List Request
changes =
    authed_request (codes "Bearer 1") (put_task (codes "3") (some finished))
    ∷ authed_request (codes "Bearer 1") (delete_task_by_id (codes "3"))
    ∷ []

-- The first of them writes to the history.
changes_run : length (serve_all deps changes app).world.db.history ≡ 1
unfolding serve_all secunda_homework.Router.serve secunda_homework.Middleware.require_auth
    secunda_homework.Middleware.extract_bearer secunda_homework.Text.beq
    secunda_homework.Text.trim_space secunda_homework.Token.parse_token
    secunda_homework.Token.user_id secunda_homework.Text.parse_uint
    secunda_homework.Router.rate_limit secunda_homework.Middleware.RateLimit.allow_user lookup
    secunda_homework.Middleware.RateLimit.insert secunda_homework.Router.run_authed
    secunda_homework.Handler.update_task secunda_homework.Dto.Requests.has_any_update
    secunda_homework.Handler.answer secunda_homework.Handler.delete_task
    secunda_homework.Service.Tasks.delete secunda_homework.Repository.Tasks.soft_delete
    secunda_homework.Service.Tasks.update TaskStatus.is_valid
    secunda_homework.Service.Audit.build_patch_rich secunda_homework.Base.find
    secunda_homework.Base.any secunda_homework.Base.update
    secunda_homework.Repository.History.insert_history
    secunda_homework.Repository.History.insert_history_tx
    secunda_homework.Repository.Rows.task_exists secunda_homework.Repository.Rows.user_exists
    secunda_homework.Repository.Rows.wrap secunda_homework.Repository.Tasks.apply_patch
    secunda_homework.Repository.Tasks.check_updated secunda_homework.Repository.Tasks.find_task
    secunda_homework.Repository.Tasks.find_task_with
    secunda_homework.Repository.Tasks.is_empty_patch secunda_homework.Repository.Tasks.update_task
    secunda_homework.Repository.Tasks.update_task_tx secunda_homework.Repository.Tasks.write_patch
    secunda_homework.Repository.Teams.get_member secunda_homework.Service.Access.not_found_as
    secunda_homework.Service.Access.require_member secunda_homework.Service.Access.visible_task
    secunda_homework.Service.Audit.build_history_entries
    secunda_homework.Service.TaskCache.cache_key secunda_homework.Service.TaskCache.del_key
    secunda_homework.Service.TaskCache.invalidate
    secunda_homework.Service.TaskCache.invalidate_pages
    secunda_homework.Service.TaskCache.invalidate_statuses secunda_homework.Service.Tasks.change
    secunda_homework.Service.Tasks.get secunda_homework.Service.Tasks.insert_entries
    secunda_homework.Service.Tasks.record_changes secunda_homework.Service.Tasks.update_and_record
    secunda_homework.Store.Calls.begin secunda_homework.Store.Calls.check_result
    secunda_homework.Store.Calls.exec secunda_homework.Store.Calls.finish
    secunda_homework.Store.Calls.now secunda_homework.Store.Calls.query
    secunda_homework.Store.Calls.within_tx secunda_homework.Store.Monad.◌>>=◌
    secunda_homework.Text.format_int secunda_homework.Text.format_uint secunda_homework.Text.one_of
    secunda_homework.Text.trim_left secunda_homework.Text.trim_right
changes_run = refl

pub tables-IsSound : IsSound calm tables start.seq
unfolding secunda_homework.Text.beq secunda_homework.Text.trim_space user_exists team_exists
    Role.is_valid TaskStatus.is_valid secunda_homework.Base.any secunda_homework.Text.one_of
tables-IsSound = record {
  user_keys = (omega arith, (omega arith, omega arith));
  team_keys = (omega arith, omega arith);
  task_keys = (omega arith, omega arith);
  history_keys = omega arith;
  comment_keys = omega arith;
  emails = ((refl, tt), (tt, tt));
  memberships = (tt, tt);
  team_rows = (((refl, refl, omega arith), refl), tt);
  member_rows = ((refl, refl, refl), tt);
  task_rows = (((refl, refl, omega arith), refl, refl, refl, refl), tt);
  history_rows = tt;
  comment_rows = tt;
}

serve_all-IsSound_example :
    IsSound calm (serve_all deps requests app).world.db (serve_all deps requests app).world.seq
serve_all-IsSound_example = serve_all-IsSound deps requests app tables-IsSound

tables-Audited : IsAudited calm tables start.seq
unfolding last_value
tables-Audited = (tables-IsSound, λ id t found. record { title = tt; status = tt })

serve_all-IsAudited_example :
    IsAudited calm (serve_all deps changes app).world.db (serve_all deps changes app).world.seq
serve_all-IsAudited_example = serve_all-IsAudited deps changes app tables-Audited

top_of_team-IsTop_example :
    IsTop 5 3 tables core (top_of_team 5 (codes "a") (codes "b") 3 tables core)
top_of_team-IsTop_example = top_of_team-IsTop 5 tables core (codes "a") (codes "b") 3

-- The user 2 is not in the team of the task.
abbrev pub foreign_delete : Request
foreign_delete = authed_request (codes "Bearer 2") (delete_task_by_id (codes "3"))

foreign_delete_status : (serve deps foreign_delete app).0.status ≡ 403
unfolding serve secunda_homework.Middleware.require_auth secunda_homework.Middleware.extract_bearer
    secunda_homework.Text.beq secunda_homework.Text.trim_space secunda_homework.Token.parse_token
    secunda_homework.Token.user_id secunda_homework.Text.parse_uint
    secunda_homework.Router.rate_limit secunda_homework.Middleware.RateLimit.allow_user lookup
    secunda_homework.Middleware.RateLimit.insert secunda_homework.Router.run_authed
    secunda_homework.Handler.update_task secunda_homework.Dto.Requests.has_any_update
    secunda_homework.Handler.answer secunda_homework.Handler.delete_task
    secunda_homework.Service.Tasks.delete secunda_homework.Repository.Tasks.soft_delete
    secunda_homework.Service.Tasks.update TaskStatus.is_valid
    secunda_homework.Service.Audit.build_patch_rich secunda_homework.Base.find
    secunda_homework.Base.any secunda_homework.Base.update
    secunda_homework.Repository.History.insert_history
    secunda_homework.Repository.History.insert_history_tx
    secunda_homework.Repository.Rows.task_exists secunda_homework.Repository.Rows.user_exists
    secunda_homework.Repository.Rows.wrap secunda_homework.Repository.Tasks.apply_patch
    secunda_homework.Repository.Tasks.check_updated secunda_homework.Repository.Tasks.find_task
    secunda_homework.Repository.Tasks.find_task_with
    secunda_homework.Repository.Tasks.is_empty_patch secunda_homework.Repository.Tasks.update_task
    secunda_homework.Repository.Tasks.update_task_tx secunda_homework.Repository.Tasks.write_patch
    secunda_homework.Repository.Teams.get_member secunda_homework.Service.Access.not_found_as
    secunda_homework.Service.Access.require_member secunda_homework.Service.Access.visible_task
    secunda_homework.Service.Audit.build_history_entries
    secunda_homework.Service.TaskCache.cache_key secunda_homework.Service.TaskCache.del_key
    secunda_homework.Service.TaskCache.invalidate
    secunda_homework.Service.TaskCache.invalidate_pages
    secunda_homework.Service.TaskCache.invalidate_statuses secunda_homework.Service.Tasks.change
    secunda_homework.Service.Tasks.get secunda_homework.Service.Tasks.insert_entries
    secunda_homework.Service.Tasks.record_changes secunda_homework.Service.Tasks.update_and_record
    secunda_homework.Store.Calls.begin secunda_homework.Store.Calls.check_result
    secunda_homework.Store.Calls.exec secunda_homework.Store.Calls.finish
    secunda_homework.Store.Calls.now secunda_homework.Store.Calls.query
    secunda_homework.Store.Calls.within_tx secunda_homework.Store.Monad.◌>>=◌
    secunda_homework.Text.format_int secunda_homework.Text.format_uint secunda_homework.Text.one_of
    secunda_homework.Text.trim_left secunda_homework.Text.trim_right
    secunda_homework.Handler.write_service_error
foreign_delete_status = refl

serve_refused_example : (serve deps foreign_delete app).1.world.db ≡ tables
serve_refused_example =
    serve_refused deps (λ n. refl) foreign_delete app refl (omega (arith, foreign_delete_status))
