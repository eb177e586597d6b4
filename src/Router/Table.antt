-- ===== src/Router/Table.antt =====
-- internal/router/router.go: what `New` registers with gin. The engine is an argument, which panics
-- or takes a route.
use secunda_homework.Base.{Bool, ◌&&◌, Option, none, some, List, [], ◌∷◌, ◌++◌, if◌then◌else◌, any}
use secunda_homework.Text.{Bytes, codes, beq, is_empty}
use secunda_homework.Router.{
  PublicRoute, post_register, post_login, AuthedRoute, post_teams, get_teams, post_invite,
  get_members, post_tasks, get_tasks, get_task_by_id, put_task, delete_task_by_id, get_task_history,
  post_comments, get_comments, get_last_week, get_top_creators, get_orphan_tasks, Request,
  open_request, authed_request,
}

pub record Route : Type 0 where
  pub method : Bytes
  pub path : Bytes

abbrev pub same_route : Route → Route → Bool
same_route r q = beq r.method q.method && beq r.path q.path

abbrev pub get : Bytes → Route
get path = record { method = codes "GET"; path = path }

abbrev pub post : Bytes → Route
post path = record { method = codes "POST"; path = path }

abbrev pub v1 : Bytes → Bytes
v1 path = codes "/api/v1" ++ path

abbrev pub healthz : Route
healthz = get (codes "/healthz")

abbrev pub metrics_route : Bytes → List Route
metrics_route path = if is_empty path then [] else get path ∷ []

unfoldable pub open_route : PublicRoute → Route
open_route (post_register body) = post (v1 (codes "/register"))
open_route (post_login body) = post (v1 (codes "/login"))

unfoldable pub authed_route : AuthedRoute → Route
authed_route (post_teams body) = post (v1 (codes "/teams"))
authed_route get_teams = get (v1 (codes "/teams"))
authed_route (post_invite id body) = post (v1 (codes "/teams/:id/invite"))
authed_route (get_members id) = get (v1 (codes "/teams/:id/members"))
authed_route (post_tasks body) = post (v1 (codes "/tasks"))
authed_route (get_tasks query) = get (v1 (codes "/tasks"))
authed_route (get_task_by_id id) = get (v1 (codes "/tasks/:id"))
authed_route (put_task id body) = record { method = codes "PUT"; path = v1 (codes "/tasks/:id") }
authed_route (delete_task_by_id id) = record {
  method = codes "DELETE";
  path = v1 (codes "/tasks/:id");
}
authed_route (get_task_history id) = get (v1 (codes "/tasks/:id/history"))
authed_route (post_comments id body) = post (v1 (codes "/tasks/:id/comments"))
authed_route (get_comments id) = get (v1 (codes "/tasks/:id/comments"))
authed_route get_last_week = get (v1 (codes "/stats/teams/last-week"))
authed_route (get_top_creators query) = get (v1 (codes "/stats/top-creators"))
authed_route get_orphan_tasks = get (v1 (codes "/stats/orphan-tasks"))

abbrev pub route_of : Request → Route
route_of (open_request r) = open_route r
route_of (authed_request header r) = authed_route r

-- The routes in the order of their registration.
unfoldable pub api_routes : List Route
api_routes =
    post (v1 (codes "/register"))
    ∷ post (v1 (codes "/login"))
    ∷ post (v1 (codes "/teams"))
    ∷ get (v1 (codes "/teams"))
    ∷ post (v1 (codes "/teams/:id/invite"))
    ∷ get (v1 (codes "/teams/:id/members"))
    ∷ post (v1 (codes "/tasks"))
    ∷ get (v1 (codes "/tasks"))
    ∷ get (v1 (codes "/tasks/:id"))
    ∷ record { method = codes "PUT"; path = v1 (codes "/tasks/:id") }
    ∷ record { method = codes "DELETE"; path = v1 (codes "/tasks/:id") }
    ∷ get (v1 (codes "/tasks/:id/history"))
    ∷ post (v1 (codes "/tasks/:id/comments"))
    ∷ get (v1 (codes "/tasks/:id/comments"))
    ∷ get (v1 (codes "/stats/teams/last-week"))
    ∷ get (v1 (codes "/stats/top-creators"))
    ∷ get (v1 (codes "/stats/orphan-tasks"))
    ∷ []

unfoldable pub routes : Bytes → List Route
routes metrics_path = healthz ∷ (metrics_route metrics_path ++ (get (codes "/ping") ∷ api_routes))

abbrev pub is_registered : Route → List Route → Bool
is_registered r rs = any (same_route r) rs

-- gin's tree of routes; `none` is a panic.
pub record Engine (E : Type 0) : Type 0 where
  pub fresh : E
  pub handle : Route → E → Option E

module _ {E : Type 0} (engine : Engine E) where
  abbrev pub then_handle : Route → Option E → Option E
  then_handle r none = none
  then_handle r (some e) = engine.handle r e

  -- One registration after another, from an engine on.
  abbrev pub handle_all : List Route → Option E → Option E
  handle_all [] o = o
  handle_all (r ∷ rs) o = handle_all rs (then_handle r o)

  -- `New`.
  unfoldable pub new_router : Bytes → Option E
  new_router metrics_path = handle_all (routes metrics_path) (some engine.fresh)
