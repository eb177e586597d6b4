-- ===== src/Router/Counted.antt =====
-- The middleware of internal/router/router.go around every request: `Recovery`, and inside it
-- `Prometheus`, which a panic passes by, as does a redirection of gin's own.
pub mod Laws
use secunda_homework.Base.{ℕ, Bool, true, false, List, [], ◌∷◌, ◌==◌, ◌&&◌, ◌||◌, if◌then◌else◌}
use secunda_homework.Text.{Bytes, codes, is_empty}
use secunda_homework.Handler.{
  Response, Body, no_body, failure, task_body, list_body, history_body, auth_body, team_body,
  teams_body, invited_body, members_body, commented_body, comments_body, team_stats_body,
  creators_body, orphans_body,
}
use secunda_homework.Middleware.Metrics.{Metrics, report}
use secunda_homework.Router.{Request, Deps, App, serve}
use secunda_homework.Router.Table.{Route, get, healthz, route_of}

-- A request to a route of the API, to one of the other three, or to an address that no route
-- matches, which gin answers with 404 or, for one that differs from a route's by a slash at its end,
-- with a redirection.
pub data Incoming : Type 0 where
  to_api : Request → Incoming
  to_healthz to_ping : Incoming
  to_metrics : (status : ℕ) → Incoming
  to_nothing : (method : Bytes) → Incoming
  to_redirect : (method : Bytes) → (status : ℕ) → Incoming

abbrev has_no_body : Body → Bool
has_no_body no_body = true
has_no_body _ = false

-- An empty 500 is what `Recovery` answers after a panic.
abbrev pub panicked : Response → Bool
panicked r = r.status == 500 && has_no_body r.body

-- A program with its counters.
pub record Counted (R L : Type 0) : Type 0 where
  pub app : App R L
  pub metrics : Metrics

-- What a request is answered with, and how it is labelled.
pub record Served : Type 0 where
  pub route : Route
  pub status : ℕ
  pub panics : Bool
  pub redirects : Bool

abbrev plain : Route → ℕ → Served
plain r status = record { route = r; status = status; panics = false; redirects = false }

module _ {R L : Type 0} (deps : Deps R L) (metrics_path : Bytes) where
  unfoldable pub answer_incoming : Incoming → App R L → Served × App R L
  answer_incoming (to_api q) a =
      let (r, a') = serve deps q a in
      (record { route = route_of q; status = r.status; panics = panicked r; redirects = false }, a')
  answer_incoming to_healthz a = (plain healthz 200, a)
  answer_incoming to_ping a = (plain (get (codes "/ping")) 200, a)
  answer_incoming (to_metrics status) a =
      if is_empty metrics_path
      then (plain (record { method = codes "GET"; path = codes "" }) 404, a)
      else (plain (get metrics_path) status, a)
  answer_incoming (to_nothing method) a =
      (plain (record { method = method; path = codes "" }) 404, a)
  answer_incoming (to_redirect method status) a = (
    record {
      route = record { method = method; path = codes "" };
      status = status;
      panics = false;
      redirects = true;
    },
    a,
  )

  -- gin redirects before it runs any middleware.
  abbrev pub counted : Served → Metrics → Metrics
  counted s m = if s.panics || s.redirects then m else report s.route.method s.route.path s.status m

  unfoldable pub serve_incoming : List Incoming → Counted R L → Counted R L
  serve_incoming [] c = c
  serve_incoming (i ∷ is) c =
      let (s, a') = answer_incoming i c.app in
      serve_incoming is (record { app = a'; metrics = counted s c.metrics })

  -- The answers of the same requests.
  unfoldable pub answers : List Incoming → App R L → List Served
  answers [] a = []
  answers (i ∷ is) a = let (s, a') = answer_incoming i a in s ∷ answers is a'
