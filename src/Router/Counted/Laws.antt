-- ===== src/Router/Counted/Laws.antt =====
-- What the counters show of the requests that were answered (internal/middleware/metrics.go,
-- internal/router/router.go).
use mathlib.Core.List.{append_assoc}
use secunda_homework.Base.{
  ◌⊎◌, inl, inr, Bool, true, false, not, ◌||◌, List, [], ◌∷◌, ◌++◌, ◌≡◌, refl, ◌∙◌, arith, leb, map,
  any, any-append, append_nil, select, All, All-append, Bool-cases,
}
use secunda_homework.Text.{Bytes, codes, beq, is_empty}
use secunda_homework.Text.Equality.{beq_iff}
use secunda_homework.Middleware.Metrics.{Labels, Metrics, path_label, labels_of, report}
use secunda_homework.Router.{
  PublicRoute, post_register, post_login, AuthedRoute, post_teams, get_teams, post_invite,
  get_members, post_tasks, get_tasks, get_task_by_id, put_task, delete_task_by_id, get_task_history,
  post_comments, get_comments, get_last_week, get_top_creators, get_orphan_tasks, Request,
  open_request, authed_request, Deps, App,
}
use secunda_homework.Router.Table.{
  Route, same_route, get, healthz, is_registered, metrics_route, api_routes, routes, open_route,
  authed_route, route_of,
}
use secunda_homework.Router.Counted.{
  Incoming, to_api, to_healthz, to_ping, to_metrics, to_nothing, to_redirect, Counted, Served,
  answer_incoming, counted, serve_incoming, answers,
}

abbrev pub served_labels : Served → Labels
served_labels s = labels_of s.route.method s.route.path s.status

abbrev pub timed : Served → Bytes × Bytes
timed s = (s.route.method, path_label s.route.path)

-- The answers that `Prometheus` gets to see.
abbrev pub seen : List Served → List Served
seen = select (λ s. not (s.panics || s.redirects))

abbrev pub is_error : Served → Bool
is_error s = leb 400 s.status

-- The counters after some answers.
abbrev pub totals : List Served → Metrics → Metrics
totals ss m = record {
  requests_total = m.requests_total ++ map served_labels (seen ss);
  request_duration = m.request_duration ++ map timed (seen ss);
  errors_total = m.errors_total ++ map served_labels (select is_error (seen ss));
}

totals_none : (m : Metrics) → m ≡ totals [] m
unfolding select
totals_none m =
    rw (append_nil m.requests_total, append_nil m.request_duration, append_nil m.errors_total) refl

totals_step :
    {R L : Type 0} (deps : Deps R L) (mp : Bytes) (s : Served) (ss : List Served) (m : Metrics)
    → totals ss (counted deps mp s m) ≡ totals (s ∷ ss) m
unfolding select report
totals_step deps mp s ss m = elim (Bool-cases (s.panics || s.redirects)) [
  | inl lost ↦ rw lost refl
  | inr counts ↦ elim (Bool-cases (leb 400 s.status)) [
    | inl bad ↦
        rw
          (
            counts,
            bad,
            append_assoc m.requests_total,
            append_assoc m.request_duration,
            append_assoc m.errors_total,
          )
          refl
    | inr good ↦
        rw (counts, good, append_assoc m.requests_total, append_assoc m.request_duration) refl
  ]
]

module _ {R L : Type 0} (deps : Deps R L) (mp : Bytes) where
  -- The counters grow by the answers that come neither from a panic nor from gin's redirection:
  -- each is counted once in http_requests_total and timed once, and those with a status of 400 or
  -- more, and no others, are counted in http_errors_total, with the same labels and in the same
  -- order.
  pub serve_incoming-totals :
      (is : List Incoming) (c : Counted R L)
      → (serve_incoming deps mp is c).metrics ≡ totals (answers deps mp is c.app) c.metrics
  unfolding serve_incoming answers
  serve_incoming-totals [] c = totals_none c.metrics
  serve_incoming-totals (i ∷ is) c =
      serve_incoming-totals is _
      ∙ totals_step deps mp (answer_incoming deps mp i c.app).0 _ c.metrics

in_api :
    (mp : Bytes) (r : Route)
    → any (same_route r) api_routes ≡ true
    → is_registered r (routes mp) ≡ true
unfolding routes any
in_api mp r h =
    ground (arith, any-append (same_route r) (metrics_route mp) (get (codes "/ping") ∷ api_routes))

open_registered : (r : PublicRoute) → any (same_route (open_route r)) api_routes ≡ true
unfolding any api_routes beq open_route
open_registered (post_register body) = refl
open_registered (post_login body) = refl

authed_registered : (r : AuthedRoute) → any (same_route (authed_route r)) api_routes ≡ true
unfolding any api_routes beq authed_route
authed_registered (post_teams body) = refl
authed_registered get_teams = refl
authed_registered (post_invite id body) = refl
authed_registered (get_members id) = refl
authed_registered (post_tasks body) = refl
authed_registered (get_tasks query) = refl
authed_registered (get_task_by_id id) = refl
authed_registered (put_task id body) = refl
authed_registered (delete_task_by_id id) = refl
authed_registered (get_task_history id) = refl
authed_registered (post_comments id body) = refl
authed_registered (get_comments id) = refl
authed_registered get_last_week = refl
authed_registered (get_top_creators query) = refl
authed_registered get_orphan_tasks = refl

-- A label that a registered route has, or that of no route.
abbrev pub IsBoundedLabel : Bytes → Labels → Type 0
IsBoundedLabel mp l =
    (is_registered (record { method = l.method; path = l.path }) (routes mp) ≡ true)
    ⊎ (l.path ≡ codes "unknown")

-- What is known of the label of an answer: its route is registered, or there is none.
IsRouted : Bytes → Served → Type 0
IsRouted mp s = (is_registered s.route (routes mp) ≡ true) ⊎ (is_empty s.route.path ≡ true)

request_registered : (mp : Bytes) (q : Request) → is_registered (route_of q) (routes mp) ≡ true
request_registered mp (open_request r) = in_api mp (open_route r) (open_registered r)
request_registered mp (authed_request header r) = in_api mp (authed_route r) (authed_registered r)

beq_refl : (s : Bytes) → beq s s ≡ true
beq_refl s = (beq_iff s s).1 refl

healthz_registered : (mp : Bytes) → is_registered healthz (routes mp) ≡ true
unfolding routes any beq
healthz_registered mp = refl

ping_registered : (mp : Bytes) → is_registered (get (codes "/ping")) (routes mp) ≡ true
unfolding routes any beq
ping_registered mp = ground (
  arith,
  any-append (same_route (get (codes "/ping"))) (metrics_route mp)
      (get (codes "/ping") ∷ api_routes),
)

metrics_registered : (mp : Bytes) → is_empty mp ≡ false → is_registered (get mp) (routes mp) ≡ true
unfolding routes any
metrics_registered mp h =
    let same : same_route (get mp) (get mp) ≡ true =
      rw (beq_refl (codes "GET"), beq_refl mp) refl in
    rw h (ground (arith, same))

module _ {R L : Type 0} (deps : Deps R L) (mp : Bytes) where
  IsRouted-answer : (i : Incoming) (a : App R L) → IsRouted mp (answer_incoming deps mp i a).0
  unfolding answer_incoming IsRouted
  IsRouted-answer (to_api q) a = inl (request_registered mp q)
  IsRouted-answer to_healthz a = inl (healthz_registered mp)
  IsRouted-answer to_ping a = inl (ping_registered mp)
  IsRouted-answer (to_metrics status) a = elim (Bool-cases (is_empty mp)) [
    | inl off ↦ rw off (inr refl)
    | inr on ↦ rw on (inl (metrics_registered mp on))
  ]
  IsRouted-answer (to_nothing method) a = inr refl
  IsRouted-answer (to_redirect method status) a = inr refl

labels_bounded : (mp : Bytes) (s : Served) → IsRouted mp s → IsBoundedLabel mp (served_labels s)
unfolding IsRouted
labels_bounded mp s (inl known) = elim (Bool-cases (is_empty s.route.path)) [
  | inl none_there ↦ inr (rw none_there refl)
  | inr path ↦ inl (rw path known)
]
labels_bounded mp s (inr none_there) = inr (rw none_there refl)

All-seen :
    (P : Labels → Type 0) (s : Served) (ss : List Served)
    → P (served_labels s)
    → All P (map served_labels (seen ss))
    → All P (map served_labels (seen (s ∷ ss)))
unfolding select
All-seen P s ss h k = elim (Bool-cases (s.panics || s.redirects)) [
  | inl lost ↦ rw lost k
  | inr counts ↦ rw counts (h, k)
]

module _ {R L : Type 0} (deps : Deps R L) (mp : Bytes) where
  answers-bounded :
      (is : List Incoming) (a : App R L)
      → All (IsBoundedLabel mp) (map served_labels (seen (answers deps mp is a)))
  unfolding answers select
  answers-bounded [] a = tt
  answers-bounded (i ∷ is) a =
      All-seen (IsBoundedLabel mp) (answer_incoming deps mp i a).0
        (answers deps mp is (answer_incoming deps mp i a).1)
        (labels_bounded mp _ (IsRouted-answer deps mp i a))
        (answers-bounded is (answer_incoming deps mp i a).1)

  -- Whatever is requested, with whatever identifiers in its path and at whatever address, the
  -- labels of http_requests_total have the method and the path of a registered route, or the path
  -- "unknown", from counters on that do so.
  pub serve_incoming-IsBoundedLabel :
      (is : List Incoming) (c : Counted R L)
      → All (IsBoundedLabel mp) c.metrics.requests_total
      → All (IsBoundedLabel mp) (serve_incoming deps mp is c).metrics.requests_total
  serve_incoming-IsBoundedLabel is c h =
      rw (serve_incoming-totals deps mp is c)
        (All-append (IsBoundedLabel mp) c.metrics.requests_total _ h (answers-bounded is c.app))
