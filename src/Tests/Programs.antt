-- ===== src/Tests/Programs.antt =====
-- The programs and the counters at concrete values.
use secunda_homework.Base.{
  ℕ, true, false, ◌||◌, Option, none, some, List, [], ◌∷◌, ◌≡◌, ◌≢◌, refl, sym, ◌∙◌, arith,
  if◌then◌else◌, ◌==◌, inl, inr, any, All, Bool-cases,
}
use secunda_homework.Text.{Bytes, codes}
use secunda_homework.Config.{Viper, file_missing, loaded, load}
use secunda_homework.Config.Laws.{load_iff}
use secunda_homework.Migrate.{
  MigrateError, no_change, nil_version, Version, version_of, no_version_of, Migrator, Outcome,
  none_line, command,
}
use secunda_homework.Migrate
use secunda_homework.Migrate.Laws.{Bracketed, run-Bracketed}
use secunda_homework.Router.Table.{Engine, Route, is_registered, handle_all}
use secunda_homework.Router.Counted.{
  Incoming, to_api, to_healthz, to_metrics, to_nothing, to_redirect, Counted, serve_incoming,
  answers,
}
use secunda_homework.Router.Counted.Laws.{
  totals, IsBoundedLabel, serve_incoming-totals, serve_incoming-IsBoundedLabel,
}
use secunda_homework.Startup
use secunda_homework.Startup.Tokens.{run_tokens}
use secunda_homework.Startup.{tokens_failed, failed, Outside, signalled}
use secunda_homework.Startup.Laws.{RefusesTwice, is_listening, never_listens}
use secunda_homework.Tests.Limits.{production, production_passes}
use secunda_homework.Tests.Program.{deps, app, foreign_delete}

-- A package that counts the migrations that are applied, three at most.
abbrev moved : ℕ → ℕ → Option MigrateError × ℕ
moved old new = (if old == new then some no_change else none, new)

abbrev at_version : ℕ → Version
at_version n = if n == 0 then no_version_of nil_version else version_of n false

abbrev three : Migrator ℕ
three = record {
  connect = λ dsn. some 1;
  up = λ n. moved n 3;
  down = λ n. moved n 0;
  steps = λ k n. moved n 2;
  force = λ v n. (none, n);
  version = at_version;
  close = λ n. (none, none);
}

run-Bracketed_example :
    Bracketed three
      (codes "migrate" ∷ codes "up" ∷ [])
      (codes "app@/tasks")
      (Migrate.run three (codes "migrate" ∷ codes "up" ∷ []) (codes "app@/tasks")).calls
run-Bracketed_example = run-Bracketed three (codes "migrate" ∷ codes "up" ∷ []) (codes "app@/tasks")

-- A gin that refuses a route that it has.
abbrev listing : Engine (List Route)
listing = record { fresh = []; handle = λ r rs. if is_registered r rs then none else some (r ∷ rs) }

abbrev viper : Viper ℕ
viper = record {
  read_in_config = file_missing;
  unmarshal = λ defaults bindings read. some production;
}

viper_loads : load (λ n. n == 0) viper ≡ loaded production
viper_loads = (load_iff (λ n. n == 0) viper production).1 (refl, refl, production_passes)

abbrev outside : Outside ℕ (List Route)
outside = record {
  viper = viper;
  at_most_zero = λ n. n == 0;
  opens_pool = true;
  mysql_answers = true;
  redis_answers = true;
  engine = listing;
  wait = signalled;
  shuts_down = true;
}

run_tokens_example : (Startup.run outside).ending ≢ failed tokens_failed
run_tokens_example = run_tokens outside production viper_loads refl refl

none-some : {e : List Route} → ¬ (none ≡ some e)
none-some h = cc

no_engine : (rs : List Route) → handle_all listing rs none ≡ none
no_engine [] = refl
no_engine (r ∷ rs) = no_engine rs

same_engine : {a b : List Route} → some a ≡ some b → a ≡ b
same_engine h = cc

kept_routes :
    (r : Route) (rs es e : List Route)
    → handle_all listing rs (some es) ≡ some e
    → is_registered r rs || is_registered r es ≡ true
    → is_registered r e ≡ true
unfolding any
kept_routes r [] es e h k = rw (← same_engine h) k
kept_routes r (q ∷ rs) es e h k = elim (Bool-cases (is_registered q es)) [
  | inl twice ↦
      let none_left : handle_all listing rs none ≡ some e = rw twice at h in
      absurd (none-some (sym (no_engine rs) ∙ none_left))
  | inr new ↦ kept_routes r rs (q ∷ es) e (rw new at h) (ground (arith, k))
]

listing-RefusesTwice : RefusesTwice outside
unfolding any
listing-RefusesTwice rs e r h k = rw (kept_routes r rs [] e h (rw k refl)) refl

never_listens_example : any is_listening (Startup.run outside).acts ≡ false
never_listens_example = never_listens outside listing-RefusesTwice

abbrev counted_app : Counted (List Bytes) ℕ
counted_app = record {
  app = app;
  metrics = record { requests_total = []; request_duration = []; errors_total = [] };
}

abbrev traffic : List Incoming
traffic =
    to_healthz
    ∷ to_api foreign_delete
    ∷ to_metrics 200
    ∷ to_nothing (codes "HEAD")
    ∷ to_redirect (codes "GET") 301
    ∷ []

serve_incoming-totals_example :
    (serve_incoming deps (codes "/metrics") traffic counted_app).metrics
    ≡ totals (answers deps (codes "/metrics") traffic app) counted_app.metrics
serve_incoming-totals_example = serve_incoming-totals deps (codes "/metrics") traffic counted_app

serve_incoming-IsBoundedLabel_example :
    All
      (IsBoundedLabel (codes "/metrics"))
      (serve_incoming deps (codes "/metrics") traffic counted_app).metrics.requests_total
serve_incoming-IsBoundedLabel_example =
    serve_incoming-IsBoundedLabel deps (codes "/metrics") traffic counted_app tt
