-- ===== src/Handler/Stats.antt =====
-- internal/handler/stats.go.
use secunda_homework.Base.{ℕ, ℤ, pos, Option, none, some, if◌then◌else◌, ltb_ℤ}
use secunda_homework.Text.{Bytes, codes, is_empty, atoi}
use secunda_homework.Store.State.{World, Env}
use secunda_homework.Service.Stats
use secunda_homework.Handler.{Response, team_stats_body, creators_body, orphans_body, answer}

-- A positive number in a query parameter, or a default.
abbrev positive_or : ℤ → Option ℤ → ℤ
positive_or default none = default
positive_or default (some n) = if ltb_ℤ (pos 0) n then n else default

abbrev pub query_number : ℤ → Bytes → ℤ
query_number default v = if is_empty v then default else positive_or default (atoi v)

module _ {R : Type 0} (env : Env) where
  unfoldable pub last_week : World R → Response × World R
  last_week =
      answer (λ rows. record { status = 200; body = team_stats_body rows }) (Stats.last_week env)

  unfoldable pub top_creators : (ℕ → Bytes) → (Bytes → Bytes) → World R → Response × World R
  top_creators print get =
      answer (λ rows. record { status = 200; body = creators_body rows })
        (Stats.top_creators env print (query_number (pos 30) (get (codes "since_days")))
          (query_number (pos 3) (get (codes "limit"))))

  unfoldable pub orphans : World R → Response × World R
  orphans = answer (λ rows. record { status = 200; body = orphans_body rows }) (Stats.orphans env)
