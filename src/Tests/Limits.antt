-- ===== src/Tests/Limits.antt =====
-- The limiter and the configuration at concrete values.
use secunda_homework.Base.{
  ℕ, pos, true, false, none, List, map, select, [], ◌∷◌, ◌≡◌, refl, arith, ◌==◌, ◌-◌, ltb,
}
use secunda_homework.Text.{Bytes, codes, is_empty, format_uint}
use secunda_homework.Config.{Config, validate}
use secunda_homework.Middleware.RateLimit.{Buckets, Entry, PerUserLimiter, new_per_user_limiter}
use secunda_homework.Middleware.RateLimit.Own.{
  Event, request, collect, answers, own_answers, concerns, answers-own,
}

-- A bucket is the number of requests that are left.
abbrev pub countdown : Buckets ℕ
countdown = record { fresh = 2; allow = λ at n. (ltb 0 n, n - 1) }

abbrev pub ann_entry : Entry ℕ
ann_entry = record { limiter = 1; last_use = 500 }

abbrev pub bob_entry : Entry ℕ
bob_entry = record { limiter = 2; last_use = 20 }

abbrev pub limiter : PerUserLimiter ℕ
limiter = record { per_user = (1, ann_entry) ∷ (2, bob_entry) ∷ []; fallback = 2 }

-- The users 1 and 2 share nothing.
abbrev busy : List Event
busy =
    request 1 10 10
    ∷ request 2 11 11
    ∷ request 2 12 12
    ∷ request 2 13 13
    ∷ request 1 14 14
    ∷ collect 900
    ∷ request 2 901 901
    ∷ []

busy_run :
    own_answers countdown (pos 500) (select (concerns 2) busy) none
    ≡ true ∷ true ∷ false ∷ true ∷ []
unfolding own_answers select
busy_run = refl

answers-own_example :
    map
      (λ r. r.1)
      (select (λ r. r.0 == 2) (answers countdown (pos 500) busy (new_per_user_limiter countdown)))
    ≡ own_answers countdown (pos 500) (select (concerns 2) busy) none
answers-own_example = answers-own countdown (pos 500) 2 busy (omega arith)

abbrev pub production : Config ℕ
production = record {
  app_env = codes "production";
  http = record { port = codes "8080" };
  jwt = record {
    secret = codes "0123456789abcdef0123456789abcdef";
    issuer = codes "app";
    ttl = pos 60;
  };
  rate_limit = record { rps = 5; burst = pos 10 };
  log = record { level = codes "info" };
  mysql = record {
    dsn = codes "app@/tasks";
    max_open_conns = pos 25;
    max_idle_conns = pos 5;
    conn_max_lifetime = pos 300;
    conn_max_idle_time = pos 120;
  };
  redis = record {
    addr = codes "redis:6379";
    password = codes "";
    db = pos 0;
    pool_size = pos 10;
    dial_timeout = pos 2;
    read_timeout = pos 1;
    write_timeout = pos 1;
    tasks_cache_ttl = pos 300;
  };
  metrics = record { path = codes "/metrics" };
}

pub production_passes : validate (λ n. n == 0) production ≡ none
unfolding validate secunda_homework.Text.trim_space secunda_homework.Text.beq
production_passes = refl
