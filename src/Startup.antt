-- ===== src/Startup.antt =====
-- cmd/app/main.go, internal/storage/mysql.go and the opening of internal/cache/redis.go: how the
-- program starts and stops. What is outside, the database, Redis, gin, the server and the signals, is
-- an argument; what is opened and closed is kept as a list of acts.
pub mod Laws
pub mod Tokens
use secunda_homework.Base.{
  ℕ, ℤ, pos, Bool, leb_ℤ, Option, none, some, List, [], ◌∷◌, ◌++◌, if◌then◌else◌,
}
use secunda_homework.Token.{TokenManager, new_token_manager}
use secunda_homework.Config.{
  Config, MySqlConfig, Viper, ConfigError, Loaded, not_read, not_decoded, not_valid, loaded, load,
}
use secunda_homework.Router.Table.{Engine, healthz, new_router, then_handle}

-- What is released by a `defer` or by the function that opened it.
pub data Resource : Type 0 where
  root_context mysql_pool redis_client shutdown_context : Resource

-- The settings of the pool of connections.
pub data PoolSetting : Type 0 where
  max_open_conns max_idle_conns conn_max_lifetime conn_max_idle_time : ℤ → PoolSetting

pub data Act : Type 0 where
  opens closes : Resource → Act
  sets : PoolSetting → Act
  listens stops_serving : Act

pub data Failure : Type 0 where
  config_failed mysql_failed redis_failed tokens_failed server_failed shutdown_failed : Failure

pub data Ending : Type 0 where
  stopped panicked : Ending
  failed : Failure → Ending

pub record Run : Type 0 where
  pub acts : List Act
  pub ending : Ending

-- What ends the wait: a signal, or an error of the server.
pub data Wait : Type 0 where
  signalled server_error : Wait

-- `sqlx.Open`, the pings, the wait and `Shutdown`.
pub record Outside (F E : Type 0) : Type 0 where
  pub viper : Viper F
  pub at_most_zero : F → Bool
  pub opens_pool : Bool
  pub mysql_answers : Bool
  pub redis_answers : Bool
  pub engine : Engine E
  pub wait : Wait
  pub shuts_down : Bool

abbrev pub ends : Ending → Run
ends e = record { acts = []; ending = e }

abbrev pub act : Act → Run → Run
act a r = record { acts = a ∷ r.acts; ending = r.ending }

-- A deferred release: it comes however the rest ends, by a panic too.
abbrev pub releasing : Resource → Run → Run
releasing x r = record { acts = r.acts ++ closes x ∷ []; ending = r.ending }

abbrev pub setting_all : List PoolSetting → Run → Run
setting_all [] r = r
setting_all (s ∷ ss) r = act (sets s) (setting_all ss r)

abbrev positive : (ℤ → PoolSetting) → ℤ → List PoolSetting
positive s n = if leb_ℤ n (pos 0) then [] else s n ∷ []

unfoldable pub pool_settings : MySqlConfig → List PoolSetting
pool_settings c =
    positive max_open_conns c.max_open_conns
    ++ (positive max_idle_conns c.max_idle_conns
        ++ (positive conn_max_lifetime c.conn_max_lifetime
            ++ positive conn_max_idle_time c.conn_max_idle_time))

module _ {F E : Type 0} (o : Outside F E) where
  -- `Shutdown`, or the server's error.
  abbrev pub after_wait : Wait → Run
  after_wait signalled = act (opens shutdown_context) (
      releasing shutdown_context
        (if o.shuts_down then act stops_serving (ends stopped) else ends (failed shutdown_failed)))
  after_wait server_error = ends (failed server_failed)

  -- The server, unless gin has panicked.
  abbrev pub serving : Option E → Run
  serving none = ends panicked
  serving (some e) = act listens (after_wait o.wait)

  -- The router and the route that `run` adds to it.
  abbrev pub with_router : Config F → Run
  with_router cfg = serving (then_handle o.engine healthz (new_router o.engine cfg.metrics.path))

  -- `NewTokenManager`.
  abbrev pub with_tokens : Config F → Option TokenManager → Run
  with_tokens cfg none = ends (failed tokens_failed)
  with_tokens cfg (some t) = with_router cfg

  -- `NewRedisCache`, which closes the client that does not answer, before what follows it.
  abbrev pub new_redis_cache : Run → Run
  new_redis_cache rest =
      act (opens redis_client)
        (if o.redis_answers then rest else act (closes redis_client) (ends (failed redis_failed)))

  abbrev pub with_redis : Config F → Run
  with_redis cfg =
      new_redis_cache (releasing redis_client (with_tokens cfg (new_token_manager cfg.jwt)))

  -- `OpenMySQL`, which closes the pool that does not answer, before what follows it.
  abbrev pub open_mysql : MySqlConfig → Run → Run
  open_mysql c rest =
      if o.opens_pool
      then act (opens mysql_pool) (
          setting_all (pool_settings c) (
            if o.mysql_answers then rest else act (closes mysql_pool) (ends (failed mysql_failed))))
      else ends (failed mysql_failed)

  abbrev pub with_mysql : Config F → Run
  with_mysql cfg = open_mysql cfg.mysql (releasing mysql_pool (with_redis cfg))

  abbrev pub configured : Loaded F → Run
  configured not_read = ends (failed config_failed)
  configured not_decoded = ends (failed config_failed)
  configured (not_valid e) = ends (failed config_failed)
  configured (loaded cfg) = act (opens root_context) (releasing root_context (with_mysql cfg))

  -- `run`.
  unfoldable pub run : Run
  run = configured (load o.at_most_zero o.viper)

-- `main`; a panic ends a Go program with 2.
abbrev pub exit_code : Ending → ℕ
exit_code stopped = 0
exit_code (failed f) = 1
exit_code panicked = 2
