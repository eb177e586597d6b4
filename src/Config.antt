-- ===== src/Config.antt =====
-- internal/config/config.go: the settings, their defaults and variables, and their check. Viper,
-- which reads the file and the environment and decodes the values, is an argument, and so is the
-- type of the rate, a floating-point number, with its test against zero.
pub mod Laws
use secunda_homework.Base.{
  ℤ, pos, Bool, true, false, ◌&&◌, Option, none, some, List, [], ◌∷◌, if◌then◌else◌, ltb, leb_ℤ,
  length,
}
use secunda_homework.Text.{Bytes, codes, beq, is_empty, trim_space}
use secunda_homework.Token.{JwtConfig}

pub record HttpConfig : Type 0 where
  pub port : Bytes

pub record LogConfig : Type 0 where
  pub level : Bytes

-- Durations are in nanoseconds.
pub record MySqlConfig : Type 0 where
  pub dsn : Bytes
  pub max_open_conns : ℤ
  pub max_idle_conns : ℤ
  pub conn_max_lifetime : ℤ
  pub conn_max_idle_time : ℤ

pub record RedisConfig : Type 0 where
  pub addr : Bytes
  pub password : Bytes
  pub db : ℤ
  pub pool_size : ℤ
  pub dial_timeout : ℤ
  pub read_timeout : ℤ
  pub write_timeout : ℤ
  pub tasks_cache_ttl : ℤ

pub record RateLimitConfig (F : Type 0) : Type 0 where
  pub rps : F
  pub burst : ℤ

pub record MetricsConfig : Type 0 where
  pub path : Bytes

pub record Config (F : Type 0) : Type 0 where
  pub app_env : Bytes
  pub http : HttpConfig
  pub log : LogConfig
  pub mysql : MySqlConfig
  pub redis : RedisConfig
  pub jwt : JwtConfig
  pub rate_limit : RateLimitConfig F
  pub metrics : MetricsConfig

pub data ConfigError : Type 0 where
  no_secret short_secret no_port bad_ttl bad_rps bad_burst : ConfigError

module _ {F : Type 0} (at_most_zero : F → Bool) where
  unfoldable pub validate : Config F → Option ConfigError
  validate c =
      if is_empty (trim_space c.jwt.secret)
      then some no_secret
      else if beq c.app_env (codes "production") && ltb (length c.jwt.secret) 32
      then some short_secret
      else if is_empty c.http.port
      then some no_port
      else if leb_ℤ c.jwt.ttl (pos 0)
      then some bad_ttl
      else if at_most_zero c.rate_limit.rps
      then some bad_rps
      else if leb_ℤ c.rate_limit.burst (pos 0)
      then some bad_burst
      else none

-- The arguments of `SetDefault`, as texts.
unfoldable pub defaults : List (Bytes × Bytes)
defaults =
    (codes "app_env", codes "development")
    ∷ (codes "http.port", codes "8080")
    ∷ (codes "log.level", codes "info")
    ∷ (codes "mysql.max_open_conns", codes "25")
    ∷ (codes "mysql.max_idle_conns", codes "5")
    ∷ (codes "mysql.conn_max_lifetime", codes "5m")
    ∷ (codes "mysql.conn_max_idle_time", codes "2m")
    ∷ (codes "redis.db", codes "0")
    ∷ (codes "redis.pool_size", codes "10")
    ∷ (codes "redis.dial_timeout", codes "2s")
    ∷ (codes "redis.read_timeout", codes "500ms")
    ∷ (codes "redis.write_timeout", codes "500ms")
    ∷ (codes "redis.tasks_cache_ttl", codes "5m")
    ∷ (codes "jwt.ttl", codes "24h")
    ∷ (codes "jwt.issuer", codes "taskmgr")
    ∷ (codes "ratelimit.rps", codes "1.67")
    ∷ (codes "ratelimit.burst", codes "100")
    ∷ (codes "metrics.path", codes "/metrics")
    ∷ []

-- The bindings of `bindEnvs`: a key, and the variable that sets it.
unfoldable pub bindings : List (Bytes × Bytes)
bindings =
    (codes "app_env", codes "APP_ENV")
    ∷ (codes "http.port", codes "HTTP_PORT")
    ∷ (codes "log.level", codes "LOG_LEVEL")
    ∷ (codes "mysql.dsn", codes "MYSQL_DSN")
    ∷ (codes "mysql.max_open_conns", codes "MYSQL_MAX_OPEN_CONNS")
    ∷ (codes "mysql.max_idle_conns", codes "MYSQL_MAX_IDLE_CONNS")
    ∷ (codes "mysql.conn_max_lifetime", codes "MYSQL_CONN_MAX_LIFETIME")
    ∷ (codes "mysql.conn_max_idle_time", codes "MYSQL_CONN_MAX_IDLE_TIME")
    ∷ (codes "redis.addr", codes "REDIS_ADDR")
    ∷ (codes "redis.password", codes "REDIS_PASSWORD")
    ∷ (codes "redis.db", codes "REDIS_DB")
    ∷ (codes "redis.pool_size", codes "REDIS_POOL_SIZE")
    ∷ (codes "redis.dial_timeout", codes "REDIS_DIAL_TIMEOUT")
    ∷ (codes "redis.read_timeout", codes "REDIS_READ_TIMEOUT")
    ∷ (codes "redis.write_timeout", codes "REDIS_WRITE_TIMEOUT")
    ∷ (codes "redis.tasks_cache_ttl", codes "REDIS_TASKS_CACHE_TTL")
    ∷ (codes "jwt.secret", codes "JWT_SECRET")
    ∷ (codes "jwt.ttl", codes "JWT_TTL")
    ∷ (codes "jwt.issuer", codes "JWT_ISSUER")
    ∷ (codes "ratelimit.rps", codes "RATE_LIMIT_RPS")
    ∷ (codes "ratelimit.burst", codes "RATE_LIMIT_BURST")
    ∷ (codes "metrics.path", codes "METRICS_PATH")
    ∷ []

-- `ReadInConfig` for the file config.yaml in ./configs or in the working directory.
pub data FileRead : Type 0 where
  file_read file_missing file_broken : FileRead

-- `Unmarshal` has the defaults and the bindings.
pub record Viper (F : Type 0) : Type 0 where
  pub read_in_config : FileRead
  pub unmarshal : (defaults bindings : List (Bytes × Bytes)) → FileRead → Option (Config F)

pub data Loaded (F : Type 0) : Type 0 where
  not_read not_decoded : Loaded F
  not_valid : ConfigError → Loaded F
  loaded : Config F → Loaded F

module _ {F : Type 0} (at_most_zero : F → Bool) where
  abbrev pub checked : Option ConfigError → Config F → Loaded F
  checked none c = loaded c
  checked (some e) c = not_valid e

  abbrev pub decoded : Option (Config F) → Loaded F
  decoded none = not_decoded
  decoded (some c) = checked (validate at_most_zero c) c

  abbrev pub after_read : Viper F → FileRead → Loaded F
  after_read v file_read = decoded (v.unmarshal defaults bindings file_read)
  after_read v file_missing = decoded (v.unmarshal defaults bindings file_missing)
  after_read v file_broken = not_read

  -- `Load`.
  unfoldable pub load : Viper F → Loaded F
  load v = after_read v v.read_in_config
