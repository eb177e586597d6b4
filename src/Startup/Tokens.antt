-- ===== src/Startup/Tokens.antt =====
-- The token manager at the start of cmd/app/main.go, from the configuration of
-- internal/config/config.go.
use secunda_homework.Base.{
  Bool, true, false, Option, none, some, List, [], ◌∷◌, ◌≡◌, ◌≢◌, if◌then◌else◌,
}
use secunda_homework.Text.{codes, is_empty}
use secunda_homework.Token.{TokenManager, new_token_manager}
use secunda_homework.Config.{Config, loaded, load}
use secunda_homework.Config.Laws.{load_iff, validate_production}
use secunda_homework.Startup.{
  PoolSetting, mysql_failed, redis_failed, tokens_failed, stopped, failed, shutdown_failed,
  mysql_pool, redis_client, closes, stops_serving, Run, Wait, signalled, server_error, Outside,
  ends, act, releasing, setting_all, after_wait, serving, with_tokens, with_redis, with_mysql,
  pool_settings, run,
}

-- A run that does not end with the token manager's refusal.
record Spared (r : Run) : Type 0 where
  spared : r.ending ≢ failed tokens_failed

Spared-if : (b : Bool) (r s : Run) → Spared r → Spared s → Spared (if b then r else s)
Spared-if true r s h k = h
Spared-if false r s h k = k

Spared-setting_all : (ss : List PoolSetting) (r : Run) → Spared r → Spared (setting_all ss r)
Spared-setting_all [] r h = h
Spared-setting_all (s ∷ ss) r h = record { spared = (Spared-setting_all ss r h).spared }

module _ {F E : Type 0} (o : Outside F E) where
  Spared-after_wait : (w : Wait) → Spared (after_wait o w)
  Spared-after_wait signalled = record {
    spared =
        (Spared-if o.shuts_down (act stops_serving (ends stopped)) (ends (failed shutdown_failed))
          (record { spared = λ h. cc }) (record { spared = λ h. cc })).spared;
  }
  Spared-after_wait server_error = record { spared = λ h. cc }

  Spared-serving : (e : Option E) → Spared (serving o e)
  Spared-serving none = record { spared = λ h. cc }
  Spared-serving (some e) = record { spared = (Spared-after_wait o.wait).spared }

  Spared-with_tokens :
      (cfg : Config F) (m : TokenManager) (t : Option TokenManager)
      → t ≡ some m
      → Spared (with_tokens o cfg t)
  Spared-with_tokens cfg m none h = cc
  Spared-with_tokens cfg m (some t) h = Spared-serving _

  Spared-with_redis :
      (cfg : Config F) (m : TokenManager)
      → new_token_manager cfg.jwt ≡ some m
      → Spared (with_redis o cfg)
  Spared-with_redis cfg m h = record {
    spared =
        (Spared-if o.redis_answers
          (releasing redis_client (with_tokens o cfg (new_token_manager cfg.jwt)))
          (act (closes redis_client) (ends (failed redis_failed)))
          (record { spared = (Spared-with_tokens cfg m _ h).spared })
          (record { spared = λ k. cc })).spared;
  }

  Spared-with_mysql :
      (cfg : Config F) (m : TokenManager)
      → new_token_manager cfg.jwt ≡ some m
      → Spared (with_mysql o cfg)
  Spared-with_mysql cfg m h =
      Spared-if o.opens_pool _ _
        (record {
          spared =
              (Spared-setting_all (pool_settings cfg.mysql) _ (
                Spared-if o.mysql_answers (releasing mysql_pool (with_redis o cfg))
                  (act (closes mysql_pool) (ends (failed mysql_failed)))
                  (record { spared = (Spared-with_redis cfg m h).spared })
                  (record { spared = λ k. cc }))).spared;
        })
        (record { spared = λ k. cc })

  -- In production, with an issuer, the program never ends because the token manager refuses the
  -- configuration: the check of the configuration has seen to that.
  pub run_tokens :
      (c : Config F)
      → load o.at_most_zero o.viper ≡ loaded c
      → c.app_env ≡ codes "production"
      → is_empty c.jwt.issuer ≡ false
      → (run o).ending ≢ failed tokens_failed
  unfolding run
  run_tokens c read production issuer =
      let checked = ((load_iff o.at_most_zero o.viper c).0 read).2 in
      rw read
        (Spared-with_mysql c _
          (validate_production o.at_most_zero c checked production issuer)).spared
