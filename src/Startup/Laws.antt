-- ===== src/Startup/Laws.antt =====
-- Runs of cmd/app/main.go: what is held, and when the server listens.
use secunda_homework.Base.{
  ℕ, Bool, true, false, ◌&&◌, Option, none, some, List, [], ◌∷◌, ◌++◌, ◌≡◌, refl, ◌∙◌,
  if◌then◌else◌, ◌==◌, any, any-append,
}
use secunda_homework.Text.{Bytes, beq}
use secunda_homework.Token.{TokenManager}
use secunda_homework.Config.{Config, Loaded, not_read, not_decoded, not_valid, loaded, load}
use secunda_homework.Router.Table.{
  Route, healthz, routes, is_registered, handle_all, new_router, then_handle,
}
use secunda_homework.Startup.{
  Resource, root_context, mysql_pool, redis_client, shutdown_context, Act, opens, closes, listens,
  stops_serving, Run, Ending, act, ends, Outside, releasing, setting_all, pool_settings,
  PoolSetting, sets, serving, with_tokens, with_redis, with_mysql, configured, run,
}

abbrev rank : Resource → ℕ
rank root_context = 0
rank mysql_pool = 1
rank redis_client = 2
rank shutdown_context = 3

abbrev same : Resource → Resource → Bool
same x y = rank x == rank y

-- The database and Redis are held.
abbrev ready : List Resource → Bool
ready held = any (same mysql_pool) held && any (same redis_client) held

-- What is held after some acts, the last opened first, or nothing where one closes what was not
-- opened last, or serves without the database or Redis.
unfoldable pub held_after : List Resource → List Act → Option (List Resource)
held_after held [] = some held
held_after held (opens x ∷ acts) = held_after (x ∷ held) acts
held_after [] (closes x ∷ acts) = none
held_after (y ∷ held) (closes x ∷ acts) = if same x y then held_after held acts else none
held_after held (sets s ∷ acts) = held_after held acts
held_after held (listens ∷ acts) = if ready held then held_after held acts else none
held_after held (stops_serving ∷ acts) = if ready held then held_after held acts else none

-- Acts that turn what is held into something else.
record Leaves (held : List Resource) (r : Run) (after : List Resource) : Type 0 where
  leaves : (rest : List Act) → held_after held (r.acts ++ rest) ≡ held_after after rest

abbrev both : List Resource
both = redis_client ∷ mysql_pool ∷ root_context ∷ []

abbrev pub is_listening : Act → Bool
is_listening (opens x) = false
is_listening (closes x) = false
is_listening (sets s) = false
is_listening listens = true
is_listening stops_serving = false

-- A run in which the server does not listen.
record Quiet (r : Run) : Type 0 where
  silent : any is_listening r.acts ≡ false

Quiet-ends : (e : Ending) → Quiet (ends e)
unfolding any
Quiet-ends e = record { silent = refl }

Quiet-act : (a : Act) (r : Run) → is_listening a ≡ false → Quiet r → Quiet (act a r)
unfolding any
Quiet-act a r h q = record { silent = rw (h, q.silent) refl }

Quiet-if : (b : Bool) (r s : Run) → Quiet r → Quiet s → Quiet (if b then r else s)
Quiet-if true r s q k = q
Quiet-if false r s q k = k

Quiet-setting_all : (ss : List PoolSetting) (r : Run) → Quiet r → Quiet (setting_all ss r)
Quiet-setting_all [] r q = q
Quiet-setting_all (s ∷ ss) r q = Quiet-act (sets s) _ refl (Quiet-setting_all ss r q)

Quiet-releasing : (x : Resource) (r : Run) → Quiet r → Quiet (releasing x r)
unfolding any
Quiet-releasing x r q = record {
  silent = any-append is_listening r.acts (closes x ∷ []) ∙ rw q.silent refl;
}

module _ {F E : Type 0} (o : Outside F E) where
  -- gin panics on a second handler for a method and a path.
  abbrev pub RefusesTwice : Type 0
  RefusesTwice =
      (rs : List Route) (e : E) (r : Route)
      → handle_all o.engine rs (some o.engine.fresh) ≡ some e
      → is_registered r rs ≡ true
      → o.engine.handle r e ≡ none

  no_router :
      RefusesTwice
      → (path : Bytes) (e : Option E) → new_router o.engine path ≡ e
      → then_handle o.engine healthz e ≡ none
  unfolding new_router routes any beq
  no_router twice path none h = refl
  no_router twice path (some e) h = twice (routes path) e healthz h refl

  Quiet-serving : (e : Option E) → e ≡ none → Quiet (serving o e)
  Quiet-serving none h = Quiet-ends _
  Quiet-serving (some e) h = cc

  Quiet-with_tokens :
      RefusesTwice → (cfg : Config F) (t : Option TokenManager) → Quiet (with_tokens o cfg t)
  Quiet-with_tokens twice cfg none = Quiet-ends _
  Quiet-with_tokens twice cfg (some t) = Quiet-serving _ (no_router twice cfg.metrics.path _ refl)

  Quiet-with_redis : RefusesTwice → (cfg : Config F) → Quiet (with_redis o cfg)
  Quiet-with_redis twice cfg = Quiet-act (opens redis_client) _ refl (
      Quiet-if o.redis_answers _ _ (Quiet-releasing redis_client _ (Quiet-with_tokens twice cfg _))
        (Quiet-act (closes redis_client) _ refl (Quiet-ends _)))

  Quiet-with_mysql : RefusesTwice → (cfg : Config F) → Quiet (with_mysql o cfg)
  Quiet-with_mysql twice cfg =
      Quiet-if o.opens_pool _ _
        (Quiet-act (opens mysql_pool) _ refl (
          Quiet-setting_all (pool_settings cfg.mysql) _ (
            Quiet-if o.mysql_answers _ _ (Quiet-releasing mysql_pool _ (Quiet-with_redis twice cfg))
              (Quiet-act (closes mysql_pool) _ refl (Quiet-ends _)))))
        (Quiet-ends _)

  Quiet-configured : RefusesTwice → (c : Loaded F) → Quiet (configured o c)
  Quiet-configured twice not_read = Quiet-ends _
  Quiet-configured twice not_decoded = Quiet-ends _
  Quiet-configured twice (not_valid e) = Quiet-ends _
  Quiet-configured twice (loaded cfg) =
      Quiet-act (opens root_context) _ refl
        (Quiet-releasing root_context _ (Quiet-with_mysql twice cfg))

  -- With a gin that panics on a second handler for a method and a path, the program never gets to
  -- listen, whatever its configuration is and whatever else answers.
  pub never_listens : RefusesTwice → any is_listening (run o).acts ≡ false
  unfolding run
  never_listens twice = (Quiet-configured twice (load o.at_most_zero o.viper)).silent
