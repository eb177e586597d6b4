-- ===== src/Service/Stats.antt =====
-- internal/service/stats_service.go.
use secunda_homework.Base.{ℕ, ℤ, pos, ◌||◌, List, if◌then◌else◌, leb_ℤ, ltb_ℤ}
use secunda_homework.Text.{Bytes}
use secunda_homework.Dto.Stats.{TeamStatsResponse, TopCreatorEntry, OrphanTaskResponse}
use secunda_homework.Store.State.{Env}
use secunda_homework.Store.Monad.{M}
use secunda_homework.Repository.Stats.{team_stats_last_week, top_creators_by_team, orphan_tasks}

-- The bounds of `TopCreators`.
abbrev pub clamp_days : ℤ → ℤ
clamp_days since_days = if leb_ℤ since_days (pos 0) then pos 30 else since_days

abbrev pub clamp_creators : ℤ → ℤ
clamp_creators limit = if leb_ℤ limit (pos 0) || ltb_ℤ (pos 100) limit then pos 10 else limit

module _ {R : Type 0} (env : Env) where
  unfoldable pub last_week : M R (List TeamStatsResponse)
  last_week = team_stats_last_week env

  unfoldable pub top_creators : (ℕ → Bytes) → ℤ → ℤ → M R (List TopCreatorEntry)
  top_creators print since_days limit =
      top_creators_by_team env print (clamp_days since_days) (clamp_creators limit)

  unfoldable pub orphans : M R (List OrphanTaskResponse)
  orphans = orphan_tasks env
