-- ===== src/Dto/Stats.antt =====
-- internal/dto/stats.go: the rows of the reports.
use secunda_homework.Base.{ℕ, Option}
use secunda_homework.Text.{Bytes}

pub record TeamStatsResponse : Type 0 where
  pub team_id : ℕ
  pub team_name : Bytes
  pub member_count : ℕ
  pub done_last_7_days : ℕ

pub record TopCreatorEntry : Type 0 where
  pub team_id : ℕ
  pub team_name : Bytes
  pub user_id : ℕ
  pub user_name : Bytes
  pub user_email : Bytes
  pub task_count : ℕ
  pub rank : ℕ
  pub window_from : Bytes
  pub window_to : Bytes

pub record OrphanTaskResponse : Type 0 where
  pub task_id : ℕ
  pub team_id : ℕ
  pub title : Bytes
  pub assignee_id : Option ℕ
  pub assignee_email : Option Bytes
