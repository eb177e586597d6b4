-- ===== src/Dto/Filter.antt =====
-- internal/dto/filter.go: the filter of the task list, from the query parameters.
pub mod Laws
use secunda_homework.Base.{
  ℕ, ℤ, pos, Bool, true, false, ◌&&◌, Option, none, some, if◌then◌else◌, ltb_ℤ, leb_ℤ, ◌-ℤ◌, ◌*ℤ◌,
  wrap,
}
use secunda_homework.Text.{Bytes, codes, is_empty, parse_uint, atoi}
use secunda_homework.Entity.TaskStatus
use secunda_homework.Entity.TaskStatus.{TaskStatus}

abbrev pub default_page_limit : ℤ
default_page_limit = pos 20

abbrev pub max_page_limit : ℤ
max_page_limit = pos 100

abbrev pub min_page_limit : ℤ
min_page_limit = pos 1

pub record TaskFilter : Type 0 where
  pub team_id : ℕ
  pub status : TaskStatus
  pub assignee_id : Option ℕ
  pub page : ℤ
  pub limit : ℤ

-- A parameter that is absent or cannot be parsed leaves the default.
abbrev parsed {ℓ} : {A : Type ℓ} → (Bytes → Option A) → Bytes → Option A
parsed parse v = if is_empty v then none else parse v

abbrev with_team : Option ℕ → ℕ
with_team none = 0
with_team (some id) = id

abbrev with_status : Option TaskStatus → TaskStatus
with_status none = codes ""
with_status (some s) = s

abbrev with_page : Option ℤ → ℤ
with_page none = pos 1
with_page (some p) = if ltb_ℤ (pos 0) p then p else pos 1

abbrev with_limit : Option ℤ → ℤ
with_limit none = default_page_limit
with_limit (some l) = if leb_ℤ (pos 0) l then l else default_page_limit

-- The two tests at the end, in their order.
abbrev clamp_limit : ℤ → ℤ
clamp_limit l =
    let l' = if ltb_ℤ max_page_limit l then max_page_limit else l in
    if ltb_ℤ l' min_page_limit then min_page_limit else l'

unfoldable pub bind_task_filter : (Bytes → Bytes) → TaskFilter
bind_task_filter get = record {
  team_id = with_team (parsed parse_uint (get (codes "team_id")));
  status = with_status (parsed TaskStatus.parse (get (codes "status")));
  assignee_id = parsed parse_uint (get (codes "assignee_id"));
  page = with_page (parsed atoi (get (codes "page")));
  limit = clamp_limit (with_limit (parsed atoi (get (codes "limit"))));
}

-- `int` arithmetic, which wraps.
unfoldable pub offset : TaskFilter → ℤ
offset f = wrap (wrap (f.page -ℤ pos 1) *ℤ f.limit)
