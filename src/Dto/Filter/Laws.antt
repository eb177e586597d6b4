-- ===== src/Dto/Filter/Laws.antt =====
-- The bounds of the filter and of the offset (internal/dto/filter.go).
use secunda_homework.Base.{
  ℕ, pos, negsuc, true, ◌≤ℤ◌, ◌+◌, ◌-◌, ◌*◌, ◌≤◌, ◌<◌, ◌≡◌, ◌⊎◌, inl, inr, refl, arith, [],
  pos-sub_one, pos-mul, wrap_overflows, Option-cases, int_max, int_mod, wrap_fits, Bool-cases,
}
use secunda_homework.Text.{Bytes, codes, is_empty, parse_uint, uint_mod}
use secunda_homework.Text.Decimal.{parse_uint-lt}
use secunda_homework.Entity.TaskStatus
use secunda_homework.Entity.TaskStatus.Laws.{status_parse_iff}
use secunda_homework.Dto.Filter.{
  TaskFilter, max_page_limit, min_page_limit, bind_task_filter, offset, parsed, with_status,
  with_team,
}

-- What every filter bound from a request satisfies.
pub record IsBound (f : TaskFilter) : Type 0 where
  pub team_fits : f.team_id < uint_mod
  pub status_known : (f.status ≡ []) ⊎ (TaskStatus.is_valid f.status ≡ true)
  pub page_low : pos 1 ≤ℤ f.page
  pub limit_low : min_page_limit ≤ℤ f.limit
  pub limit_high : f.limit ≤ℤ max_page_limit

with_team-lt : (v : Bytes) → with_team (parsed parse_uint v) < uint_mod
with_team-lt v = elim (Bool-cases (is_empty v)) [
  | inl absent ↦ rw absent (omega arith)
  | inr given ↦ rw given (elim (Option-cases (parse_uint v)) [
    | inl bad ↦ rw bad (omega arith)
    | inr (n, good) ↦ rw good (parse_uint-lt v good)
  ])
]

with_status-known :
    (v : Bytes)
    → (with_status (parsed TaskStatus.parse v) ≡ [])
      ⊎ (TaskStatus.is_valid (with_status (parsed TaskStatus.parse v)) ≡ true)
with_status-known v = elim (Bool-cases (is_empty v)) [
  | inl absent ↦ rw absent (inl refl)
  | inr given ↦ rw given (elim (Option-cases (TaskStatus.parse v)) [
    | inl bad ↦ rw bad (inl refl)
    | inr (s, good) ↦ rw good (inr ((status_parse_iff v s).0 good).0)
  ])
]

-- Whatever the query string, the filter has a page of at least 1, a limit from 1 to 100, a status
-- that is empty or valid, and a team identifier that fits 64 bits.
pub bind_task_filter-IsBound : (get : Bytes → Bytes) → IsBound (bind_task_filter get)
unfolding bind_task_filter
bind_task_filter-IsBound get = record {
  team_fits = with_team-lt (get (codes "team_id"));
  status_known = with_status-known (get (codes "status"));
  page_low = ground arith;
  limit_low = ground arith;
  limit_high = ground arith;
}

-- For a page p + 1 with p and p times the limit below 2^63, the offset is p times the limit.
pub offset_fits :
    (f : TaskFilter) (p l : ℕ)
    → f.page ≡ pos (p + 1)
    → f.limit ≡ pos l
    → p < int_max
    → p * l < int_max
    → offset f ≡ pos (p * l)
unfolding offset
offset_fits f p l hp hl small fits =
    rw (hp, hl, pos-sub_one, wrap_fits p small, pos-mul) (wrap_fits (p * l) fits)

-- For a page p + 1 with p below 2^63 and p times the limit from 2^63 to 2^64 - 1, the offset wraps
-- round to a negative number.
pub offset_overflows :
    (f : TaskFilter) (p l : ℕ)
    → f.page ≡ pos (p + 1)
    → f.limit ≡ pos l
    → p < int_max
    → int_max ≤ p * l
    → p * l < int_mod
    → offset f ≡ negsuc (int_mod - p * l - 1)
unfolding offset
offset_overflows f p l hp hl small low high =
    rw (hp, hl, pos-sub_one, wrap_fits p small, pos-mul) (wrap_overflows (p * l) low high)
