-- ===== src/Entity/TaskStatus/Laws.antt =====
-- Parsing of task statuses (internal/entity/task_status.go).
use secunda_homework.Base.{true, some, ◌≡◌, ◌↔◌, ◌⊎◌, inl, inr, arith}
use secunda_homework.Text.{Bytes, beq, one_of}
use secunda_homework.Text.Equality.{beq_iff}
use secunda_homework.Entity.TaskStatus.{
  TaskStatus, todo, in_progress, done, to_lower, parse, is_valid,
}

-- A valid status is one of the three.
pub is_valid_iff :
    (r : TaskStatus) → (is_valid r ≡ true) ↔ ((r ≡ todo) ⊎ (r ≡ in_progress) ⊎ (r ≡ done))
unfolding is_valid one_of
is_valid_iff r = (
  λ h. ground (arith, beq_iff r todo, beq_iff r in_progress, beq_iff r done),
  λ h. ground (arith, beq_iff r todo, beq_iff r in_progress, beq_iff r done),
)

parse-is_valid :
    (s : Bytes) (r : TaskStatus)
    → parse s ≡ some r
    → (to_lower s ≡ r) × ((r ≡ todo) ⊎ (r ≡ in_progress) ⊎ (r ≡ done))
unfolding parse
parse-is_valid s r h =
    ground (
      arith,
      beq_iff (to_lower s) todo,
      beq_iff (to_lower s) in_progress,
      beq_iff (to_lower s) done,
    )

parse_complete :
    (s : Bytes) (r : TaskStatus)
    → (r ≡ todo) ⊎ (r ≡ in_progress) ⊎ (r ≡ done)
    → to_lower s ≡ r
    → parse s ≡ some r
unfolding parse beq
parse_complete s r (inl e) h = rw (h, e)
parse_complete s r (inr (inl e)) h = rw (h, e)
parse_complete s r (inr (inr e)) h = rw (h, e)

-- ParseTaskStatus succeeds exactly on the spellings of the three valid statuses in any mixture of
-- upper and lower case, and returns the lower-case spelling.
pub status_parse_iff :
    (s : Bytes) (r : TaskStatus) → (parse s ≡ some r) ↔ ((is_valid r ≡ true) × (to_lower s ≡ r))
status_parse_iff s r = (
  λ h. let (low, three) = parse-is_valid s r h in ((is_valid_iff r).1 three, low),
  λ h. parse_complete s r ((is_valid_iff r).0 h.0) h.1,
)

to_lower-eq : (r : TaskStatus) → (r ≡ todo) ⊎ (r ≡ in_progress) ⊎ (r ≡ done) → to_lower r ≡ r
unfolding to_lower
to_lower-eq r (inl e) = rw e
to_lower-eq r (inr (inl e)) = rw e
to_lower-eq r (inr (inr e)) = rw e

-- A valid status is read back from its own spelling.
pub parse-valid : (r : TaskStatus) → is_valid r ≡ true → parse r ≡ some r
parse-valid r h = let three = (is_valid_iff r).0 h in parse_complete r r three (to_lower-eq r three)
