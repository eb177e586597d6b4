-- ===== src/Entity/TaskStatus.antt =====
-- internal/entity/task_status.go. A `TaskStatus` is any string; three of them are valid.
pub mod Laws
use secunda_homework.Base.{Bool, Option, none, some, List, [], ◌∷◌, map, if◌then◌else◌}
use secunda_homework.Text.{Bytes, codes, beq, one_of, lower_byte}

abbrev pub TaskStatus : Type 0
TaskStatus = Bytes

abbrev pub todo : TaskStatus
todo = codes "todo"

abbrev pub in_progress : TaskStatus
in_progress = codes "in_progress"

abbrev pub done : TaskStatus
done = codes "done"

abbrev pub valid_statuses : List TaskStatus
valid_statuses = todo ∷ in_progress ∷ done ∷ []

unfoldable pub to_lower : TaskStatus → TaskStatus
to_lower s = map lower_byte s

-- `ParseTaskStatus`; the error is `none`.
unfoldable pub parse : Bytes → Option TaskStatus
parse s =
    let t = to_lower s in
    if beq t todo
    then some todo
    else if beq t in_progress
    then some in_progress
    else if beq t done
    then some done
    else none

unfoldable pub is_valid : TaskStatus → Bool
is_valid s = one_of s valid_statuses
