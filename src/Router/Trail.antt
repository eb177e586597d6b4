-- ===== src/Router/Trail.antt =====
-- The history of changes, over the requests that the program serves.
use secunda_homework.Base.{List}
use secunda_homework.Invariant.Trail.{IsAudited}
use secunda_homework.Invariant.Audit.{IsAudited-StatementLaws}
use secunda_homework.Invariant.Recorded.{Keeps-IsAudited_update}
use secunda_homework.Router.{Request, Deps, App, serve_all}
use secunda_homework.Router.Laws.{serve_all-Holds}

-- Whatever requests the program serves, one after another, with whatever calls failing, sound
-- tables in which the history tells the present stay so: for each task, the last entry for its
-- title, if there is one, has the title of the row, and so for its status.
pub serve_all-IsAudited :
    {R L : Type 0} (deps : Deps R L) (qs : List Request) (a : App R L)
    → IsAudited deps.env a.world.db a.world.seq
    → IsAudited deps.env (serve_all deps qs a).world.db (serve_all deps qs a).world.seq
serve_all-IsAudited deps qs a h =
    serve_all-Holds deps (IsAudited-StatementLaws deps.env)
      (Keeps-IsAudited_update deps.env deps.cache) qs a h
