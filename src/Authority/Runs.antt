-- ===== src/Authority/Runs.antt =====
-- Isolation of teams over the requests that the program serves (internal/router/router.go).
use secunda_homework.Base.{
  inl, inr, ℕ, suc, ◌≤◌, true, ◌≡◌, refl, ◌∙◌, arith, List, [], ◌∷◌, All, ◌==◌, leb, any-append,
  Bool-cases,
}
use secunda_homework.Text.{Bytes}
use secunda_homework.Entity.Rows.{Team}
use secunda_homework.Store.State.{Db, Seq}
use secunda_homework.Middleware.{authenticated, require_auth}
use secunda_homework.Repository.Rows.{team_exists}
use secunda_homework.Invariant.{IsSound}
use secunda_homework.Invariant.Tables.{Keyed, Keyed-lt}
use secunda_homework.Router.{Request, open_request, authed_request, Deps, App, serve, serve_all}
use secunda_homework.Router.Laws.{serve-IsSound}
use secunda_homework.Authority.{
  Step, stay, add_team, found_team, invite, add_task, change_task, delete_task, comment,
}
use secunda_homework.Authority.Accounts.{Join, unjoined, joined}
use secunda_homework.Authority.Routes.{Allowed, unchanged, opened, acted, serve-Allowed}
use secunda_homework.Authority.Isolation.{TeamView, view, IsOutsider, Step-isolated}

-- Teams are not removed.
Step-team :
    (uid team : ℕ) (d : Db) (s : Seq) (d' : Db)
    → Step uid d s d'
    → team_exists team d.teams ≡ true
    → team_exists team d'.teams ≡ true
unfolding team_exists
Step-team uid team d s _ stay h = h
Step-team uid team d s _ (add_team t key mine) h =
    ground (arith, any-append (λ t. t.id == team) d.teams (t ∷ []))
Step-team uid team d s _ (found_team t m key mine of_team by_me owner) h =
    ground (arith, any-append (λ t. t.id == team) d.teams (t ∷ []))
Step-team uid team d s _ (invite m actor belongs may new) h = h
Step-team uid team d s _ (add_task t m belongs mine) h = h
Step-team uid team d s _ (change_task t m k time p entries found belongs by_me) h = h
Step-team uid team d s _ (delete_task t m k time found belongs) h = h
Step-team uid team d s _ (comment t m c found belongs mine) h = h

existing-lt :
    (team hi : ℕ) (teams : List Team)
    → Keyed (λ t. t.id) 0 teams hi
    → team_exists team teams ≡ true
    → suc team ≤ hi
unfolding team_exists
existing-lt team hi teams keys h = elim (Bool-cases (leb hi team)) [
  | inl above ↦ ground (arith, Keyed-lt (λ t. t.id) 0 hi team teams keys (ground arith))
  | inr below ↦ ground arith
]

module _ {R L : Type 0} (deps : Deps R L) (team : ℕ) where
  -- A request that the team's rows do not hang on: it needs no token, or its token, whenever it
  -- is checked, is that of a user who is not in the team.
  abbrev pub IsForeign : TeamView → Request → Type 0
  IsForeign v (open_request route) = Unit
  IsForeign v (authed_request header route) =
      (at id : ℕ) (email : Bytes)
      → require_auth deps.lib.jwt deps.lib.tokens at header ≡ authenticated id email
      → IsOutsider team id v

  joins :
      (a : App R L) (d : Db)
      → team_exists team a.world.db.teams ≡ true
      → Join deps.env a.world.db a.world.seq d
      → (view team d ≡ view team a.world.db) × (team_exists team d.teams ≡ true)
  joins a _ h unjoined = (refl, h)
  joins a _ h (joined u key new) = (refl, h)

  allowed :
      (q : Request) (a : App R L) (d : Db)
      → IsSound deps.env a.world.db a.world.seq
      → team_exists team a.world.db.teams ≡ true
      → IsForeign (view team a.world.db) q
      → Allowed deps a q d
      → (view team d ≡ view team a.world.db) × (team_exists team d.teams ≡ true)
  allowed _ a _ sound h f (unchanged q) = (refl, h)
  allowed _ a _ sound h f (opened body d j) = joins a d h j
  allowed _ a _ sound h f (acted header route id email d e step) = (
    Step-isolated team id a.world.db a.world.seq sound.task_keys
        (existing-lt team a.world.seq.team a.world.db.teams sound.team_keys h) (f _ id email e) d
        step,
    Step-team id team _ _ d step h,
  )

  -- Whatever is served of requests that need no token or whose tokens are those of users who are
  -- not in a team, in whatever order and with whatever calls failing, the team's rows are after it
  -- what they were: its members, its tasks, and their comments and history, from sound tables on.
  pub serve_all-isolated :
      (qs : List Request) (a : App R L)
      → IsSound deps.env a.world.db a.world.seq
      → team_exists team a.world.db.teams ≡ true
      → All (IsForeign (view team a.world.db)) qs
      → view team (serve_all deps qs a).world.db ≡ view team a.world.db
  unfolding serve_all
  serve_all-isolated [] a sound h f = refl
  serve_all-isolated (q ∷ qs) a sound h f =
      let one = allowed q a _ sound h f.0 (serve-Allowed deps q a) in
      serve_all-isolated qs (serve deps q a).1 (serve-IsSound deps q a sound) one.1 (rw one.0 f.1)
      ∙ one.0
