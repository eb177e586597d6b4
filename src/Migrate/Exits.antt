-- ===== src/Migrate/Exits.antt =====
-- How a run of cmd/migrate/main.go ends, from what its arguments ask for.
use secunda_homework.Base.{
  ℤ, Bool, true, false, Option, none, some, List, [], ◌∷◌, ◌≡◌, if◌then◌else◌, is_none,
}
use secunda_homework.Text.{Bytes, codes, beq, is_empty, atoi}
use secunda_homework.Migrate.{MigrateError, no_change, nil_version, other_error, Migrator, Outcome}

-- What the arguments ask for.
pub data Action : Type 0 where
  go_up go_down show : Action
  go_by set_to : ℤ → Action

abbrev on_number : (ℤ → Action) → Option ℤ → Option Action
on_number f none = none
on_number f (some n) = some (f n)

abbrev first_number : (ℤ → Action) → List Bytes → Option Action
first_number f [] = none
first_number f (a ∷ rest) = on_number f (atoi a)

abbrev pub asked : Bytes → List Bytes → Option Action
asked cmd rest =
    if beq cmd (codes "up")
    then some go_up
    else if beq cmd (codes "down")
    then some go_down
    else if beq cmd (codes "steps")
    then first_number go_by rest
    else if beq cmd (codes "version")
    then some show
    else if beq cmd (codes "force")
    then first_number set_to rest
    else none

abbrev tolerated : Option MigrateError → Bool
tolerated none = true
tolerated (some no_change) = true
tolerated (some nil_version) = false
tolerated (some (other_error e)) = false

abbrev pub passes : {S : Type 0} → Migrator S → S → Action → Bool
passes m s go_up = tolerated (m.up s).0
passes m s go_down = tolerated (m.down s).0
passes m s show = true
passes m s (go_by n) = tolerated (m.steps n s).0
passes m s (set_to v) = is_none (m.force v s).0

module _ {S : Type 0} (m : Migrator S) where
  abbrev would_pass : S → Option Action → Bool
  would_pass s none = false
  would_pass s (some a) = passes m s a

  -- An outcome and what was asked agree on success.
  abbrev Agrees : S → Outcome × S → Option Action → Type 0
  Agrees s o a = is_none o.0.error ≡ would_pass s a

  -- A run that ends well.
  pub record EndsWell (cmd : Bytes) (rest : List Bytes) (dsn : Bytes) : Type 0 where
    pub state : S
    pub action : Action
    pub dsn_set : is_empty dsn ≡ false
    pub connected : m.connect dsn ≡ some state
    pub known : asked cmd rest ≡ some action
    pub done : passes m state action ≡ true
