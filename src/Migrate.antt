-- ===== src/Migrate.antt =====
-- cmd/migrate/main.go. The package golang-migrate, with the database and the migration files, is an
-- argument; what the program asks of it is kept as a list of calls.
pub mod Laws
pub mod Exits
use secunda_homework.Base.{ℕ, ℤ, Bool, Option, none, some, List, [], ◌∷◌, ◌++◌, if◌then◌else◌}
use secunda_homework.Text.{Bytes, codes, beq, is_empty, atoi}

-- The errors of the package: `ErrNoChange`, `ErrNilVersion` and others.
pub data MigrateError : Type 0 where
  no_change nil_version : MigrateError
  other_error : Bytes → MigrateError

-- `Version`: a version and whether it is dirty, or an error.
pub data Version : Type 0 where
  version_of : ℕ → Bool → Version
  no_version_of : MigrateError → Version

pub record Migrator (S : Type 0) : Type 0 where
  -- `New` with the environment's data source: a state, or the text of an error.
  pub connect : Bytes → Option S
  pub up : S → Option MigrateError × S
  pub down : S → Option MigrateError × S
  pub steps : ℤ → S → Option MigrateError × S
  pub force : ℤ → S → Option MigrateError × S
  pub version : S → Version
  -- The errors of the source and of the database.
  pub close : S → Option Bytes × Option Bytes

pub data Call : Type 0 where
  called_new called_up called_down called_version called_close : Call
  called_steps called_force : ℤ → Call

pub data Line : Type 0 where
  version_line : ℕ → Bool → Line
  none_line : Line
  version_error close_source close_db : Line

pub data RunError : Type 0 where
  usage no_dsn init_failed usage_steps usage_force not_a_number : RunError
  unknown_command : Bytes → RunError
  up_failed down_failed steps_failed force_failed : MigrateError → RunError

-- What a run has done: its calls and its lines, in order, and the error it ends with.
pub record Outcome : Type 0 where
  pub calls : List Call
  pub lines : List Line
  pub error : Option RunError

abbrev refused : RunError → Outcome
refused e = record { calls = []; lines = []; error = some e }

module _ {S : Type 0} (m : Migrator S) where
  abbrev version_lines : Version → List Line
  version_lines (version_of v dirty) = version_line v dirty ∷ []
  version_lines (no_version_of nil_version) = none_line ∷ []
  version_lines (no_version_of no_change) = version_error ∷ []
  version_lines (no_version_of (other_error e)) = version_error ∷ []

  -- `printVersion`, after a call.
  unfoldable pub print_version : List Call → S → Outcome × S
  print_version before s = (
    record {
      calls = before ++ called_version ∷ [];
      lines = version_lines (m.version s);
      error = none;
    },
    s,
  )

  abbrev stopped : RunError → Call → S → Outcome × S
  stopped e call s = (record { calls = call ∷ []; lines = []; error = some e }, s)

  -- A call after which `ErrNoChange` is no error.
  unfoldable pub tolerant : (MigrateError → RunError) → Call → Option MigrateError × S → Outcome × S
  tolerant fail call (none, s) = print_version (call ∷ []) s
  tolerant fail call (some no_change, s) = print_version (call ∷ []) s
  tolerant fail call (some nil_version, s) = stopped (fail nil_version) call s
  tolerant fail call (some (other_error e), s) = stopped (fail (other_error e)) call s

  unfoldable pub strict : (MigrateError → RunError) → Call → Option MigrateError × S → Outcome × S
  strict fail call (none, s) = print_version (call ∷ []) s
  strict fail call (some e, s) = stopped (fail e) call s

  abbrev pub numbered : (ℤ → S → Outcome × S) → S → Option ℤ → Outcome × S
  numbered run s none = (refused not_a_number, s)
  numbered run s (some n) = run n s

  -- The argument N or V.
  abbrev pub with_number : RunError → (ℤ → S → Outcome × S) → List Bytes → S → Outcome × S
  with_number missing run [] s = (refused missing, s)
  with_number missing run (a ∷ rest) s = numbered run s (atoi a)

  -- The switch on `os.Args[1]`.
  unfoldable pub command : Bytes → List Bytes → S → Outcome × S
  command cmd rest s =
      if beq cmd (codes "up")
      then tolerant up_failed called_up (m.up s)
      else if beq cmd (codes "down")
      then tolerant down_failed called_down (m.down s)
      else if beq cmd (codes "steps")
      then with_number usage_steps (λ n s. tolerant steps_failed (called_steps n) (m.steps n s))
          rest s
      else if beq cmd (codes "version")
      then print_version [] s
      else if beq cmd (codes "force")
      then with_number usage_force (λ v s. strict force_failed (called_force v) (m.force v s)) rest
          s
      else (refused (unknown_command cmd), s)

  abbrev close_lines : Option Bytes × Option Bytes → List Line
  close_lines (none, none) = []
  close_lines (some e, none) = close_source ∷ []
  close_lines (none, some e) = close_db ∷ []
  close_lines (some e, some f) = close_source ∷ close_db ∷ []

  -- The deferred `Close`.
  abbrev pub closed : Outcome × S → Outcome
  closed (o, s) = record {
    calls = called_new ∷ (o.calls ++ called_close ∷ []);
    lines = o.lines ++ close_lines (m.close s);
    error = o.error;
  }

  abbrev pub opened : Bytes → List Bytes → Option S → Outcome
  opened cmd rest none = record { calls = called_new ∷ []; lines = []; error = some init_failed }
  opened cmd rest (some s) = closed (command cmd rest s)

  -- `run`, on the arguments and the value of MYSQL_DSN.
  unfoldable pub run : List Bytes → Bytes → Outcome
  run [] dsn = refused usage
  run (program ∷ []) dsn = refused usage
  run (program ∷ cmd ∷ rest) dsn =
      if is_empty dsn then refused no_dsn else opened cmd rest (m.connect dsn)

-- `main`.
abbrev pub code_of : Option RunError → ℕ
code_of none = 0
code_of (some e) = 1

abbrev pub exit_code : Outcome → ℕ
exit_code o = code_of o.error
