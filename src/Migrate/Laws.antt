-- ===== src/Migrate/Laws.antt =====
-- Runs of cmd/migrate/main.go: what is called, and how a run ends.
use secunda_homework.Base.{
  ◌⊎◌, inl, inr, ◌≤◌, ℤ, Bool, true, false, Option, none, some, List, [], ◌∷◌, ◌++◌, ◌≡◌, refl,
  arith, if◌then◌else◌, length, any, select, Bool-cases,
}
use secunda_homework.Text.{Bytes, codes, beq, is_empty, atoi}
use secunda_homework.Migrate.{
  MigrateError, no_change, nil_version, other_error, Migrator, Call, called_new, called_up,
  called_down, called_version, called_close, called_steps, called_force, RunError, Outcome,
  print_version, tolerant, strict, numbered, with_number, command, opened, run,
}

-- The calls that may write to the database.
abbrev pub changes : Call → Bool
changes called_new = false
changes called_up = true
changes called_down = true
changes called_version = false
changes called_close = false
changes (called_steps n) = true
changes (called_force n) = true

abbrev pub is_end : Call → Bool
is_end called_new = true
is_end called_up = false
is_end called_down = false
is_end called_version = false
is_end called_close = true
is_end (called_steps n) = false
is_end (called_force n) = false

abbrev pub IsMiddle : List Call → Type 0
IsMiddle cs = (length (select changes cs) ≤ 1) × (any is_end cs ≡ false)

IsMiddle-one : (call : Call) → is_end call ≡ false → IsMiddle (call ∷ [])
unfolding any select
IsMiddle-one call h = (ground arith, ground arith)

IsMiddle-two : (call : Call) → is_end call ≡ false → IsMiddle (call ∷ called_version ∷ [])
unfolding any select
IsMiddle-two call h = (ground arith, ground arith)

IsMiddle-none : IsMiddle []
unfolding any select
IsMiddle-none = (omega arith, refl)

IsMiddle-if :
    {S : Type 0} (b : Bool) (o p : Outcome × S)
    → IsMiddle o.0.calls
    → IsMiddle p.0.calls
    → IsMiddle (if b then o else p).0.calls
IsMiddle-if true o p h k = h
IsMiddle-if false o p h k = k

module _ {S : Type 0} (m : Migrator S) where
  IsMiddle-tolerant :
      (fail : MigrateError → RunError) (call : Call) (r : Option MigrateError × S)
      → is_end call ≡ false
      → IsMiddle (tolerant m fail call r).0.calls
  unfolding tolerant print_version
  IsMiddle-tolerant fail call (none, s) h = IsMiddle-two call h
  IsMiddle-tolerant fail call (some no_change, s) h = IsMiddle-two call h
  IsMiddle-tolerant fail call (some nil_version, s) h = IsMiddle-one call h
  IsMiddle-tolerant fail call (some (other_error e), s) h = IsMiddle-one call h

  IsMiddle-strict :
      (fail : MigrateError → RunError) (call : Call) (r : Option MigrateError × S)
      → is_end call ≡ false
      → IsMiddle (strict m fail call r).0.calls
  unfolding strict print_version
  IsMiddle-strict fail call (none, s) h = IsMiddle-two call h
  IsMiddle-strict fail call (some e, s) h = IsMiddle-one call h

  IsMiddle-number :
      (missing : RunError) (go : ℤ → S → Outcome × S) (rest : List Bytes) (s : S)
      → ((n : ℤ) → IsMiddle (go n s).0.calls)
      → IsMiddle (with_number m missing go rest s).0.calls
  IsMiddle-number missing go [] s h = IsMiddle-none
  IsMiddle-number missing go (a ∷ rest) s h = IsMiddle-read go s (atoi a) h
    where
      IsMiddle-read :
          (go : ℤ → S → Outcome × S) (s : S) (o : Option ℤ)
          → ((n : ℤ) → IsMiddle (go n s).0.calls)
          → IsMiddle (numbered m go s o).0.calls
      IsMiddle-read go s none h = IsMiddle-none
      IsMiddle-read go s (some n) h = h n

  IsMiddle-command :
      (cmd : Bytes) (rest : List Bytes) (s : S) → IsMiddle (command m cmd rest s).0.calls
  unfolding command print_version
  IsMiddle-command cmd rest s =
      IsMiddle-if (beq cmd (codes "up")) _ _ (IsMiddle-tolerant _ _ _ refl) (
        IsMiddle-if (beq cmd (codes "down")) _ _ (IsMiddle-tolerant _ _ _ refl) (
          IsMiddle-if (beq cmd (codes "steps")) _ _
            (IsMiddle-number _ _ rest s (λ n. IsMiddle-tolerant _ _ _ refl))
            (IsMiddle-if (beq cmd (codes "version")) _ _ (IsMiddle-one called_version refl) (
              IsMiddle-if (beq cmd (codes "force")) _ _
                (IsMiddle-number _ _ rest s (λ n. IsMiddle-strict _ _ _ refl)) IsMiddle-none))))

  -- Nothing is called without a command or a data source, no more than the opening where the
  -- package refuses it, and else what is between the opening and a closing.
  pub data Bracketed (args : List Bytes) (dsn : Bytes) : List Call → Type 0 where
    untouched : (length args ≤ 1) ⊎ (is_empty dsn ≡ true) → Bracketed args dsn []
    unopened :
        2 ≤ length args
        → is_empty dsn ≡ false
        → m.connect dsn ≡ none
        → Bracketed args dsn (called_new ∷ [])
    bracketed :
        (s : S) (cs : List Call)
        → 2 ≤ length args
        → is_empty dsn ≡ false
        → m.connect dsn ≡ some s
        → IsMiddle cs
        → Bracketed args dsn (called_new ∷ (cs ++ called_close ∷ []))

  connected-Bracketed :
      (program cmd : Bytes) (rest : List Bytes) (dsn : Bytes) (o : Option S)
      → is_empty dsn ≡ false
      → m.connect dsn ≡ o
      → Bracketed (program ∷ cmd ∷ rest) dsn (opened m cmd rest o).calls
  connected-Bracketed program cmd rest dsn none set e = unopened (omega arith) set e
  connected-Bracketed program cmd rest dsn (some s) set e =
      bracketed s _ (omega arith) set e (IsMiddle-command cmd rest s)

  -- Whatever its arguments, its environment and the package's answers, a run without a command or
  -- without MYSQL_DSN calls nothing, a run that the package refuses to open the migrations for
  -- calls nothing else, and every other run closes at the end what it has opened, with at most one
  -- call in between that may write to the database.
  pub run-Bracketed : (args : List Bytes) (dsn : Bytes) → Bracketed args dsn (run m args dsn).calls
  unfolding run
  run-Bracketed [] dsn = untouched (inl (omega arith))
  run-Bracketed (program ∷ []) dsn = untouched (inl (omega arith))
  run-Bracketed (program ∷ cmd ∷ rest) dsn = elim (Bool-cases (is_empty dsn)) [
    | inl unset ↦ rw unset (untouched (inr unset))
    | inr set ↦ rw set (connected-Bracketed program cmd rest dsn (m.connect dsn) set refl)
  ]
