-- ===== src/Tests.antt =====
-- Concrete runs: a small database, a cache that is a list of keys, and the theorems at them.
pub mod Requests
pub mod Routes
pub mod Login
pub mod Teams
pub mod Tokens
pub mod Limits
pub mod Program
pub mod Rights
pub mod Programs
pub mod Lists
pub mod Tasks
use secunda_homework.Base.{
  ℕ, ◌+◌, ℤ, pos, Bool, true, false, not, Option, none, some, List, [], ◌∷◌, ◌≡◌, ◌≢◌, ◌↔◌, ◌⊎◌,
  inl, inr, refl, arith, find, if◌then◌else◌,
}
use secunda_homework.Text.{Bytes, codes, beq, format_uint}
use secunda_homework.Text.Equality.{beq_refl}
use secunda_homework.Entity.Role
use secunda_homework.Entity.TaskStatus
use secunda_homework.Entity.Rows.{User, Team, TeamMember, Task}
use secunda_homework.Cache.{Cache}
use secunda_homework.Store.State.{Db, Seq, World, Env}

-- The keys that are held; every one holds the same value.
abbrev without : Bytes → List Bytes → List Bytes
without key [] = []
without key (k ∷ ks) = if beq k key then without key ks else k ∷ without key ks

abbrev key_cache : Cache (List Bytes)
key_cache = record {
  get =
      λ key r. (some (elim (find (λ k. beq k key) r) [ none ↦ codes "" | some k ↦ codes "x" ]), r);
  set = λ key value ttl r. (true, key ∷ r);
  set_ex = λ key value ttl r. (true, key ∷ r);
  del = λ key r. (true, without key r);
}

-- A world outside in which nothing fails but what is listed.
abbrev env_failing : (ℕ → Bool) → Env
env_failing db_fails = record {
  clock = λ n. 1000 + n;
  db_fails = db_fails;
  result_fails = λ n. false;
  collate = beq;
  column_time = λ t. t;
  odd_window = λ offset limit ts. none;
  format_time = format_uint;
  format_utc = format_uint;
  marshal = λ resp. some (codes "x");
  unmarshal = λ s. none;
}

abbrev calm : Env
calm = env_failing (λ n. false)

abbrev ann : User
ann = record {
  id = 1;
  email = codes "ann@x.io";
  password_hash = codes "h1";
  name = codes "Ann";
  created_at = 10;
  updated_at = 10;
}

abbrev bob : User
bob = record ann { id = 2; email = codes "bob@x.io"; name = codes "Bob" }

abbrev core : Team
core = record { id = 7; name = codes "core"; created_by = 1; created_at = 11; updated_at = 11 }

abbrev ann_in_core : TeamMember
ann_in_core = record { user_id = 1; team_id = 7; role = Role.owner; joined_at = 11 }

abbrev pub release : Task
release = record {
  id = 3;
  team_id = 7;
  title = codes "release";
  description = none;
  status = TaskStatus.todo;
  assignee_id = none;
  created_by = 1;
  created_at = 12;
  updated_at = 12;
  deleted_at = none;
}

abbrev tables : Db
tables = record {
  users = ann ∷ bob ∷ [];
  teams = core ∷ [];
  members = ann_in_core ∷ [];
  tasks = release ∷ [];
  history = [];
  comments = [];
}

abbrev start : World (List Bytes)
start = record {
  db = tables;
  seq = record { user = 3; team = 8; task = 4; history = 1; comment = 1 };
  redis = codes "task:list:team:7:status:any:page:1" ∷ [];
  step = 0;
}
