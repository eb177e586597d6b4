-- ===== src/Cache/Laws.antt =====
-- What a cache server promises of GET and DEL, for a view of the values it holds.
use secunda_homework.Base.{ℕ, Option, none, some, true, ◌≡◌}
use secunda_homework.Text.{Bytes, codes}
use secunda_homework.Cache.{Cache}

-- A missing key reads as an empty string; a deletion that succeeds removes its key; no deletion
-- brings a key back.
pub record Deletes {R : Type 0} (c : Cache R) : Type 0 where
  pub held : R → Bytes → Option Bytes
  pub get_missing : (key : Bytes) (r : R) → held r key ≡ none → (c.get key r).0 ≡ some (codes "")
  pub del_gone : (key : Bytes) (r : R) → (c.del key r).0 ≡ true → held (c.del key r).1 key ≡ none
  pub del_keeps :
      (key other : Bytes) (r : R) → held r other ≡ none → held (c.del key r).1 other ≡ none

-- And of SET and GET, while a value has not expired: reading gives what was set, and changes nothing.
pub record Remembers {R : Type 0} (c : Cache R) : Type 0 where
  pub set_get :
      (key value : Bytes) (ttl : ℕ) (r : R) → (c.get key (c.set key value ttl r).1).0 ≡ some value
  pub get_same : (key : Bytes) (r : R) → (c.get key r).1 ≡ r
