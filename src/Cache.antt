-- ===== src/Cache.antt =====
-- internal/cache/redis.go: the interface `Cache` and its implementation over a Redis client, whose
-- operations are arguments.
pub mod Laws
use secunda_homework.Base.{ℕ, Bool, Option, none, some, ◌≡◌}
use secunda_homework.Text.{Bytes, codes}

-- The interface. An error is `none`, and `false` where nothing is returned.
pub record Cache (R : Type 0) : Type 0 where
  pub get : Bytes → R → Option Bytes × R
  pub set : Bytes → Bytes → ℕ → R → Bool × R
  pub set_ex : Bytes → Bytes → ℕ → R → Bool × R
  pub del : Bytes → R → Bool × R

-- A reply of the client to GET: `redis.Nil`, a value, or another error.
pub data Reply : Type 0 where
  missing : Reply
  value : Bytes → Reply
  failure : Reply

pub record Client (R : Type 0) : Type 0 where
  pub get : Bytes → R → Reply × R
  pub set : Bytes → Bytes → ℕ → R → Bool × R
  pub del : Bytes → R → Bool × R

-- A missing key is an empty string without an error.
abbrev pub of_reply : Reply → Option Bytes
of_reply missing = some (codes "")
of_reply (value v) = some v
of_reply failure = none

abbrev pub redis_cache : {R : Type 0} → Client R → Cache R
redis_cache client = record {
  get = λ key r. let (reply, r') = client.get key r in (of_reply reply, r');
  set = client.set;
  set_ex = client.set;
  del = client.del;
}
