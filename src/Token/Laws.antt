-- ===== src/Token/Laws.antt =====
-- What a token carries, and what the package promises of the tokens it has signed.
use secunda_homework.Base.{
  ℕ, ◌+◌, ◌≤◌, ◌<◌, ◌≢◌, ℤ, pos, Bool, true, false, Option, none, some, ◌≡◌, ◌↔◌, refl, arith,
  if◌then◌else◌, length,
}
use secunda_homework.Base
use secunda_homework.Text.{Bytes, is_empty, uint_mod}
use secunda_homework.Text.Decimal.{parse_uint-format_uint, format_uint-ne-nil}
use secunda_homework.Store.Monad.{ok}
use secunda_homework.Token.{
  Claims, JwtConfig, TokenManager, Method, hmac, Jwt, parsed, leeway, min_secret_len, user_id,
  new_token_manager, new_claims, issue_at, parse_token, key_for,
}

-- A token that the package has signed parses, under the same key and issuer, from its beginning to
-- its end, as the claims that were signed.
pub record Faithful (jwt : Jwt) : Type 0 where
  pub reads :
      (key_of : Method → Option Bytes) (key : Bytes) (c : Claims) (slack at : ℕ) (token : Bytes)
      → key_of hmac ≡ some key
      → jwt.sign key c ≡ some token
      → c.not_before ≤ at
      → at < c.expires_at
      → jwt.parse key_of c.issuer slack at token ≡ parsed c true

module _ (jwt : Jwt) (m : TokenManager) where
  pub user_id-new_claims :
      (id : ℕ) (email : Bytes) (at : ℕ)
      → id < uint_mod
      → user_id (new_claims jwt m id email at) ≡ id
  unfolding user_id new_claims
  user_id-new_claims id email at h = rw (format_uint-ne-nil id, parse_uint-format_uint id h)

  pub parse_token-issue_at :
      (law : Faithful jwt) (id : ℕ) (email : Bytes) (at later : ℕ) (token : Bytes)
      → issue_at jwt m id email at ≡ some token
      → (new_claims jwt m id email at).not_before ≤ later
      → later < (new_claims jwt m id email at).expires_at
      → parse_token jwt m later token ≡ ok (new_claims jwt m id email at)
  unfolding issue_at parse_token new_claims
  parse_token-issue_at law id email at later token h low high = rw (
      law.reads (key_for m) m.secret (new_claims jwt m id email at) leeway later token refl h low
        high)

-- A token manager is made with the secret, issuer and lifetime of its configuration exactly if the
-- secret has at least 32 bytes, the issuer is given and the lifetime is positive.
pub new_token_manager_iff :
    (cfg : JwtConfig)
    → (new_token_manager cfg
        ≡ some (record { secret = cfg.secret; issuer = cfg.issuer; ttl = cfg.ttl }))
      ↔ ((min_secret_len ≤ length cfg.secret)
          × (is_empty cfg.issuer ≡ false)
          × (Base.leb_ℤ cfg.ttl (pos 0) ≡ false))
unfolding new_token_manager
new_token_manager_iff cfg = (λ h. (ground arith, ground arith, ground arith), λ h. ground arith)
