-- ===== src/Config/Laws.antt =====
-- The configuration and the token manager (internal/config/config.go, internal/auth/jwt.go).
use secunda_homework.Base.{Bool, true, false, Option, none, some, ◌≡◌, ◌↔◌, refl, ap, arith}
use secunda_homework.Text.{codes, is_empty}
use secunda_homework.Text.Equality.{beq_iff}
use secunda_homework.Token.{new_token_manager}
use secunda_homework.Token.Laws.{new_token_manager_iff}
use secunda_homework.Config.{
  Config, ConfigError, FileRead, file_read, file_missing, file_broken, Viper, loaded, defaults,
  bindings, validate, checked, decoded, after_read, load,
}

module _ {F : Type 0} (at_most_zero : F → Bool) where
  -- A configuration for production that passes its check and has an issuer is one that the token
  -- manager accepts.
  pub validate_production :
      (c : Config F)
      → validate at_most_zero c ≡ none
      → c.app_env ≡ codes "production"
      → is_empty c.jwt.issuer ≡ false
      → new_token_manager c.jwt
        ≡ some (record { secret = c.jwt.secret; issuer = c.jwt.issuer; ttl = c.jwt.ttl })
  unfolding validate
  validate_production c passed production issuer =
      let same = (beq_iff c.app_env (codes "production")).1 production in
      (new_token_manager_iff c.jwt).1 (ground arith, issuer, ground arith)

abbrev pub is_broken : FileRead → Bool
is_broken file_read = false
is_broken file_missing = false
is_broken file_broken = true

same_config : {F : Type 0} {c d : Config F} → some c ≡ some d → c ≡ d
same_config h = cc

module _ {F : Type 0} (at_most_zero : F → Bool) where
  checked_iff :
      (e : Option ConfigError) (d c : Config F)
      → checked at_most_zero e d ≡ loaded c ↔ (e ≡ none) × (d ≡ c)
  checked_iff none d c = (λ h. (refl, cc), λ h. rw h.1 refl)
  checked_iff (some e) d c = (λ h. cc, λ h. cc)

  decoded_iff :
      (o : Option (Config F)) (c : Config F)
      → decoded at_most_zero o ≡ loaded c ↔ (o ≡ some c) × (validate at_most_zero c ≡ none)
  decoded_iff none c = (λ h. cc, λ h. cc)
  decoded_iff (some d) c = (
    λ h. let k = (checked_iff (validate at_most_zero d) d c).0 h in (ap some k.1, rw (← k.1) k.0),
    λ h. (checked_iff (validate at_most_zero d) d c).1 (rw (same_config h.0) h.1, same_config h.0),
  )

  -- The configuration is loaded just when a file that is there can be read, what Viper makes of it,
  -- of the defaults and of the variables can be decoded, and the result passes the check.
  pub load_iff :
      (v : Viper F) (c : Config F)
      → load at_most_zero v ≡ loaded c
        ↔ (is_broken v.read_in_config ≡ false)
          × (v.unmarshal defaults bindings v.read_in_config ≡ some c)
          × (validate at_most_zero c ≡ none)
  unfolding load
  load_iff v c = read_iff v v.read_in_config c
    where
      read_iff :
          (v : Viper F) (r : FileRead) (c : Config F)
          → after_read at_most_zero v r ≡ loaded c
            ↔ (is_broken r ≡ false)
              × (v.unmarshal defaults bindings r ≡ some c)
              × (validate at_most_zero c ≡ none)
      read_iff v file_read c = (
        λ h. let k = (decoded_iff _ c).0 h in (refl, k.0, k.1),
        λ h. (decoded_iff _ c).1 (h.1, h.2),
      )
      read_iff v file_missing c = (
        λ h. let k = (decoded_iff _ c).0 h in (refl, k.0, k.1),
        λ h. (decoded_iff _ c).1 (h.1, h.2),
      )
      read_iff v file_broken c = (λ h. cc, λ h. cc)
