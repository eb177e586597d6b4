-- ===== src/Middleware/Laws.antt =====
-- Who passes the check of the bearer token.
use secunda_homework.Base.{
  ℕ, ◌≤◌, ◌<◌, ◌≢◌, false, some, [], ◌∷◌, ◌++◌, ◌≡◌, refl, sym, ap, ◌∙◌, arith, inl, inr,
  Bool-cases, ◌==◌, ==_iff,
}
use secunda_homework.Text.{Bytes, codes, beq, is_empty, trim_space, uint_mod}
use secunda_homework.Store.Monad.{Result, ok, err}
use secunda_homework.Token.{Claims, Jwt, TokenManager, user_id, parse_token, issue_at, new_claims}
use secunda_homework.Token.Laws.{Faithful, user_id-new_claims, parse_token-issue_at}
use secunda_homework.Middleware.{
  Outcome, missing_token, invalid, authenticated, extract_bearer, admitted, require_auth,
}

-- The header that a client sends: the word Bearer and the token.
pub extract_bearer-token :
    (token : Bytes)
    → trim_space token ≡ token
    → is_empty token ≡ false
    → extract_bearer (codes "Bearer " ++ token) ≡ token
unfolding extract_bearer beq
extract_bearer-token [] h given = refl
extract_bearer-token (x ∷ xs) h given = ground arith

abbrev id_of : Outcome → ℕ
id_of missing_token = 0
id_of invalid = 0
id_of (authenticated id email) = id

abbrev email_of : Outcome → Bytes
email_of missing_token = []
email_of invalid = []
email_of (authenticated id email) = email

admitted-user :
    (id : ℕ) (email : Bytes) (c : Claims)
    → id ≢ 0
    → user_id c ≡ id
    → c.email ≡ email
    → admitted (ok c) ≡ authenticated id email
admitted-user id email c some_user p q = ground (arith, ==_iff (user_id c) 0)

new_claims-email :
    (jwt : Jwt) (m : TokenManager) (id : ℕ) (email : Bytes) (at : ℕ)
    → (new_claims jwt m id email at).email ≡ email
unfolding new_claims
new_claims-email jwt m id email at = refl

missing_token-authenticated : {id : ℕ} {email : Bytes} → missing_token ≢ authenticated id email
missing_token-authenticated h = cc

admitted-authenticated :
    (r : Result Claims) (id : ℕ) (email : Bytes)
    → admitted r ≡ authenticated id email
    → (id ≢ 0) × ((c : Claims) × (r ≡ ok c) × (user_id c ≡ id) × (c.email ≡ email))
admitted-authenticated (err e) id email h = cc
admitted-authenticated (ok c) id email h = elim (Bool-cases (user_id c == 0)) [
  | inl zero_id ↦ ground arith
  | inr user ↦
      let whole : authenticated (user_id c) c.email ≡ authenticated id email = sym (rw user) ∙ h in
      let same_id = ap id_of whole in
      (λ z. ground (arith, ==_iff (user_id c) 0), (c, refl, same_id, ap email_of whole))
]

module _ (jwt : Jwt) (m : TokenManager) where
  -- With a package that parses what it has signed within its time, a token issued for a user whose
  -- identifier is not 0 and fits 64 bits, sent as a bearer token from its beginning to before its
  -- end, is admitted as that user with that email; the token itself is not empty and has no white
  -- space at its ends.
  pub require_auth-issue_at :
      (law : Faithful jwt) (id : ℕ) (email : Bytes) (at later : ℕ) (token : Bytes)
      → id ≢ 0
      → id < uint_mod
      → issue_at jwt m id email at ≡ some token
      → trim_space token ≡ token
      → is_empty token ≡ false
      → (new_claims jwt m id email at).not_before ≤ later
      → later < (new_claims jwt m id email at).expires_at
      → require_auth jwt m later (codes "Bearer " ++ token) ≡ authenticated id email
  unfolding require_auth
  require_auth-issue_at law id email at later token some_user small h trimmed given low high =
      rw
        (
          extract_bearer-token token trimmed given,
          given,
          parse_token-issue_at jwt m law id email at later token h low high,
        )
        (admitted-user id email (new_claims jwt m id email at) some_user
          (user_id-new_claims jwt m id email at small) (new_claims-email jwt m id email at))

  -- A request that is admitted as a user has an identifier other than 0, and carries a bearer token
  -- that parses to claims of that user and email.
  pub require_auth_sound :
      (at : ℕ) (header : Bytes) (id : ℕ) (email : Bytes)
      → require_auth jwt m at header ≡ authenticated id email
      → (id ≢ 0)
        × ((c : Claims) × (parse_token jwt m at (extract_bearer header) ≡ ok c)
            × (user_id c ≡ id)
            × (c.email ≡ email))
  unfolding require_auth
  require_auth_sound at header id email h = elim (Bool-cases (is_empty (extract_bearer header))) [
    | inl empty ↦ absurd (missing_token-authenticated (sym (rw empty) ∙ h))
    | inr given ↦
        admitted-authenticated (parse_token jwt m at (extract_bearer header)) id email
          (sym (rw given) ∙ h)
  ]
