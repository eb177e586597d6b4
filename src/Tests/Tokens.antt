-- ===== src/Tests/Tokens.antt =====
-- Tokens and the check of the bearer token at concrete values.
use secunda_homework.Base.{
  ℕ, zero, suc, ◌≢◌, true, false, Option, none, some, [], ◌∷◌, ◌++◌, ◌≡◌, refl, arith, length, sym,
  ap, ◌∙◌,
}
use secunda_homework.Text.{Bytes, codes, is_empty, trim_space}
use secunda_homework.Store.Monad.{ok}
use secunda_homework.Token.{
  Claims, JwtConfig, TokenManager, Method, hmac, Jwt, Verdict, refused, parsed, min_secret_len,
  user_id, new_token_manager, new_claims, issue_at, parse_token,
}
use secunda_homework.Token.Laws.{Faithful}
use secunda_homework.Middleware.{authenticated, extract_bearer, require_auth}
use secunda_homework.Middleware.Laws.{require_auth-issue_at, require_auth_sound}
use secunda_homework.Tests.Login.{manager}

abbrev split : ℕ → Bytes → Bytes × Bytes
split zero s = ([], s)
split (suc n) [] = ([], [])
split (suc n) (x ∷ xs) = let (a, b) = split n xs in (x ∷ a, b)

split-append : (s t : Bytes) → split (length s) (s ++ t) ≡ (s, t)
split-append [] t = refl
split-append (x ∷ xs) t = rw (split-append xs t) refl

abbrev encode : Claims → Bytes
encode c =
    c.issued_at
    ∷ c.expires_at
    ∷ c.not_before
    ∷ length c.email
    ∷ length c.subject
    ∷ (c.email ++ (c.subject ++ c.issuer))

abbrev decode : Bytes → Option Claims
decode (i ∷ e ∷ n ∷ l ∷ k ∷ s) =
    let (email, rest) = split l s in
    let (subject, issuer) = split k rest in
    some (record {
      email = email;
      subject = subject;
      issuer = issuer;
      issued_at = i;
      expires_at = e;
      not_before = n;
    })
decode s = none

abbrev verdict : Option Bytes → Option Claims → Verdict
verdict (some key) (some c) = parsed c true
verdict key c = refused false false

-- A package whose tokens spell their claims out.
abbrev open_jwt : Jwt
open_jwt = record {
  numeric_date = λ t. t;
  sign = λ key c. some (encode c);
  parse = λ key_of issuer slack at token. verdict (key_of hmac) (decode token);
}

decode-encode : (c : Claims) → decode (encode c) ≡ some c
decode-encode c =
    rw (split-append c.email (c.subject ++ c.issuer), split-append c.subject c.issuer) refl

open_jwt-Faithful : Faithful open_jwt
open_jwt-Faithful = record {
  reads = λ key_of key c slack at token k signed low high.
      let same : encode c ≡ token = ground arith in
      rw k (ap (verdict (some key)) (ap decode (sym same) ∙ decode-encode c));
}

abbrev token : Bytes
token = 1000 ∷ 2000 ∷ 1000 ∷ 8 ∷ 1 ∷ codes "bob@x.io2app"

token_issued : issue_at open_jwt manager 2 (codes "bob@x.io") 1000 ≡ some token
unfolding issue_at secunda_homework.Text.format_uint secunda_homework.Token.new_claims
token_issued = refl

token_trimmed : trim_space token ≡ token
unfolding trim_space
token_trimmed = refl

require_auth-issue_at_example :
    require_auth open_jwt manager 1500 (codes "Bearer " ++ token)
    ≡ authenticated 2 (codes "bob@x.io")
unfolding new_claims
require_auth-issue_at_example =
    require_auth-issue_at open_jwt manager open_jwt-Faithful 2 (codes "bob@x.io") 1000 1500 token
      (λ z. omega arith) (omega arith) token_issued token_trimmed refl (omega arith) (omega arith)

require_auth_sound_example :
    ◌≢◌ {A = ℕ} 2 0
    × ((c : Claims) × (parse_token open_jwt manager 1500 (extract_bearer (codes "Bearer " ++ token))
          ≡ ok c)
        × (user_id c ≡ 2)
        × (c.email ≡ codes "bob@x.io"))
require_auth_sound_example =
    require_auth_sound open_jwt manager 1500 (codes "Bearer " ++ token) 2 (codes "bob@x.io")
      require_auth-issue_at_example
