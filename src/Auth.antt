-- ===== src/Auth.antt =====
-- pkg/auth/auth.go: the master password and the signed session tokens. The hash functions and the
-- encodings are arguments; a text stands for its bytes.
pub mod Tokens
use crybaby.Base.{
  ℕ, suc, ◌+◌, ◌/◌, String, ℤ, pos, negsuc, Bool, true, false, not, List, [], ◌∷◌, Option, none,
  some, ◌==◌, text_eq, if◌then◌else◌, ltb,
}
use crybaby.Base.Result.{Result, ok, err}
use crybaby.Base.Strings.{split}
use crybaby.Base.Text.{◌<>◌}
use crybaby.Types.Node.{Time}

pub record TokenClaims : Type 0 where
  pub subject : String
  pub issued_at : ℤ
  pub expires_at : ℤ

-- crypto/hmac and crypto/sha256, encoding/hex, base64.RawURLEncoding and encoding/json.
pub record Crypto : Type 0 where
  pub hmac : String → String → String
  -- the digest in hexadecimal digits
  pub sha256_hex : String → String
  pub encode : String → String
  pub decode : String → Option String
  pub marshal : TokenClaims → Option String
  pub unmarshal : String → TokenClaims × Bool

pub record Authenticator : Type 0 where
  pub secret_key : String
  pub password_hash : String
  pub salt : String

pub data AuthError : Type 0 where
  malformed_token signature_encoding token_signature payload_encoding token_claims expired :
      AuthError

-- `Unix()`
abbrev pub unix : Time → ℤ
unix t = pos (t / 1000000000)

-- `a > b` for signed numbers
abbrev pub greater : ℤ → ℤ → Bool
greater (pos a) (pos b) = ltb b a
greater (pos a) (negsuc b) = true
greater (negsuc a) (pos b) = false
greater (negsuc a) (negsuc b) = ltb a b

module _ (cr : Crypto) where
  abbrev pub hash_password : String → String → String
  hash_password password salt = cr.sha256_hex (salt <> ":" <> password)

  -- `salt` is the one generated.
  unfoldable pub new_authenticator : String → String → String → Authenticator
  new_authenticator salt master_password signing_secret = record {
    secret_key = signing_secret;
    password_hash = hash_password master_password salt;
    salt = salt;
  }

  unfoldable pub verify_password : Authenticator → String → Bool
  verify_password a input = hash_password input a.salt == a.password_hash

  abbrev pub header_text : String
  header_text = cr.encode "{\"alg\":\"HS256\",\"typ\":\"JWT\"}"

  abbrev pub signed : Authenticator → String → String
  signed a text = text <> "." <> cr.encode (cr.hmac a.secret_key text)

  -- `t` and `t'` are the clock's readings for the expiry and for the issue.
  unfoldable pub issue_token : Time → Time → Authenticator → ℕ → Option (String × ℤ)
  issue_token t t' a duration =
      let exp = unix (t + duration) in
      elim (cr.marshal (record { subject = "admin"; issued_at = unix t'; expires_at = exp })) [
        | none ↦ none
        | some claims ↦ some (signed a (header_text <> "." <> cr.encode claims), exp)
      ]

  abbrev unexpired : Time → TokenClaims × Bool → Result AuthError TokenClaims
  unexpired now (claims, true) =
      if greater (unix now) claims.expires_at then err expired else ok claims
  unexpired now (claims, false) = err token_claims

  -- the checks of the three parts
  unfoldable pub validate_parts :
      Time → Authenticator → String → String → String → Result AuthError TokenClaims
  validate_parts now a p q s = elim (cr.decode s) [
    | none ↦ err signature_encoding
    | some sig ↦
        if sig == cr.hmac a.secret_key (p <> "." <> q)
        then elim (cr.decode q) [
          | none ↦ err payload_encoding
          | some claims ↦ unexpired now (cr.unmarshal claims)
        ]
        else err token_signature
  ]

  abbrev pub three : Time → Authenticator → String × List String → Result AuthError TokenClaims
  three now a (p, q ∷ s ∷ []) = validate_parts now a p q s
  three now a _ = err malformed_token

  unfoldable pub validate_token : Time → Authenticator → String → Result AuthError TokenClaims
  validate_token now a token = three now a (split b'.' token)
