-- ===== src/Auth/Tokens.antt =====
-- Issued tokens are valid until they expire, and only signed ones are (pkg/auth/auth.go).
use crybaby.Auth.{
  TokenClaims, Crypto, Authenticator, unix, greater, header_text, signed, three, issue_token,
  validate_parts, validate_token,
}
use crybaby.Base.{
  ℕ, ◌+◌, ◌≡◌, refl, ap, String, ℤ, true, false, List, [], ◌∷◌, some, arith, text_eq, Option-cases,
  inl, inr, ◌∙◌,
}
use crybaby.Base.Result.{ok}
use crybaby.Base.Strings.{split, occurrences, split_whole, split-append}
use crybaby.Base.Text.{◌<>◌}
use crybaby.Types.Node.{Time}
use text.Mathlib.TextLemmas.{nil-append, cons-append, append_assoc}

dotted : (p q : String) → p <> "." <> q ≡ p <> String.◌∷◌ "." q
dotted p q =
    append_assoc p "." q
    ∙ ap (λ x. p <> x) (cons-append "." "" q ∙ ap (String.◌∷◌ ".") (nil-append q))

split-three :
    (p q s : String)
    → occurrences b'.' p ≡ 0
    → occurrences b'.' q ≡ 0
    → occurrences b'.' s ≡ 0
    → split b'.' ((p <> "." <> q) <> "." <> s) ≡ (p, q ∷ s ∷ [])
split-three p q s hp hq hs =
    ap (split b'.') (
      dotted (p <> "." <> q) s
      ∙ (ap (λ x. x <> String.◌∷◌ "." s) (dotted p q)
          ∙ (append_assoc p (String.◌∷◌ "." q) (String.◌∷◌ "." s)
              ∙ ap (λ x. p <> x) (cons-append "." q (String.◌∷◌ "." s)))))
    ∙ (split-append "." p (q <> String.◌∷◌ "." s) hp
        ∙ ap (λ x. (p, x.0 ∷ x.1))
            (split-append "." q s hq ∙ ap (λ x. (q, x.0 ∷ x.1)) (split_whole b'.' s hs)))

validate_parts_lem :
    (cr : Crypto) (a : Authenticator) (now : Time) (p q s x : String) (c : TokenClaims)
    → cr.decode s ≡ some (cr.hmac a.secret_key (p <> "." <> q))
    → cr.decode q ≡ some x
    → cr.unmarshal x ≡ (c, true)
    → greater (unix now) c.expires_at ≡ false
    → validate_parts cr now a p q s ≡ ok c
unfolding validate_parts
validate_parts_lem cr a now p q s x c sig body read fresh = ground arith

validate_parts_signed :
    (cr : Crypto) (a : Authenticator) (now : Time) (p q s : String) (claims : TokenClaims)
    → validate_parts cr now a p q s ≡ ok claims
    → (x : String) × (cr.decode s ≡ some (cr.hmac a.secret_key (p <> "." <> q)))
      × (cr.decode q ≡ some x)
      × (cr.unmarshal x ≡ (claims, true))
      × (greater (unix now) claims.expires_at ≡ false)
unfolding validate_parts
validate_parts_signed cr a now p q s claims h = elim (Option-cases (cr.decode q)) [
  | inl e ↦ absurd (ground arith)
  | inr (x, e) ↦ (x, ground arith, e, ground arith, ground arith)
]

three_cases :
    (cr : Crypto) (a : Authenticator) (now : Time) (claims : TokenClaims)
    (parts : String × List String)
    → three cr now a parts ≡ ok claims
    → (p : String) × (q : String) × (s : String) × (parts ≡ (p, q ∷ s ∷ []))
      × (validate_parts cr now a p q s ≡ ok claims)
three_cases cr a now claims (p, q ∷ s ∷ []) h = (p, q, s, refl, h)
three_cases cr a now claims (p, []) h = absurd (ground arith)
three_cases cr a now claims (p, q ∷ []) h = absurd (ground arith)
three_cases cr a now claims (p, q ∷ s ∷ r ∷ rest) h = absurd (ground arith)

-- The claims of a token.
abbrev pub issued : Time → Time → ℕ → TokenClaims
issued t t' duration = record {
  subject = "admin";
  issued_at = unix t';
  expires_at = unix (t + duration);
}

-- A token issued is accepted, with the claims it was issued with, until the second it expires in
-- has passed, if the claims can be written, base64 and JSON read back what they have written, and
-- base64 writes no dot.
pub issue_token-validate_token :
    (cr : Crypto) (a : Authenticator) (t t' now : Time) (duration : ℕ)
    → ((x : String) → cr.decode (cr.encode x) ≡ some x)
    → ((x : String) → occurrences b'.' (cr.encode x) ≡ 0)
    → (x : String) × (cr.marshal (issued t t' duration) ≡ some x)
      × (cr.unmarshal x ≡ (issued t t' duration, true))
    → (token : String) × (exp : ℤ) × (claims : TokenClaims) × (issue_token cr t t' a duration
        ≡ some (token, exp))
      × (exp ≡ unix (t + duration))
      × (claims.expires_at ≡ exp)
      × (claims.subject ≡ "admin")
      × (greater (unix now) exp ≡ false → validate_token cr now a token ≡ ok claims)
unfolding issue_token validate_token
issue_token-validate_token cr a t t' now duration decodes dotless (x, written, read) =
    let exp = unix (t + duration) in
    let c = issued t t' duration in
    let p = header_text cr in
    let q = cr.encode x in
    let s = cr.encode (cr.hmac a.secret_key (p <> "." <> q)) in
    (
      signed cr a (p <> "." <> q),
      exp,
      c,
      ground arith,
      refl,
      refl,
      refl,
      (λ fresh.
          let parts = split-three p q s (dotless _) (dotless x) (dotless _) in
          ap (three cr now a) parts
          ∙ validate_parts_lem cr a now p q s x c (decodes _) (decodes x) read fresh),
    )

-- A token that is accepted has three parts, the third of which is the encoding of the signature of
-- the first two under the authenticator's key; its claims are those of the second part, and have
-- not expired.
pub validate_token_signed :
    (cr : Crypto) (a : Authenticator) (now : Time) (token : String) (claims : TokenClaims)
    → validate_token cr now a token ≡ ok claims
    → (p : String) × (q : String) × (s : String) × (x : String) × (split b'.' token
        ≡ (p, q ∷ s ∷ []))
      × (cr.decode s ≡ some (cr.hmac a.secret_key (p <> "." <> q)))
      × (cr.decode q ≡ some x)
      × (cr.unmarshal x ≡ (claims, true))
      × (greater (unix now) claims.expires_at ≡ false)
unfolding validate_token
validate_token_signed cr a now token claims h =
    let (p, q, s, e, v) = three_cases cr a now claims (split b'.' token) h in
    let (x, sig, body, read, fresh) = validate_parts_signed cr a now p q s claims v in
    (p, q, s, x, e, sig, body, read, fresh)
