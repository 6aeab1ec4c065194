-- ===== src/Tests/Parts.antt =====
-- The theorems on pkg/cluster/history.go, pkg/cluster/wol.go, pkg/auth/auth.go,
-- pkg/updater/updater.go and pkg/iso/catalog.go at concrete inputs.
use crybaby.Auth.{TokenClaims, Crypto, unix, greater, issue_token, validate_token, validate_parts}
use crybaby.Auth.Tokens.{issue_token-validate_token, validate_token_signed}
use crybaby.Base.{
  ℕ, ◌≡◌, refl, ap, sym, String, ℤ, pos, true, false, [], ◌∷◌, Option, none, some, arith,
  text_discrete, text_eq, nat_eq, ◌==◌, inl, inr, ==_differ, ℕ_discrete, if◌then◌else◌, Bool-cases,
  ==_eq,
}
use crybaby.Base.Result.{ok}
use crybaby.Base.Strings.{split, occurrences}
use crybaby.Base.Text.{◌<>◌}
use crybaby.Iso.{DownloadJob, Body, Disk, Transfer}
use crybaby.Tests.Samples.{crypto, authenticator}
use crybaby.Types.Cluster.{TelemetryPoint}
use crybaby.Updater.{Files, System, update_at}
use crybaby.Updater.Replacement.{IsSound, update_at-IsReplaced}
use Prim.Native.Char.{code}
use text.Mathlib.TextEquality.{Char-path}

abbrev point : ℕ → TelemetryPoint
point n = record { timestamp = pos n; cpu = n; ram_pct = n }

-- An encoding without dots: a dot is written `aa`, another character `b` and itself.
unfoldable escape : String → String
escape String.[] = ""
escape (String.◌∷◌ c s) =
    if code c == b'.'
    then String.◌∷◌ "a" (String.◌∷◌ "a" (escape s))
    else String.◌∷◌ "b" (String.◌∷◌ c (escape s))

unfoldable unescape : String → Option String
unescape String.[] = some ""
unescape (String.◌∷◌ c String.[]) = none
unescape (String.◌∷◌ c (String.◌∷◌ d s)) = elim (unescape s) [
  | none ↦ none
  | some r ↦ some (if code c == b'a' then String.◌∷◌ "." r else String.◌∷◌ d r)
]

unescape-escape : (s : String) → unescape (escape s) ≡ some s
unfolding escape unescape ℕ_discrete
unescape-escape String.[] = refl
unescape-escape (String.◌∷◌ c s) = elim (Bool-cases (code c == b'.')) [
  | inl dot ↦
      rw (dot, unescape-escape s)
        (ap (λ d. some (String.◌∷◌ d s)) (Char-path "." c (sym (==_eq (code c) b'.' dot))))
  | inr rest ↦ rw (rest, unescape-escape s) refl
]

dotless : (s : String) → occurrences b'.' (escape s) ≡ 0
unfolding escape occurrences ℕ_discrete
dotless String.[] = refl
dotless (String.◌∷◌ c s) = elim (Bool-cases (code c == b'.')) [
  | inl dot ↦ rw dot (dotless s)
  | inr rest ↦ ground (arith, rest, dotless s)
]

-- The encodings of the sample, with the escapes for base64.
abbrev escaping : Crypto
escaping = record crypto { encode = escape; decode = unescape }

abbrev sample_claims : TokenClaims
sample_claims = record { subject = "admin"; issued_at = pos 0; expires_at = pos 0 }

issue_token-validate_token_example :
    (token : String) × (exp : ℤ) × (claims : TokenClaims) × (issue_token escaping 0 0 authenticator
        500
      ≡ some (token, exp))
    × (exp ≡ unix 500)
    × (claims.expires_at ≡ exp)
    × (claims.subject ≡ "admin")
    × (greater (unix 900) exp ≡ false → validate_token escaping 900 authenticator token ≡ ok claims)
issue_token-validate_token_example =
    issue_token-validate_token escaping authenticator 0 0 900 500 unescape-escape dotless
      ("claims", refl, refl)

sample_valid : validate_token crypto 0 authenticator "p.q.k" ≡ ok sample_claims
unfolding validate_token validate_parts split text_discrete ℕ_discrete
sample_valid = refl

validate_token_signed_example :
    (p : String) × (q : String) × (s : String) × (x : String) × (split b'.' "p.q.k"
      ≡ (p, q ∷ s ∷ []))
    × (crypto.decode s ≡ some "k")
    × (crypto.decode q ≡ some x)
    × (crypto.unmarshal x ≡ (sample_claims, true))
    × (greater (unix 0) (pos 0) ≡ false)
validate_token_signed_example =
    validate_token_signed crypto authenticator 0 "p.q.k" sample_claims sample_valid

-- A system whose server sends two bytes.
abbrev system : System
system = record {
  executable = ok "/opt/agent";
  clean = λ p. p;
  dir = λ _. "/opt";
  base = λ _. "agent";
  join = λ d b. d <> "/" <> b;
  get = λ _. ok (200, 77 ∷ 90 ∷ [], none);
  write = λ _ _ bytes. (some bytes, none);
  rename = λ _ _. none;
  remove = λ _. none;
  start = λ _. none;
  is_windows = false;
  encode = λ _. [];
}

abbrev disk : Files
disk path = if path == "/opt/agent" then some (1 ∷ 2 ∷ []) else none

update_at-IsReplaced_example :
    IsSound system "/opt/agent" disk
      (ok (200, 77 ∷ 90 ∷ [], none))
      (update_at system "/opt/agent" disk "http://c/x")
unfolding text_discrete
update_at-IsReplaced_example =
    update_at-IsReplaced system "/opt/agent" disk "http://c/x" (λ _ _ _ _. refl)
      (==_differ "/opt/agent.new" "/opt/agent" refl)
      (==_differ "/opt/apply-update.bat" "/opt/agent" refl)
      (==_differ "/opt/apply-update.bat" "/opt/agent.new" refl)

abbrev image_job : DownloadJob
image_job = record {
  id = "j1";
  url = "http://h/x.iso";
  filename = "x.iso";
  total_bytes = pos 0;
  downloaded = pos 0;
  progress_pct = 0;
  status = "downloading";
  error = "";
  started_at = 0;
}

-- A server that sends three bytes in two reads.
abbrev mirror : Transfer
mirror = record {
  get = λ _. ok (200, pos 3, Body.more (1 ∷ 2 ∷ []) (Body.last (3 ∷ []) none));
  create = none;
  write = λ _ _. none;
  rename = none;
  remove = none;
  progress = λ _ _. 0;
  hundred = 100;
}

abbrev old_image : Disk
old_image = record { part = none; dest = some (9 ∷ []) }
