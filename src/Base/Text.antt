-- ===== src/Base/Text.antt =====
-- Go strings as native texts: a decision procedure for their equality.
use Prim.Native.String.{String, ◌++◌}
use mathlib.Core.Path.{◌≡◌, refl}
use mathlib.Core.Bool.{Bool, true, false}
use mathlib.Core.Logic.{◌↔◌}
use text.Mathlib.Text.{◌==◌}
use text.Mathlib.TextEquality.{eq_iff}

decide_by {ℓ} : {A : Type ℓ} (b : Bool) → (b ≡ true) ↔ A → Dec A
decide_by true e = yes (e.0 refl)
decide_by false e = no (λ a. cc (e.1 a))

-- `s == t` on strings, with the proof that each outcome carries.
unfoldable pub text_discrete : Discrete String
unfolding decide_by
text_discrete s t = decide_by (s == t) (eq_iff s t)

-- `s + t` on strings. Its name leaves `++` to the lists.
infixl 65 ◌<>◌
abbrev pub ◌<>◌ : String → String → String
s <> t = s ++ t
