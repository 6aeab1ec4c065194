-- ===== src/Base/Strings.antt =====
-- `strings.TrimPrefix`, `strings.Split` at one ASCII character, and its inverse.
use crybaby.Base.Tests.{◌==◌, nat_eq, if◌then◌else◌}
use crybaby.Base.Text.{◌<>◌}
use mathlib.Core.List.{List, [], ◌∷◌}
use mathlib.Core.Option.{Option, none, some}
use mathlib.Core.Path.{◌≡◌, refl}
use native.Mathlib.Omega.{arith}
use Prim.Native.Char.{Char, code}
use Prim.Native.Nat.{ℕ, suc}
use Prim.Native.String.{String}
use text.Mathlib.TextLemmas.{nil-append, cons-append}

-- What follows the prefix, if the text has it.
unfoldable pub after_prefix : String → String → Option String
after_prefix String.[] s = some s
after_prefix (String.◌∷◌ c p) String.[] = none
after_prefix (String.◌∷◌ c p) (String.◌∷◌ d s) = if code c == code d then after_prefix p s else none

unfoldable pub trim_prefix : String → String → String
unfolding after_prefix
trim_prefix s p = elim (after_prefix p s) [ none ↦ s | some rest ↦ rest ]

-- The parts of a text between the separators: there is always a first.
unfoldable pub split : ℕ → String → String × List String
split sep String.[] = ("", [])
split sep (String.◌∷◌ c s) =
    let (p, ps) = split sep s in if code c == sep then ("", p ∷ ps) else (String.◌∷◌ c p, ps)

unfoldable pub join : Char → String → List String → String
join c p [] = p
join c p (q ∷ ps) = p <> String.◌∷◌ c (join c q ps)

-- How often a character stands in a text.
unfoldable pub occurrences : ℕ → String → ℕ
occurrences sep String.[] = 0
occurrences sep (String.◌∷◌ c s) = let n = occurrences sep s in if code c == sep then suc n else n

pub after_prefix-append : (p s : String) → after_prefix p (p <> s) ≡ some s
unfolding after_prefix
after_prefix-append String.[] s = rw nil-append
after_prefix-append (String.◌∷◌ c p) s =
    rw (cons-append c p s) (ground (arith, after_prefix-append p s))

pub split_whole : (sep : ℕ) (s : String) → occurrences sep s ≡ 0 → split sep s ≡ (s, [])
unfolding split occurrences
split_whole sep String.[] h = refl
split_whole sep (String.◌∷◌ c s) h = ground (arith, split_whole sep s)

-- The first part of a text that goes on with a separator.
pub split-append :
    (sep : Char) (p s : String)
    → occurrences (code sep) p ≡ 0
    → split (code sep) (p <> String.◌∷◌ sep s)
      ≡ (p, (split (code sep) s).0 ∷ (split (code sep) s).1)
unfolding split occurrences
split-append sep String.[] s h = rw nil-append (ground arith)
split-append sep (String.◌∷◌ c p) s h =
    rw (cons-append c p (String.◌∷◌ sep s)) (ground (arith, split-append sep p s))
