-- ===== src/Base/Unicode.antt =====
-- The Unicode tables behind `strings.EqualFold` and `strings.ToLower`, as functions on texts.
use crybaby.Base.Tests.{◌==◌, text_eq}
use mathlib.Core.Bool.{Bool}
use Prim.Native.String.{String}

pub record Unicode : Type 0 where
  -- A text with each rune replaced by the least rune of its orbit under simple case folding.
  pub fold : String → String
  pub lower : String → String

-- `strings.EqualFold(s, t)`
abbrev pub equal_fold : Unicode → String → String → Bool
equal_fold u s t = u.fold s == u.fold t
