-- ===== src/Base/Decimal.antt =====
-- Decimal numbers in text: what `%d` prints, and the digits that a scanner reads.
use Prim.Native.Char.{Char, code}
use Prim.Native.Nat.{ℕ, zero, suc, ◌+◌, ◌-◌, ◌*◌, ◌/◌, ◌%◌, ◌≤◌, ◌<◌}
use Prim.Native.String.{String}
use mathlib.Core.Bool.{◌&&◌}
use mathlib.Core.Option.{Option, none, some}
use mathlib.Core.Path.{◌≡◌, refl, ◌∙◌}
use native.Mathlib.Omega.{arith}
use crybaby.Base.Int.{ℤ, pos, negsuc}
use crybaby.Base.Text.{◌<>◌}
use crybaby.Base.Tests.{ltb, leb, if◌then◌else◌, Bool-cases}
use mathlib.Core.Logic.{inl, inr}

unfoldable pub digit : ℕ → Char
digit zero = "0"
digit (suc zero) = "1"
digit (suc (suc zero)) = "2"
digit (suc (suc (suc zero))) = "3"
digit (suc (suc (suc (suc zero)))) = "4"
digit (suc (suc (suc (suc (suc zero))))) = "5"
digit (suc (suc (suc (suc (suc (suc zero)))))) = "6"
digit (suc (suc (suc (suc (suc (suc (suc zero))))))) = "7"
digit (suc (suc (suc (suc (suc (suc (suc (suc zero)))))))) = "8"
digit (suc (suc (suc (suc (suc (suc (suc (suc (suc n))))))))) = "9"

-- The value of a digit.
unfoldable pub digit_value : Char → Option ℕ
digit_value c = if leb b'0' (code c) && leb (code c) b'9' then some (code c - b'0') else none

-- The digits of `n` before the text `rest`, by fuel: a number below the fuel is printed whole.
unfoldable pub show_from : ℕ → ℕ → String → String
unfolding digit
show_from zero n rest = rest
show_from (suc f) n rest =
    let more = show_from f (n / 10) (String.◌∷◌ (digit (n % 10)) rest) in
    if ltb n 10 then String.◌∷◌ (digit n) rest else more

-- `fmt.Sprintf("%d", n)`
unfoldable pub show : ℕ → String
unfolding show_from
show n = show_from (suc n) n ""

-- `%d` of an `int`
abbrev pub show_int : ℤ → String
show_int (pos n) = show n
show_int (negsuc n) = "-" <> show (suc n)

-- The number that the digits at the front spell, after those that gave `value`, and the rest.
unfoldable pub read_from : ℕ → String → ℕ × String
unfolding digit_value
read_from value String.[] = (value, "")
read_from value (String.◌∷◌ c s) = elim (digit_value c) [
  | none ↦ (value, String.◌∷◌ c s)
  | some d ↦ read_from (value * 10 + d) s
]

pub digit_value-digit : (n : ℕ) → n < 10 → digit_value (digit n) ≡ some n
unfolding digit digit_value
digit_value-digit zero h = refl
digit_value-digit (suc zero) h = refl
digit_value-digit (suc (suc zero)) h = refl
digit_value-digit (suc (suc (suc zero))) h = refl
digit_value-digit (suc (suc (suc (suc zero)))) h = refl
digit_value-digit (suc (suc (suc (suc (suc zero))))) h = refl
digit_value-digit (suc (suc (suc (suc (suc (suc zero)))))) h = refl
digit_value-digit (suc (suc (suc (suc (suc (suc (suc zero))))))) h = refl
digit_value-digit (suc (suc (suc (suc (suc (suc (suc (suc zero)))))))) h = refl
digit_value-digit (suc (suc (suc (suc (suc (suc (suc (suc (suc zero))))))))) h = refl
digit_value-digit (suc (suc (suc (suc (suc (suc (suc (suc (suc (suc n)))))))))) h =
    absurd (omega arith)

pub read_digit :
    (v n w : ℕ) (s : String)
    → n < 10
    → v * 10 + n ≡ w
    → read_from v (String.◌∷◌ (digit n) s) ≡ read_from w s
unfolding read_from
read_digit v n w s h e = rw (digit_value-digit n h, read_from, e)

-- Reading back what was printed, whatever follows.
pub read-show_from :
    (f n : ℕ) (rest : String) → n < f → read_from 0 (show_from f n rest) ≡ read_from n rest
unfolding show_from
read-show_from zero n rest h = elim h [ ]
read-show_from (suc f) n rest h = elim (Bool-cases (ltb n 10)) [
  | inl small ↦ rw small (read_digit 0 n n rest (ground arith) (omega arith))
  | inr large ↦ rw large (
      read-show_from f (n / 10) (String.◌∷◌ (digit (n % 10)) rest) (ground arith)
      ∙ read_digit (n / 10) (n % 10) n rest (omega arith) (omega arith))
]

pub read-show : (n : ℕ) → read_from 0 (show n) ≡ (n, "")
unfolding show read_from
read-show n = read-show_from (suc n) n "" (omega arith)

-- A number is printed with a digit at its front.
pub show_from-digit :
    (f n : ℕ) (rest : String)
    → n < f
    → (d : ℕ) × (s : String) × (d < 10) × (show_from f n rest ≡ String.◌∷◌ (digit d) s)
unfolding show_from
show_from-digit zero n rest h = elim h [ ]
show_from-digit (suc f) n rest h = elim (Bool-cases (ltb n 10)) [
  | inl small ↦ (n, rest, ground arith, rw small)
  | inr large ↦
      rw large (show_from-digit f (n / 10) (String.◌∷◌ (digit (n % 10)) rest) (ground arith))
]

pub digit_value_range :
    (c : Char) {d : ℕ} → digit_value c ≡ some d → (b'0' ≤ code c) × (code c ≡ b'0' + d)
unfolding digit_value
digit_value_range c h = ground arith
