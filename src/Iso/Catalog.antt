-- ===== src/Iso/Catalog.antt =====
-- The list of images of pkg/iso/catalog.go, and their sizes as text.
use crybaby.Base.{
  ℕ, zero, suc, ◌*◌, ◌/◌, String, ℤ, pos, negsuc, Bool, ◌||◌, List, [], ◌∷◌, Option, none, some,
  leb, ltb, if◌then◌else◌,
}
use crybaby.Base.Decimal.{show_int}
use crybaby.Base.Result.{Result, ok, err}
use crybaby.Base.Text.{◌<>◌}
use crybaby.Base.Unicode.{Unicode}
use crybaby.Iso.{has_suffix}
use crybaby.Types.Node.{Time}

pub record IsoFile : Type 0 where
  pub name : String
  pub size_bytes : ℤ
  pub size_str : String
  pub modified : Time

-- An entry of a directory: `info` is what `entry.Info()` gives, the size and the time in UTC.
pub record Entry : Type 0 where
  pub name : String
  pub is_dir : Bool
  pub info : Option (ℤ × Time)

-- What `os.ReadDir` gives.
pub data Directory : Type 0 where
  missing : Directory
  unreadable : String → Directory
  entries : List Entry → Directory

-- The loop of `FormatBytes`, on fuel: the divisor and the exponent when `n` is below the unit.
unfoldable pub scale : ℕ → ℕ → ℕ → ℕ → Option (ℕ × ℕ)
scale zero n div exp = none
scale (suc f) n div exp =
    let rest = scale f (n / 1024) (div * 1024) (suc exp) in
    if leb 1024 n then rest else some (div, exp)

-- `"KMGTPE"[exp]`, which panics out of range
unfoldable pub unit_letter : ℕ → Option String
unit_letter zero = some "K"
unit_letter (suc zero) = some "M"
unit_letter (suc (suc zero)) = some "G"
unit_letter (suc (suc (suc zero))) = some "T"
unit_letter (suc (suc (suc (suc zero)))) = some "P"
unit_letter (suc (suc (suc (suc (suc zero))))) = some "E"
unit_letter (suc (suc (suc (suc (suc (suc n)))))) = none

-- Six turns of the loop are enough for an `int64`.
abbrev pub turns : ℕ
turns = 6

-- `fixed` prints the quotient of two numbers as float64 with one decimal. There is no text where
-- the loop does not end or the index is out of range.
unfoldable pub format_bytes : (ℕ → ℕ → String) → ℤ → Option String
unfolding scale unit_letter
format_bytes fixed (negsuc n) = some (show_int (negsuc n) <> " B")
format_bytes fixed (pos bytes) =
    if ltb bytes 1024
    then some (show_int (pos bytes) <> " B")
    else elim (scale turns (bytes / 1024) 1024 0) [
      | none ↦ none
      | some (div, exp) ↦ elim (unit_letter exp) [
        | none ↦ none
        | some c ↦ some (fixed bytes div <> " " <> c <> "B")
      ]
    ]

abbrev pub is_image : Unicode → String → Bool
is_image u name =
    has_suffix ".iso" (u.lower name)
    || has_suffix ".img" (u.lower name)
    || has_suffix ".vhdx" (u.lower name)

-- The text that `FormatBytes` gives; it always gives one.
abbrev pub size_text : Option String → String
size_text none = ""
size_text (some t) = t

-- the loop of `ListISOs`
unfoldable pub images : Unicode → (ℕ → ℕ → String) → List Entry → List IsoFile
unfolding format_bytes
images u fixed [] = []
images u fixed (entry ∷ rest) =
    let others = images u fixed rest in
    if entry.is_dir
    then others
    else if is_image u entry.name
    then elim entry.info [
      | none ↦ others
      | some (size, modified) ↦
          record {
            name = entry.name;
            size_bytes = size;
            size_str = size_text (format_bytes fixed size);
            modified = modified;
          }
          ∷ others
    ]
    else others

unfoldable pub list_isos : Unicode → (ℕ → ℕ → String) → Directory → Result String (List IsoFile)
unfolding images
list_isos u fixed missing = ok []
list_isos u fixed (unreadable e) = err e
list_isos u fixed (entries es) = ok (images u fixed es)
