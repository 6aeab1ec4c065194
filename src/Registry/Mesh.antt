-- ===== src/Registry/Mesh.antt =====
-- Mesh addresses in pkg/cluster/registry.go: how one is printed, and how the octet is scanned from
-- one when a state file is loaded.
use crybaby.Base.{
  ℕ, ◌+◌, ◌-◌, ◌^◌, String, ℤ, pos, negsuc, ◌%◌, ◌&&◌, Bool, ◌||◌, List, [], ◌∷◌, Option, none,
  some, ◌==◌, nat_eq, leb, if◌then◌else◌,
}
use crybaby.Base.Decimal.{digit_value, read_from, show_int}
use crybaby.Base.Int.{bits, of_bits}
use crybaby.Base.Strings.{after_prefix}
use crybaby.Base.Text.{◌<>◌}
use crybaby.Types.Node.{Node}
use Prim.Native.Char.{code}

-- An octet is an `int`, of which the model has the 64 bits: from 2^63 on it is negative.
-- `fmt.Sprintf("10.42.0.%d", octet)`
unfoldable pub mesh_ip : ℕ → String
unfolding of_bits
mesh_ip octet = "10.42.0." <> show_int (of_bits octet)

-- `nextMeshOctet++`
unfoldable pub next_octet : ℕ → ℕ
next_octet octet = (octet + 1) % 2 ^ 64

-- Blanks before a number are skipped.
unfoldable pub skip_space : String → String
skip_space String.[] = ""
skip_space (String.◌∷◌ c s) =
    if code c == 32 || code c == 9 || code c == 13 then skip_space s else String.◌∷◌ c s

abbrev negated : ℕ → ℤ
negated n = if n == 0 then pos 0 else negsuc (n - 1)

-- The digits at the front, of which there must be one; a number beyond 64 bits is an error.
unfoldable pub scan_digits : ℕ → (ℕ → ℤ) → String → Option ℤ
scan_digits limit sign String.[] = none
scan_digits limit sign (String.◌∷◌ c s) = elim (digit_value c) [
  | none ↦ none
  | some d ↦ let n = (read_from d s).0 in if leb n limit then some (sign n) else none
]

unfoldable pub scan_sign : String → Option ℤ
unfolding scan_digits
scan_sign String.[] = none
scan_sign (String.◌∷◌ c s) =
    if code c == b'-'
    then scan_digits (2 ^ 63) negated s
    else if code c == b'+'
    then scan_digits (2 ^ 63 - 1) pos s
    else scan_digits (2 ^ 63 - 1) pos (String.◌∷◌ c s)

-- `fmt.Sscanf(ip, "10.42.0.%d", &octet)`
unfoldable pub scan_octet : String → Option ℤ
unfolding scan_sign skip_space
scan_octet ip = elim (after_prefix "10.42.0." ip) [
  | none ↦ none
  | some rest ↦ scan_sign (skip_space rest)
]

-- `octet >= next`
abbrev pub at_least : ℤ → ℕ → Bool
at_least (pos octet) next = leb next octet || leb (2 ^ 63) next
at_least (negsuc n) next = leb (2 ^ 63) next && leb next (bits (negsuc n))

-- The octet to go on with after one node.
abbrev pub raised : ℕ → Option ℤ → ℕ
raised next none = next
raised next (some octet) = if at_least octet next then next_octet (bits octet) else next

-- the loop over the nodes that were loaded
unfoldable pub raise_octet : ℕ → List (String × Node) → ℕ
raise_octet next [] = next
raise_octet next ((k, n) ∷ m) = raise_octet (raised next (scan_octet n.mesh_ip)) m
