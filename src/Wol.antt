-- ===== src/Wol.antt =====
-- pkg/cluster/wol.go: the magic packet that wakes a machine. Package net is an argument.
pub mod Packet
use crybaby.Base.{
  ℕ, zero, suc, ◌+◌, ◌*◌, String, List, [], ◌∷◌, Option, none, some, ◌==◌, nat_eq, if◌then◌else◌,
  length,
}
use crybaby.Base.Result.{Result, ok, err}
use crybaby.Base.Text.{◌<>◌}

-- `net.ParseMAC`, `net.ResolveUDPAddr`, `net.DialUDP` and the connection's `Write`: the errors
-- of the last three, if any.
pub record Lan : Type 0 where
  pub parse_mac : String → Result String (List ℕ)
  pub resolve : Option String
  pub dial : Option String
  pub write : List ℕ → Option String

abbrev pub repeat : ℕ → ℕ → List ℕ
repeat zero b = []
repeat (suc n) b = b ∷ repeat n b

-- `copy(packet[at:], src)`
abbrev pub copy_at : ℕ → List ℕ → List ℕ → List ℕ
copy_at at src [] = []
copy_at zero [] (b ∷ packet) = b ∷ packet
copy_at zero (c ∷ src) (b ∷ packet) = c ∷ copy_at zero src packet
copy_at (suc at) src (b ∷ packet) = b ∷ copy_at at src packet

-- the loop, from `i`, over the copies that are left
abbrev pub copy_all : ℕ → ℕ → List ℕ → List ℕ → List ℕ
copy_all zero i hw_addr packet = packet
copy_all (suc left) i hw_addr packet =
    copy_all left (suc i) hw_addr (copy_at (6 + i * 6) hw_addr packet)

abbrev pub magic_packet : List ℕ → List ℕ
magic_packet hw_addr = copy_all 16 0 hw_addr (copy_at 0 (repeat 6 255) (repeat 102 0))

-- the part that opens the connection: the packets written, and the error
unfoldable pub transmit : Lan → List ℕ → List (List ℕ) × Result String (Unit {0})
transmit net packet = elim net.resolve [
  | some e ↦ ([], err e)
  | none ↦ elim net.dial [
    | some e ↦ ([], err e)
    | none ↦ elim (net.write packet) [ some e ↦ (packet ∷ [], err e) | none ↦ (packet ∷ [], ok tt) ]
  ]
]

unfoldable pub send_wake_on_lan : Lan → String → List (List ℕ) × Result String (Unit {0})
unfolding transmit
send_wake_on_lan net mac = elim (net.parse_mac mac) [
  | err e ↦ ([], err ("invalid MAC address '" <> mac <> "': " <> e))
  | ok hw_addr ↦
      if length hw_addr == 6
      then transmit net (magic_packet hw_addr)
      else ([], err "MAC address must be 6 bytes (EUI-48)")
]
