-- ===== src/Registry/Octets.antt =====
-- Scanning a printed mesh address gives its octet back, so two octets never share an address
-- (pkg/cluster/registry.go).
use crybaby.Base.{◌≤◌, ◌+◌, ℕ, suc, ◌^◌, ◌<◌, ◌≡◌, String, pos, some, nat_eq, arith, ap}
use crybaby.Base.Decimal.{
  digit, digit_value-digit, digit_value_range, read_from, show, read-show, show_from-digit,
  read_digit,
}
use crybaby.Base.Int.{of_bits}
use crybaby.Base.Text.{◌<>◌}
use crybaby.Base.Strings.{after_prefix-append}
use crybaby.Registry.Mesh.{mesh_ip, next_octet, skip_space, scan_sign, scan_octet}

scan_number :
    (n d : ℕ) (s : String)
    → n < 2 ^ 63
    → d < 10
    → read_from 0 (String.◌∷◌ (digit d) s) ≡ (n, "")
    → scan_sign (skip_space (String.◌∷◌ (digit d) s)) ≡ some (pos n)
unfolding scan_sign skip_space read_from
scan_number n d s h small e =
    let value = digit_value-digit d small in
    let range = digit_value_range (digit d) value in
    ground (arith, value, range.0, ap (λ p. p.0) (read_digit 0 d d s small (omega arith)), e)

-- Below 2^63 an octet is printed as it is, and the next one is the one after it.
mesh_ip_small : (n : ℕ) → n < 2 ^ 63 → mesh_ip n ≡ "10.42.0." <> show n
unfolding mesh_ip of_bits
mesh_ip_small n h = ground (arith, h)

pub next_octet_small : (n : ℕ) → n < 2 ^ 63 → next_octet n ≡ suc n
unfolding next_octet
next_octet_small n h = omega (arith, h)

pub next_octet-le : (n : ℕ) → next_octet n ≤ n + 2
unfolding next_octet
next_octet-le n = omega arith

pub scan_octet-mesh_ip : (n : ℕ) → n < 2 ^ 63 → scan_octet (mesh_ip n) ≡ some (pos n)
unfolding scan_octet show
scan_octet-mesh_ip n h =
    let (d, s, small, e) = show_from-digit (suc n) n "" (omega arith) in
    rw (mesh_ip_small n h, after_prefix-append "10.42.0." (show n), scan_octet, e)
      (scan_number n d s h small (rw (← e) (read-show n)))

mesh_ip-injective : (m n : ℕ) → m < 2 ^ 63 → n < 2 ^ 63 → mesh_ip m ≡ mesh_ip n → m ≡ n
mesh_ip-injective m n hm hn e =
    ground (arith, scan_octet-mesh_ip m hm, scan_octet-mesh_ip n hn, ap scan_octet e)
