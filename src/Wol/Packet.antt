-- ===== src/Wol/Packet.antt =====
-- What is sent to wake a machine (pkg/cluster/wol.go).
use crybaby.Base.{
  ℕ, zero, suc, String, ◌≡◌, ◌≢◌, refl, List, [], ◌∷◌, ◌++◌, none, arith, nat_eq, length,
  Option-cases, ◌⊎◌, inl, inr, ap, ◌∙◌, length-append, ◌*◌,
}
use crybaby.Base.Result.{ok, err}
use crybaby.Base.Text.{◌<>◌}
use crybaby.Wol.{Lan, repeat, magic_packet, transmit, send_wake_on_lan}

-- `n` copies of a list, one after the other
abbrev pub copies : ℕ → List ℕ → List ℕ
copies zero xs = []
copies (suc n) xs = xs ++ copies n xs

magic_packet-copies : (hw : List ℕ) → length hw ≡ 6 → magic_packet hw ≡ repeat 6 255 ++ copies 16 hw
magic_packet-copies (a ∷ b ∷ c ∷ d ∷ e ∷ f ∷ []) h = refl
magic_packet-copies [] h = absurd (ground arith)
magic_packet-copies (a ∷ []) h = absurd (ground arith)
magic_packet-copies (a ∷ b ∷ []) h = absurd (ground arith)
magic_packet-copies (a ∷ b ∷ c ∷ []) h = absurd (ground arith)
magic_packet-copies (a ∷ b ∷ c ∷ d ∷ []) h = absurd (ground arith)
magic_packet-copies (a ∷ b ∷ c ∷ d ∷ e ∷ []) h = absurd (ground arith)
magic_packet-copies (a ∷ b ∷ c ∷ d ∷ e ∷ f ∷ g ∷ hw) h = absurd (ground arith)

length-copies : (n : ℕ) (xs : List ℕ) → length xs ≡ 6 → length (copies n xs) ≡ n * 6
length-copies zero xs h = omega arith
length-copies (suc n) xs h = omega (arith, length-append xs (copies n xs), length-copies n xs h)

transmit_cases :
    (net : Lan) (p : List ℕ)
    → ((transmit net p).0 ≡ p ∷ []) × (net.resolve ≡ none) × (net.dial ≡ none)
      ⊎ ((transmit net p).0 ≡ []) × ((e : String) × ((transmit net p).1 ≡ err e))
unfolding transmit
transmit_cases net p = elim (Option-cases net.resolve) [
  | inr (e, re) ↦ inr (ground arith, (e, ground arith))
  | inl re ↦ elim (Option-cases net.dial) [
    | inr (e, de) ↦ inr (ground arith, (e, ground arith))
    | inl de ↦ inl (ground (arith, Option-cases (net.write p)), re, de)
  ]
]

-- For an address of six bytes, and a network that can be opened, one packet is written: 102
-- bytes long, six bytes 255 and then sixteen copies of the address; if the network cannot be
-- opened, nothing is written and there is an error. For an address of another length, and for a
-- text that is no address, nothing is written and there is an error.
pub send_wake_on_lan_lem :
    (net : Lan) (mac : String)
    → let r = send_wake_on_lan net mac in
      ((hw : List ℕ)
        → net.parse_mac mac ≡ ok hw
        → length hw ≡ 6
        → (p : List ℕ) × (p ≡ repeat 6 255 ++ copies 16 hw)
          × (length p ≡ 102)
          × ((r.0 ≡ p ∷ []) × (net.resolve ≡ none) × (net.dial ≡ none)
              ⊎ (r.0 ≡ []) × ((e : String) × (r.1 ≡ err e))))
      × ((hw : List ℕ)
          → net.parse_mac mac ≡ ok hw
          → length hw ≢ 6
          → (r.0 ≡ []) × ((e : String) × (r.1 ≡ err e)))
      × ((e : String) → net.parse_mac mac ≡ err e → (r.0 ≡ []) × ((m : String) × (r.1 ≡ err m)))
unfolding send_wake_on_lan
send_wake_on_lan_lem net mac = (
  (λ hw parsed six.
      let p = magic_packet hw in
      let same = magic_packet-copies hw six in
      let whole : send_wake_on_lan net mac ≡ transmit net p = ground arith in
      (
        p,
        same,
        ap length same
            ∙ (length-append (repeat 6 255) (copies 16 hw)
                ∙ omega (arith, length-copies 16 hw six)),
        elim (transmit_cases net p) [
          | inl h ↦ inl (ap (λ x. x.0) whole ∙ h.0, h.1, h.2)
          | inr h ↦ inr (ap (λ x. x.0) whole ∙ h.0, (h.1.0, ap (λ x. x.1) whole ∙ h.1.1))
        ],
      )),
  (λ hw parsed n. (ground arith, ("MAC address must be 6 bytes (EUI-48)", ground arith))),
  (λ e parsed. (ground arith, ("invalid MAC address '" <> mac <> "': " <> e, ground arith))),
)
