-- ===== src/Iso/Sizes.antt =====
-- The size of a file as text (pkg/iso/catalog.go): the loop ends, and its unit is the right one.
use crybaby.Base.{
  ℕ, zero, suc, ◌*◌, ◌/◌, ◌^◌, ◌≤◌, ◌<◌, ◌≡◌, ◌≢◌, refl, ◌⊎◌, String, pos, none, some, ltb,
  Bool-cases, Option-cases, inl, inr, arith,
}
use crybaby.Base.Decimal.{show_int}
use crybaby.Base.Text.{◌<>◌}
use crybaby.Iso.Catalog.{scale, unit_letter, format_bytes}

letter_found : (exp : ℕ) → exp ≤ 5 → unit_letter exp ≢ none
unfolding unit_letter
letter_found zero small e = absurd (ground (arith, e))
letter_found (suc zero) small e = absurd (ground (arith, e))
letter_found (suc (suc zero)) small e = absurd (ground (arith, e))
letter_found (suc (suc (suc zero))) small e = absurd (ground (arith, e))
letter_found (suc (suc (suc (suc zero)))) small e = absurd (ground (arith, e))
letter_found (suc (suc (suc (suc (suc zero))))) small e = absurd (ground (arith, e))
letter_found (suc (suc (suc (suc (suc (suc n)))))) small e = absurd (omega arith)

-- The unit of a size: below 1024 of it, and at least one.
abbrev pub IsUnit : ℕ → ℕ → ℕ → Type 0
IsUnit bytes div exp = (div ≡ 1024 ^ suc exp) × (div ≤ bytes) × (bytes < 1024 * div) × (exp ≤ 5)

scale-IsUnit :
    (bytes : ℕ)
    → 1024 ≤ bytes
    → bytes < 2 ^ 63
    → (div : ℕ) × (exp : ℕ) × (scale 6 (bytes / 1024) 1024 0 ≡ some (div, exp))
      × IsUnit bytes div exp
unfolding scale
scale-IsUnit bytes low high = elim (Bool-cases (ltb bytes (1024 ^ 2))) [
  | inl below0 ↦ (1024 ^ 1, 0, ground arith, (refl, ground arith, ground arith, ground arith))
  | inr above0 ↦ elim (Bool-cases (ltb bytes (1024 ^ 3))) [
    | inl below1 ↦ (1024 ^ 2, 1, ground arith, (refl, ground arith, ground arith, ground arith))
    | inr above1 ↦ elim (Bool-cases (ltb bytes (1024 ^ 4))) [
      | inl below2 ↦ (1024 ^ 3, 2, ground arith, (refl, ground arith, ground arith, ground arith))
      | inr above2 ↦ elim (Bool-cases (ltb bytes (1024 ^ 5))) [
        | inl below3 ↦ (1024 ^ 4, 3, ground arith, (refl, ground arith, ground arith, ground arith))
        | inr above3 ↦ elim (Bool-cases (ltb bytes (1024 ^ 6))) [
          | inl below4 ↦
              (1024 ^ 5, 4, ground arith, (refl, ground arith, ground arith, ground arith))
          | inr above4 ↦
              (1024 ^ 6, 5, ground arith, (refl, ground arith, ground arith, ground arith))
        ]
      ]
    ]
  ]
]

-- Every size below 2^63 bytes has a text: the loop ends within six turns and its exponent is the
-- index of a letter. From 1024 bytes on the text is the quotient by the unit 1024^(exp + 1), of
-- which there is at least one and fewer than 1024, with the unit's letter.
pub format_bytes-IsUnit :
    (fixed : ℕ → ℕ → String) (bytes : ℕ)
    → bytes < 2 ^ 63
    → ((bytes < 1024) × (format_bytes fixed (pos bytes) ≡ some (show_int (pos bytes) <> " B")))
      ⊎ ((div : ℕ) × (exp : ℕ) × (letter : String) × IsUnit bytes div exp
          × (unit_letter exp ≡ some letter)
          × (format_bytes fixed (pos bytes) ≡ some (fixed bytes div <> " " <> letter <> "B")))
unfolding format_bytes
format_bytes-IsUnit fixed bytes high = elim (Bool-cases (ltb bytes 1024)) [
  | inl small ↦ inl (ground (arith, small), rw small refl)
  | inr large ↦
      let (div, exp, ends, unit) = scale-IsUnit bytes (ground (arith, large)) high in
      elim (Option-cases (unit_letter exp)) [
        | inl beyond ↦ absurd (letter_found exp unit.3 beyond)
        | inr (letter, found) ↦ inr (div, exp, letter, unit, found, rw (large, ends, found) refl)
      ]
]
