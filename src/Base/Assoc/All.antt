-- ===== src/Base/Assoc/All.antt =====
-- Predicates of all the entries of a map, and maps without a repeated key.
use crybaby.Base.Assoc.{lookup, insert, erase, keys}
use crybaby.Base.Lists.{All, Absent, Distinct}
use crybaby.Base.Tests.{◌==◌, text_eq, Bool-cases, ==_eq}
use mathlib.Core.List.{List, [], ◌∷◌}
use mathlib.Core.Logic.{◌≢◌, inl, inr}
use mathlib.Core.Option.{none, some}
use mathlib.Core.Path.{◌≡◌, refl, ap, subst, subst₂}
use native.Mathlib.Omega.{arith}
use Prim.Native.String.{String}

module _ {ℓ κ} {V : Type ℓ} (P : String × V → Type κ) where
  pub lookup-All :
      (k : String) (m : List (String × V)) {v : V} → All P m → lookup k m ≡ some v → P (k, v)
  unfolding lookup
  lookup-All k [] h e = cc
  lookup-All k ((j, w) ∷ m) {v} h e = elim (Bool-cases (j == k)) [
    | inl here ↦
        let same : w ≡ v = ground arith in subst₂ (λ a b. P (a, b)) (==_eq j k here) same h.0
    | inr there ↦ lookup-All k m h.1 (rw there at e)
  ]

  pub insert-All :
      (k : String) (v : V) (m : List (String × V)) → P (k, v) → All P m → All P (insert k v m)
  unfolding insert
  insert-All k v [] new h = (new, tt)
  insert-All k v ((j, w) ∷ m) new h = ground (arith, insert-All k v m new h.1)

  pub erase-All : (k : String) (m : List (String × V)) → All P m → All P (erase k m)
  unfolding erase
  erase-All k [] h = tt
  erase-All k ((j, w) ∷ m) h = ground (arith, erase-All k m h.1)

module _ {ℓ} {V : Type ℓ} where
  pub Absent-lookup : (k : String) (m : List (String × V)) → Absent k (keys m) → lookup k m ≡ none
  unfolding lookup
  Absent-lookup k [] h = refl
  Absent-lookup k ((j, w) ∷ m) h = ground (arith, Absent-lookup k m h.1)

  lookup_behind :
      (j k : String) (w : V) (m : List (String × V)) {v : V}
      → Absent j (keys m)
      → lookup k m ≡ some v
      → lookup k ((j, w) ∷ m) ≡ some v
  unfolding lookup
  lookup_behind j k w m {v} out found = elim (Bool-cases (j == k)) [
    | inl here ↦
        absurd (ground (arith, found, Absent-lookup j m out, ap (λ z. lookup z m) (==_eq j k here)))
    | inr there ↦ rw there found
  ]

  -- What holds of all that can be looked up holds of all the entries, if no key is repeated.
  pub All-lookup {κ} :
      (P : String × V → Type κ) (m : List (String × V))
      → Distinct (keys m)
      → ((k : String) (v : V) → lookup k m ≡ some v → P (k, v))
      → All P m
  unfolding lookup
  All-lookup P [] once h = tt
  All-lookup P ((j, w) ∷ m) once h = (
    h j w (ground arith),
    All-lookup P m once.1 (λ k v found. h k v (lookup_behind j k w m once.0 found)),
  )

  pub erase-Absent : (k : String) (m : List (String × V)) → Absent k (keys (erase k m))
  unfolding erase
  erase-Absent k [] = tt
  erase-Absent k ((j, w) ∷ m) = ground (arith, erase-Absent k m)

  insert-Absent :
      (k j : String) (v : V) (m : List (String × V))
      → k ≢ j
      → Absent j (keys m)
      → Absent j (keys (insert k v m))
  unfolding insert
  insert-Absent k j v [] h a = (h, tt)
  insert-Absent k j v ((i, w) ∷ m) h a = ground (arith, insert-Absent k j v m h a.1)

  erase_keeps-Absent :
      (k j : String) (m : List (String × V)) → Absent j (keys m) → Absent j (keys (erase k m))
  unfolding erase
  erase_keeps-Absent k j [] a = tt
  erase_keeps-Absent k j ((i, w) ∷ m) a = ground (arith, erase_keeps-Absent k j m a.1)

  pub insert-Distinct :
      (k : String) (v : V) (m : List (String × V))
      → Distinct (keys m)
      → Distinct (keys (insert k v m))
  unfolding insert
  insert-Distinct k v [] d = (tt, tt)
  insert-Distinct k v ((i, w) ∷ m) d = elim (Bool-cases (i == k)) [
    | inl here ↦ rw here (subst (λ x. Absent x (keys m)) (==_eq i k here) d.0, d.1)
    | inr there ↦ rw there (insert-Absent k i v m (ground arith) d.0, insert-Distinct k v m d.1)
  ]

  pub erase-Distinct :
      (k : String) (m : List (String × V)) → Distinct (keys m) → Distinct (keys (erase k m))
  unfolding erase
  erase-Distinct k [] d = tt
  erase-Distinct k ((i, w) ∷ m) d =
      ground (arith, erase-Distinct k m d.1, erase_keeps-Absent k i m d.0)
