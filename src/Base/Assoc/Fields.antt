-- ===== src/Base/Assoc/Fields.antt =====
-- A field of all the values of a map: what writes and deletions do to it, and to its being without
-- repetition. `DistinctNonempty` lets the empty text be repeated.
use crybaby.Base.Assoc.{lookup, insert, erase}
use crybaby.Base.Lists.{Absent, Distinct}
use crybaby.Base.Tests.{◌==◌, text_eq, Bool-cases}
use crybaby.Base.Text.{text_discrete}
use mathlib.Core.List.{List, [], ◌∷◌, map}
use mathlib.Core.Logic.{◌≢◌, ◌⊎◌, inl, inr}
use mathlib.Core.Option.{some}
use mathlib.Core.Path.{◌≡◌, sym, ◌∙◌}
use native.Mathlib.Omega.{arith}
use Prim.Native.String.{String}

abbrev pub DistinctNonempty : List String → Type 0
DistinctNonempty [] = Unit
DistinctNonempty (x ∷ xs) = ((x ≡ "") ⊎ Absent x xs) × DistinctNonempty xs

module _ {V : Type 0} (f : V → String) where
  abbrev pub field : List (String × V) → List String
  field = map (λ e. f e.1)

  -- A write that keeps the field of the value under the key keeps them all.
  pub field-insert_same :
      (k : String) (v w : V) (m : List (String × V))
      → lookup k m ≡ some v
      → f w ≡ f v
      → field (insert k w m) ≡ field m
  unfolding insert lookup
  field-insert_same k v w [] found e = cc
  field-insert_same k v w (x ∷ m) found e = ground (arith, field-insert_same k v w m)

  pub insert_keeps-Absent :
      (x k : String) (v : V) (m : List (String × V))
      → f v ≢ x
      → Absent x (field m)
      → Absent x (field (insert k v m))
  unfolding insert
  insert_keeps-Absent x k v [] h a = (h, tt)
  insert_keeps-Absent x k v (e ∷ m) h a = ground (arith, insert_keeps-Absent x k v m h a.1)

  -- A new value of the field keeps it without repetition, whatever the key.
  pub insert_new-Distinct :
      (k : String) (v : V) (m : List (String × V))
      → Absent (f v) (field m)
      → Distinct (field m)
      → Distinct (field (insert k v m))
  unfolding insert
  insert_new-Distinct k v [] a d = (tt, tt)
  insert_new-Distinct k v (e ∷ m) a d = elim (Bool-cases (e.0 == k)) [
    | inl here ↦ rw here (a.1, d.1)
    | inr there ↦ rw there (
      insert_keeps-Absent (f e.1) k v m (λ same. a.0 (sym same)) d.0,
      insert_new-Distinct k v m a.1 d.1,
    )
  ]

  new_behind :
      (v w : V) (m : List (String × V))
      → (f v ≡ "") ⊎ Absent (f v) (f w ∷ field m)
      → (f v ≡ "") ⊎ Absent (f v) (field m)
  new_behind v w m (inl empty) = inl empty
  new_behind v w m (inr absent) = inr absent.1

  old_before :
      (k : String) (v w : V) (m : List (String × V))
      → (f v ≡ "") ⊎ Absent (f v) (f w ∷ field m)
      → (f w ≡ "") ⊎ Absent (f w) (field m)
      → (f w ≡ "") ⊎ Absent (f w) (field (insert k v m))
  old_before k v w m a (inl empty) = inl empty
  old_before k v w m (inr absent) (inr rest) =
      inr (insert_keeps-Absent (f w) k v m (λ same. absent.0 (sym same)) rest)
  old_before k v w m (inl empty) (inr rest) = elim (text_discrete (f w) "") [
    | yes none_ ↦ inl none_
    | no some_ ↦ inr (insert_keeps-Absent (f w) k v m (λ same. some_ (sym same ∙ empty)) rest)
  ]

  pub insert_new-DistinctNonempty :
      (k : String) (v : V) (m : List (String × V))
      → (f v ≡ "") ⊎ Absent (f v) (field m)
      → DistinctNonempty (field m)
      → DistinctNonempty (field (insert k v m))
  unfolding insert
  insert_new-DistinctNonempty k v [] a d = (inr tt, tt)
  insert_new-DistinctNonempty k v (e ∷ m) a d = elim (Bool-cases (e.0 == k)) [
    | inl here ↦ rw here (new_behind v e.1 m a, d.1)
    | inr there ↦
        rw there
          (old_before k v e.1 m a d.0, insert_new-DistinctNonempty k v m (new_behind v e.1 m a) d.1)
  ]

  pub erase_keeps-Absent :
      (x k : String) (m : List (String × V)) → Absent x (field m) → Absent x (field (erase k m))
  unfolding erase
  erase_keeps-Absent x k [] a = tt
  erase_keeps-Absent x k (e ∷ m) a = ground (arith, erase_keeps-Absent x k m a.1)

  pub erase-Distinct :
      (k : String) (m : List (String × V)) → Distinct (field m) → Distinct (field (erase k m))
  unfolding erase
  erase-Distinct k [] d = tt
  erase-Distinct k (e ∷ m) d =
      ground (arith, erase-Distinct k m d.1, erase_keeps-Absent (f e.1) k m d.0)

  pub erase-DistinctNonempty :
      (k : String) (m : List (String × V))
      → DistinctNonempty (field m)
      → DistinctNonempty (field (erase k m))
  unfolding erase
  erase-DistinctNonempty k [] d = tt
  erase-DistinctNonempty k (e ∷ m) d =
      ground (arith, erase-DistinctNonempty k m d.1, erase_keeps-Absent (f e.1) k m)
