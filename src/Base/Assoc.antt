-- ===== src/Base/Assoc.antt =====
-- Go maps with string keys, as association lists. The list's order stands for the order in which
-- a `range` over the map visits it.
pub mod All
pub mod Fields
use crybaby.Base.Lists.{length}
use crybaby.Base.Tests.{◌==◌, text_eq, if◌then◌else◌}
use mathlib.Core.List.{List, [], ◌∷◌, map}
use mathlib.Core.Logic.{◌≢◌}
use mathlib.Core.Option.{Option, none, some}
use mathlib.Core.Path.{◌≡◌, refl, ap, sym}
use native.Mathlib.Omega.{arith}
use Prim.Native.Nat.{suc}
use Prim.Native.String.{String}

module _ {ℓ} {V : Type ℓ} where
  unfoldable pub lookup : String → List (String × V) → Option V
  lookup key [] = none
  lookup key ((j, new) ∷ rest) = if j == key then some new else lookup key rest

  -- `m[k] = v`
  unfoldable pub insert : String → V → List (String × V) → List (String × V)
  insert key new [] = (key, new) ∷ []
  insert key new ((j, old) ∷ rest) =
      if j == key then (key, new) ∷ rest else (j, old) ∷ insert key new rest

  -- `delete(m, k)`
  unfoldable pub erase : String → List (String × V) → List (String × V)
  erase key [] = []
  erase key ((j, old) ∷ rest) = if j == key then erase key rest else (j, old) ∷ erase key rest

  abbrev pub keys : List (String × V) → List String
  keys = map (λ e. e.0)

  pub lookup-insert :
      (key j : String) (new : V) (rest : List (String × V))
      → lookup j (insert key new rest) ≡ (if key == j then some new else lookup j rest)
  unfolding lookup insert
  lookup-insert key j new [] = refl
  lookup-insert key j new ((i, old) ∷ rest) = ground (arith, lookup-insert key j new rest)

  pub lookup-insert_self :
      (key : String) (new : V) (rest : List (String × V))
      → lookup key (insert key new rest) ≡ some new
  lookup-insert_self key new rest = ground (arith, lookup-insert key key new rest)

  pub lookup-insert_ne :
      (key j : String) (new : V) (rest : List (String × V))
      → j ≢ key
      → lookup j (insert key new rest) ≡ lookup j rest
  lookup-insert_ne key j new rest h = ground (arith, lookup-insert key j new rest)

  pub lookup-erase :
      (key j : String) (rest : List (String × V))
      → lookup j (erase key rest) ≡ (if key == j then none else lookup j rest)
  unfolding lookup erase
  lookup-erase key j [] = ground arith
  lookup-erase key j ((i, old) ∷ rest) = ground (arith, lookup-erase key j rest)

  pub lookup-erase_self :
      (key : String) (rest : List (String × V)) → lookup key (erase key rest) ≡ none
  lookup-erase_self key rest = ground (arith, lookup-erase key key rest)

  pub lookup-erase_ne :
      (key j : String) (rest : List (String × V))
      → j ≢ key
      → lookup j (erase key rest) ≡ lookup j rest
  lookup-erase_ne key j rest h = ground (arith, lookup-erase key j rest)

  -- A write under a key in use keeps the length; under a new key it adds one entry.
  pub length-insert_old :
      (key : String) (new : V) (rest : List (String × V))
      → lookup key rest ≢ none
      → length (insert key new rest) ≡ length rest
  unfolding lookup insert
  length-insert_old key new [] h = absurd (h refl)
  length-insert_old key new ((j, old) ∷ rest) h = ground (arith, length-insert_old key new rest)

  pub length-insert_new :
      (key : String) (new : V) (rest : List (String × V))
      → lookup key rest ≡ none
      → length (insert key new rest) ≡ suc (length rest)
  unfolding lookup insert
  length-insert_new key new [] h = refl
  length-insert_new key new ((j, old) ∷ rest) h = ground (arith, length-insert_new key new rest)

  -- Writes under two keys in use commute.
  pub insert-insert_comm :
      (j key : String) (new old : V) (rest : List (String × V))
      → j ≢ key
      → lookup j rest ≢ none
      → lookup key rest ≢ none
      → insert j new (insert key old rest) ≡ insert key old (insert j new rest)
  unfolding lookup insert
  insert-insert_comm j key new old [] ne hj hk = absurd (hj refl)
  insert-insert_comm j key new old ((i, x) ∷ rest) ne hj hk =
      ground (arith, insert-insert_comm j key new old rest ne)

  pub insert-insert_self :
      (key : String) (new old : V) (rest : List (String × V))
      → insert key new (insert key old rest) ≡ insert key new rest
  unfolding insert
  insert-insert_self key new old [] = ground arith
  insert-insert_self key new old ((i, x) ∷ rest) =
      ground (arith, insert-insert_self key new old rest)
