-- ===== src/Updater/Writes.antt =====
-- What a write and a removal leave of the other files (pkg/updater/updater.go).
use crybaby.Base.{String, ◌≡◌, ◌≢◌, refl, Option, none, text_eq, arith, Option-cases, inl, inr}
use crybaby.Updater.{Bytes, Files, System, put, removed}

pub put_self : (files : Files) (p : String) (c : Option Bytes) → put files p c p ≡ c
put_self files p c = ground arith

pub put_ne : (files : Files) (p q : String) (c : Option Bytes) → p ≢ q → put files p c q ≡ files q
put_ne files p q c ne = ground arith

pub removed_ne :
    (sys : System) (files : Files) (p q : String) → p ≢ q → removed sys files p q ≡ files q
removed_ne sys files p q ne = elim (Option-cases (sys.remove p)) [
  | inl e ↦ rw (e, removed) (put_ne files p q none ne)
  | inr (m, e) ↦ rw (e, removed) refl
]
