-- ===== src/Hub/Round.antt =====
-- One round of `Run` in cmd/controller/hub.go: a message to every client.
use crybaby.Base.{
  ℕ, ◌≡◌, refl, ◌∙◌, sym, ap, ◌≢◌, subst, String, Bool, true, false, List, [], ◌∷◌, ◌==◌, nat_eq,
  ℕ_discrete, Distinct, Absent, Bool-cases, inl, inr, arith, if◌then◌else◌, ==_eq, ==_differ,
}
use crybaby.Hub.{Hub, member, remove, close_client, write_one, write_all}

-- The messages of a log that one connection was written, the last first.
unfoldable pub received : ℕ → List (ℕ × String) → List String
received c [] = []
received c ((d, m) ∷ log) = let rest = received c log in if c == d then m ∷ rest else rest

pub member-remove_self : (c : ℕ) (l : List ℕ) → member c (remove c l) ≡ false
unfolding member remove
member-remove_self c [] = refl
member-remove_self c (d ∷ ds) = ground (arith, member-remove_self c ds)

pub member-remove_other : (c d : ℕ) (l : List ℕ) → c ≢ d → member c (remove d l) ≡ member c l
unfolding member remove
member-remove_other c d [] ne = refl
member-remove_other c d (x ∷ xs) ne = ground (arith, ne, member-remove_other c d xs ne)

-- A connection is no other's concern: clients, messages and closings of `c` are the same in both.
abbrev pub IsSameFor : ℕ → Hub → Hub → Type 0
IsSameFor c g h =
    (member c g.clients ≡ member c h.clients)
    × (received c g.written ≡ received c h.written)
    × (member c g.closed ≡ member c h.closed)

pub write_one-IsSameFor :
    (fails : ℕ → Bool) (m : String) (c d : ℕ) (h : Hub)
    → c ≢ d
    → IsSameFor c (write_one fails m d h) h
unfolding write_one close_client received member ℕ_discrete
write_one-IsSameFor fails m c d h ne = elim (Bool-cases (fails d)) [
  | inl failed ↦ rw failed (member-remove_other c d h.clients ne, refl, ground (arith, ne))
  | inr written ↦ rw written (refl, ground (arith, ne), refl)
]

-- What the round leaves to a connection that is not among those that are gone through.
pub write_all-IsSameFor :
    (fails : ℕ → Bool) (m : String) (c : ℕ) (order : List ℕ) (h : Hub)
    → Absent c order
    → IsSameFor c (write_all fails m order h) h
unfolding write_all
write_all-IsSameFor fails m c [] h out = (refl, refl, refl)
write_all-IsSameFor fails m c (d ∷ ds) h out =
    let rest = write_all-IsSameFor fails m c ds (write_one fails m d h) out.1 in
    let now = write_one-IsSameFor fails m c d h (λ e. out.0 (sym e)) in
    (rest.0 ∙ now.0, rest.1 ∙ now.1, rest.2 ∙ now.2)

-- What a round does for a connection: it is written the message, or closed and forgotten.
abbrev pub IsServed : Bool → String → ℕ → Hub → Hub → Type 0
IsServed true m c g h =
    (member c g.clients ≡ false)
    × (received c g.written ≡ received c h.written)
    × (member c g.closed ≡ true)
IsServed false m c g h =
    (member c g.clients ≡ member c h.clients)
    × (received c g.written ≡ m ∷ received c h.written)
    × (member c g.closed ≡ member c h.closed)

write_one-IsServed :
    (fails : ℕ → Bool) (m : String) (c : ℕ) (h : Hub)
    → IsServed (fails c) m c (write_one fails m c h) h
unfolding write_one close_client received member ℕ_discrete
write_one-IsServed fails m c h = elim (Bool-cases (fails c)) [
  | inl failed ↦ rw failed (member-remove_self c h.clients, refl, ground arith)
  | inr written ↦ rw written (refl, ground arith, refl)
]

IsServed-IsSameFor :
    (b : Bool) (m : String) (c : ℕ) (f g h : Hub)
    → IsSameFor c f g
    → IsServed b m c g h
    → IsServed b m c f h
IsServed-IsSameFor true m c f g h same served =
    (same.0 ∙ served.0, same.1 ∙ served.1, same.2 ∙ served.2)
IsServed-IsSameFor false m c f g h same served =
    (same.0 ∙ served.0, same.1 ∙ served.1, same.2 ∙ served.2)

IsSameFor-IsServed :
    (b : Bool) (m : String) (c : ℕ) (f g h : Hub)
    → IsServed b m c f g
    → IsSameFor c g h
    → IsServed b m c f h
IsSameFor-IsServed true m c f g h served same = (served.0, served.1 ∙ same.1, served.2)
IsSameFor-IsServed false m c f g h served same =
    (served.0 ∙ same.0, served.1 ∙ ap (λ l. m ∷ l) same.1, served.2 ∙ same.2)

-- In whatever order a round goes through its connections, each of them once, every one of them is
-- served: a connection whose write fails is closed and forgotten without the message, the others
-- are written it once, and the failure of one keeps the message from no other.
pub write_all-IsServed :
    (fails : ℕ → Bool) (m : String) (c : ℕ) (order : List ℕ) (h : Hub)
    → Distinct order
    → member c order ≡ true
    → IsServed (fails c) m c (write_all fails m order h) h
unfolding write_all member
write_all-IsServed fails m c [] h once within = absurd (ground (arith, within))
write_all-IsServed fails m c (d ∷ ds) h once within = elim (Bool-cases (c == d)) [
  | inl here ↦
      let same : d ≡ c = sym (==_eq c d here) in
      subst (λ z. IsServed (fails c) m c (write_all fails m ds (write_one fails m z h)) h)
        (sym same)
        (IsServed-IsSameFor (fails c) m c _ (write_one fails m c h) h
          (write_all-IsSameFor fails m c ds (write_one fails m c h)
            (subst (λ z. Absent z ds) same once.0))
          (write_one-IsServed fails m c h))
  | inr there ↦
      IsSameFor-IsServed (fails c) m c _ _ h
        (write_all-IsServed fails m c ds (write_one fails m d h) once.1
          (ground (arith, within, there)))
        (write_one-IsSameFor fails m c d h (==_differ c d there))
]

write_one-broadcast :
    (fails : ℕ → Bool) (m : String) (c : ℕ) (h : Hub)
    → (write_one fails m c h).broadcast ≡ h.broadcast
unfolding write_one close_client
write_one-broadcast fails m c h = ground arith

pub write_all-broadcast :
    (fails : ℕ → Bool) (m : String) (order : List ℕ) (h : Hub)
    → (write_all fails m order h).broadcast ≡ h.broadcast
unfolding write_all
write_all-broadcast fails m [] h = refl
write_all-broadcast fails m (c ∷ cs) h =
    write_all-broadcast fails m cs (write_one fails m c h) ∙ write_one-broadcast fails m c h
