-- ===== src/Hub/Steps.antt =====
-- The histories of the hub of cmd/controller/hub.go, as a relation between its states: its events
-- come in any order, since `Run` takes from three channels and any goroutine may broadcast.
use crybaby.Base.{
  ℕ, ◌≤◌, ◌≡◌, ◌∙◌, sym, ap, subst, String, Bool, true, false, List, [], ◌∷◌, Option, length,
  Distinct, Absent, All, arith, Bool-cases, inl, inr, ◌==◌, nat_eq, ℕ_discrete, ==_differ, ==_eq,
}
use crybaby.Hub.{
  Hub, member, remove, register, unregister, close_client, write_one, write_all, deliver,
  broadcast_json, capacity,
}
use crybaby.Hub.Round.{write_one-IsSameFor, member-remove_self, member-remove_other}
use crybaby.Hub.Drain.{IsOrder}

infix 40 ◌⟶◌ ◌⟶*◌
-- A connection is registered as soon as it is made, so it has not been closed.
pub data ◌⟶◌ : Hub → Hub → Type 0 where
  registers : {h : Hub} (c : ℕ) → member c h.closed ≡ false → h ⟶ register c h
  unregisters : {h : Hub} (c : ℕ) → h ⟶ unregister c h
  delivers :
      {h : Hub} (fails : ℕ → Bool) (order : List ℕ)
      → IsOrder order h.clients
      → h ⟶ deliver fails order h
  broadcasts : {h : Hub} (marshalled : Option String) → h ⟶ broadcast_json marshalled h

pub data ◌⟶*◌ : Hub → Hub → Type 0 where
  here : {h : Hub} → h ⟶* h
  next_step : {f g h : Hub} → f ⟶ g → g ⟶* h → f ⟶* h

pub record IsValid (h : Hub) : Type 0 where
  -- every client is one key of the map, and is not closed
  pub once : Distinct h.clients
  pub open_clients : (c : ℕ) → member c h.clients ≡ true → member c h.closed ≡ false
  -- no connection is closed twice
  pub closings : Distinct h.closed
  -- no more messages wait than the channel holds
  pub bounded : length h.broadcast ≤ capacity

pub member-Absent : (c : ℕ) (l : List ℕ) → member c l ≡ false → Absent c l
unfolding member
member-Absent c [] e = tt
member-Absent c (d ∷ ds) e =
    ((λ same. ==_differ c d (ground (arith, e)) (sym same)), member-Absent c ds (ground (arith, e)))

Absent-remove : (c d : ℕ) (l : List ℕ) → Absent c l → Absent c (remove d l)
unfolding remove
Absent-remove c d [] out = tt
Absent-remove c d (x ∷ xs) out = elim (Bool-cases (d == x)) [
  | inl hit ↦ rw hit (Absent-remove c d xs out.1)
  | inr miss ↦ rw miss (out.0, Absent-remove c d xs out.1)
]

pub Distinct-remove : (d : ℕ) (l : List ℕ) → Distinct l → Distinct (remove d l)
unfolding remove
Distinct-remove d [] once = tt
Distinct-remove d (x ∷ xs) once = elim (Bool-cases (d == x)) [
  | inl hit ↦ rw hit (Distinct-remove d xs once.1)
  | inr miss ↦ rw miss (Absent-remove x d xs once.0, Distinct-remove d xs once.1)
]

pub register-IsValid :
    (c : ℕ) (h : Hub) → member c h.closed ≡ false → IsValid h → IsValid (register c h)
unfolding register member ℕ_discrete
register-IsValid c h fresh v = elim (Bool-cases (member c h.clients)) [
  | inl known ↦ rw known v
  | inr new ↦ rw new (record {
    once = (member-Absent c h.clients new, v.once);
    open_clients = λ d within. elim (Bool-cases (d == c)) [
      | inl same ↦ subst (λ z. member z h.closed ≡ false) (sym (==_eq d c same)) fresh
      | inr differ ↦ v.open_clients d (ground (arith, within, differ))
    ];
    closings = v.closings;
    bounded = v.bounded;
  })
]

-- Closing a client.
close_client-IsValid :
    (c : ℕ) (h : Hub) → member c h.clients ≡ true → IsValid h → IsValid (close_client c h)
unfolding close_client member ℕ_discrete
close_client-IsValid c h within v = record {
  once = Distinct-remove c h.clients v.once;
  open_clients = λ d left. elim (Bool-cases (d == c)) [
    | inl same ↦ absurd (
        ground (
          arith,
          left,
          ap (λ z. member z (remove c h.clients)) (==_eq d c same),
          member-remove_self c h.clients,
        ))
    | inr differ ↦
        let stays = member-remove_other d c h.clients (==_differ d c differ) in
        ground (arith, differ, v.open_clients d (sym stays ∙ left))
  ];
  closings = (member-Absent c h.closed (v.open_clients c within), v.closings);
  bounded = v.bounded;
}

pub unregister-IsValid : (c : ℕ) (h : Hub) → IsValid h → IsValid (unregister c h)
unfolding unregister
unregister-IsValid c h v = elim (Bool-cases (member c h.clients)) [
  | inl known ↦ rw known (close_client-IsValid c h known v)
  | inr other ↦ rw other v
]

write_one-IsValid :
    (fails : ℕ → Bool) (m : String) (c : ℕ) (h : Hub)
    → member c h.clients ≡ true
    → IsValid h
    → IsValid (write_one fails m c h)
unfolding write_one
write_one-IsValid fails m c h within v = elim (Bool-cases (fails c)) [
  | inl failed ↦ rw failed (close_client-IsValid c h within v)
  | inr written ↦ rw written (record {
    once = v.once;
    open_clients = v.open_clients;
    closings = v.closings;
    bounded = v.bounded;
  })
]

-- Those that a round has still to go through are clients still.
pub write_all-IsValid :
    (fails : ℕ → Bool) (m : String) (order : List ℕ) (h : Hub)
    → Distinct order
    → All (λ c. member c h.clients ≡ true) order
    → IsValid h
    → IsValid (write_all fails m order h)
unfolding write_all
write_all-IsValid fails m [] h once within v = v
write_all-IsValid fails m (c ∷ cs) h once within v =
    write_all-IsValid fails m cs (write_one fails m c h) once.1
      (still-All fails m c cs h once.0 within.1) (write_one-IsValid fails m c h within.0 v)
  where
    still-All :
        (fails : ℕ → Bool) (m : String) (c : ℕ) (cs : List ℕ) (h : Hub)
        → Absent c cs
        → All (λ d. member d h.clients ≡ true) cs
        → All (λ d. member d (write_one fails m c h).clients ≡ true) cs
    still-All fails m c [] h out all = tt
    still-All fails m c (d ∷ ds) h out all =
        ((write_one-IsSameFor fails m d c h out.0).0 ∙ all.0, still-All fails m c ds h out.1 all.1)
