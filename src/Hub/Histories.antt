-- ===== src/Hub/Histories.antt =====
-- What holds after every history of the hub of cmd/controller/hub.go.
use crybaby.Base.{
  ℕ, ◌≡◌, refl, ◌∙◌, sym, ap, subst, String, Bool, true, false, List, [], ◌∷◌, Option, none, some,
  length, length-append, All, arith, Bool-cases, inl, inr, ltb, ◌≢◌, nat_eq, if-cases, ℕ_discrete,
  Absent,
}
use crybaby.Hub.{
  Hub, new_hub, member, register, unregister, close_client, deliver, broadcast_json, capacity,
}
use crybaby.Hub.Round.{received, write_all-IsSameFor, member-remove_other, IsSameFor}
use crybaby.Hub.Drain.{IsOrder, deliver-write_all}
use crybaby.Hub.Steps.{
  ◌⟶◌, ◌⟶*◌, registers, unregisters, delivers, broadcasts, here, next_step, IsValid,
  register-IsValid, unregister-IsValid, write_all-IsValid, member-Absent,
}

members-All :
    (order keys : List ℕ)
    → ((c : ℕ) → member c order ≡ true → member c keys ≡ true)
    → All (λ c. member c keys ≡ true) order
unfolding member ℕ_discrete
members-All [] keys f = tt
members-All (c ∷ cs) keys f =
    (f c (ground arith), members-All cs keys (λ d e. f d (ground (arith, e))))

deliver_empty :
    (fails : ℕ → Bool) (order : List ℕ) (h : Hub) → h.broadcast ≡ [] → deliver fails order h ≡ h
unfolding deliver
deliver_empty fails order h e = ground (arith, e)

deliver-IsValid :
    (fails : ℕ → Bool) (order : List ℕ) (h : Hub) (waiting : List String)
    → h.broadcast ≡ waiting
    → IsOrder order h.clients
    → IsValid h
    → IsValid (deliver fails order h)
unfolding deliver
deliver-IsValid fails order h [] e o v = subst IsValid (sym (deliver_empty fails order h e)) v
deliver-IsValid fails order h (m ∷ ms) e o v =
    subst IsValid (sym (deliver-write_all fails order h m ms e)) (
      write_all-IsValid fails m order (record h { broadcast = ms }) o.0
        (members-All order h.clients (λ c within. sym (o.1 c) ∙ within))
        (record {
          once = v.once;
          open_clients = v.open_clients;
          closings = v.closings;
          bounded = let b = v.bounded in let n = ap length e in omega (arith, b, n);
        }))

broadcast_json-IsValid : (d : Option String) (h : Hub) → IsValid h → IsValid (broadcast_json d h)
unfolding broadcast_json
broadcast_json-IsValid none h v = v
broadcast_json-IsValid (some m) h v = elim (Bool-cases (ltb (length h.broadcast) capacity)) [
  | inr full ↦ rw full v
  | inl room ↦ rw room (record {
    once = v.once;
    open_clients = v.open_clients;
    closings = v.closings;
    bounded = ground (arith, room, length-append h.broadcast (m ∷ []));
  })
]

step-IsValid : {g h : Hub} → g ⟶ h → IsValid g → IsValid h
step-IsValid {g} (registers c fresh) v = register-IsValid c g fresh v
step-IsValid {g} (unregisters c) v = unregister-IsValid c g v
step-IsValid {g} (delivers fails order o) v = deliver-IsValid fails order g g.broadcast refl o v
step-IsValid {g} (broadcasts d) v = broadcast_json-IsValid d g v

steps-IsValid : {g h : Hub} → g ⟶* h → IsValid g → IsValid h
steps-IsValid here v = v
steps-IsValid (next_step s ss) v = steps-IsValid ss (step-IsValid s v)

new_hub-IsValid : IsValid new_hub
unfolding new_hub member
new_hub-IsValid = record {
  once = tt;
  open_clients = λ c within. refl;
  closings = tt;
  bounded = omega arith;
}

-- After every history of registrations, unregistrations, broadcasts and rounds, in any order, with
-- any failures of writes: each client is one key of the map and has not been closed, no connection
-- has been closed twice, and at most 100 messages wait.
pub reachable-IsValid : {h : Hub} → new_hub ⟶* h → IsValid h
reachable-IsValid ss = steps-IsValid ss new_hub-IsValid

-- A connection that is closed and no client.
abbrev pub IsGone : ℕ → Hub → Type 0
IsGone c h = (member c h.closed ≡ true) × (member c h.clients ≡ false)

IsGone-IsSameFor : (c : ℕ) (g h : Hub) → IsSameFor c g h → IsGone c h → IsGone c g
IsGone-IsSameFor c g h same gone = (same.2 ∙ gone.0, same.0 ∙ gone.1)

register-IsSameFor : (c d : ℕ) (h : Hub) → c ≢ d → IsSameFor c (register d h) h
unfolding register member ℕ_discrete
register-IsSameFor c d h ne = elim (Bool-cases (member d h.clients)) [
  | inl known ↦ rw known (refl, refl, refl)
  | inr new ↦ rw new (ground (arith, ne), refl, refl)
]

unregister-IsSameFor :
    (c d : ℕ) (h : Hub) → member c h.clients ≡ false → IsSameFor c (unregister d h) h
unfolding unregister close_client member ℕ_discrete
unregister-IsSameFor c d h out = elim (Bool-cases (member d h.clients)) [
  | inr other ↦ rw other (refl, refl, refl)
  | inl known ↦
      let ne : c ≢ d = λ e. absurd (ground (arith, known, out, ap (λ z. member z h.clients) e)) in
      rw known (member-remove_other c d h.clients ne, refl, ground (arith, ne))
]

deliver-IsSameFor :
    (fails : ℕ → Bool) (order : List ℕ) (h : Hub) (waiting : List String) (c : ℕ)
    → h.broadcast ≡ waiting
    → Absent c order
    → IsSameFor c (deliver fails order h) h
unfolding deliver
deliver-IsSameFor fails order h [] c e out =
    subst (λ g. IsSameFor c g h) (sym (deliver_empty fails order h e)) (refl, refl, refl)
deliver-IsSameFor fails order h (m ∷ ms) c e out =
    subst (λ g. IsSameFor c g h) (sym (deliver-write_all fails order h m ms e))
      (write_all-IsSameFor fails m c order (record h { broadcast = ms }) out)

broadcast_json-IsSameFor :
    (c : ℕ) (d : Option String) (h : Hub) → IsSameFor c (broadcast_json d h) h
unfolding broadcast_json
broadcast_json-IsSameFor c none h = (refl, refl, refl)
broadcast_json-IsSameFor c (some m) h =
    if-cases (λ g. IsSameFor c g h) (ltb (length h.broadcast) capacity) _ h
      (λ _. (refl, refl, refl)) (λ _. (refl, refl, refl))

-- A step leaves a connection that is gone as it is.
step-IsSameFor : {g h : Hub} (c : ℕ) → g ⟶ h → IsGone c g → IsSameFor c h g
step-IsSameFor {g} c (registers d fresh) gone =
    register-IsSameFor c d g
      (λ e. absurd (ground (arith, fresh, gone.0, ap (λ z. member z g.closed) e)))
step-IsSameFor {g} c (unregisters d) gone = unregister-IsSameFor c d g gone.1
step-IsSameFor {g} c (delivers fails order o) gone =
    deliver-IsSameFor fails order g g.broadcast c refl (member-Absent c order (o.1 c ∙ gone.1))
step-IsSameFor {g} c (broadcasts d) gone = broadcast_json-IsSameFor c d g

-- Where a history of a new hub has closed a connection, it is written nothing more whatever happens
-- after: it is no client, and never becomes one again. Connections are new when they are registered.
pub closed_receives_nothing :
    {g h : Hub} (c : ℕ)
    → new_hub ⟶* g
    → g ⟶* h
    → member c g.closed ≡ true
    → (received c h.written ≡ received c g.written) × (member c h.clients ≡ false)
closed_receives_nothing {g} {h} c before ss shut = go ss (shut, is_out)
  where
    is_out : member c g.clients ≡ false
    is_out = elim (Bool-cases (member c g.clients)) [
      | inl within ↦ absurd (ground (arith, (reachable-IsValid before).open_clients c within, shut))
      | inr out ↦ out
    ]

    go :
        {e f : Hub}
        → e ⟶* f
        → IsGone c e
        → (received c f.written ≡ received c e.written) × (member c f.clients ≡ false)
    go here gone = (refl, gone.1)
    go {e} (next_step {g = k} s ss) gone =
        let same = step-IsSameFor c s gone in
        let rest = go ss (IsGone-IsSameFor c k e same gone) in (rest.0 ∙ same.1, rest.1)
