-- ===== src/Hub/Drain.antt =====
-- The queue of cmd/controller/hub.go empties, and whoever can be written gets all of it in order.
use crybaby.Base.{
  ℕ, ◌≡◌, refl, ◌∙◌, sym, ap, subst, String, Bool, true, false, List, [], ◌∷◌, ◌++◌, append_assoc,
  Distinct, arith, append_nil,
}
use crybaby.Hub.{Hub, member, write_all, deliver}
use crybaby.Hub.Round.{received, IsServed, write_all-IsServed, write_all-broadcast}

-- An order in which a map with these keys may be gone through: each key once.
abbrev pub IsOrder : List ℕ → List ℕ → Type 0
IsOrder order keys = Distinct order × ((c : ℕ) → member c order ≡ member c keys)

-- The rounds of `Run` for the messages that wait, where `fails` tells the writes that fail and
-- `order` the order in which the clients are gone through.
unfoldable pub drain : (String → ℕ → Bool) → (List ℕ → List ℕ) → List String → Hub → Hub
drain fails order [] h = h
drain fails order (m ∷ ms) h = drain fails order ms (deliver (fails m) (order h.clients) h)

-- The messages in the order in which a log has them, the first first.
unfoldable pub chronological : List String → List String
chronological [] = []
chronological (m ∷ ms) = chronological ms ++ m ∷ []

pub deliver-write_all :
    (fails : ℕ → Bool) (order : List ℕ) (h : Hub) (m : String) (ms : List String)
    → h.broadcast ≡ m ∷ ms
    → deliver fails order h ≡ write_all fails m order (record h { broadcast = ms })
unfolding deliver
deliver-write_all fails order h m ms e = ground (arith, e)

drain-all :
    (fails : String → ℕ → Bool) (order : List ℕ → List ℕ) (c : ℕ) (ms : List String) (h : Hub)
    → ((keys : List ℕ) → IsOrder (order keys) keys)
    → ((m : String) → fails m c ≡ false)
    → h.broadcast ≡ ms
    → member c h.clients ≡ true
    → let t = drain fails order ms h in
      (t.broadcast ≡ [])
      × (member c t.clients ≡ true)
      × (chronological (received c t.written) ≡ chronological (received c h.written) ++ ms)
unfolding drain chronological
drain-all fails order c [] h fair writable queue within = (queue, within, sym (append_nil _))
drain-all fails order c (m ∷ ms) h fair writable queue within =
    let next = deliver (fails m) (order h.clients) h in
    let started = record h { broadcast = ms } in
    let is_next = deliver-write_all (fails m) (order h.clients) h m ms queue in
    let round =
      write_all-IsServed (fails m) m c (order h.clients) started (fair h.clients).0
        ((fair h.clients).1 c ∙ within) in
    let served : IsServed false m c next started =
      subst (λ b. IsServed b m c next started) (writable m)
        (subst (λ g. IsServed (fails m c) m c g started) (sym is_next) round) in
    let rest =
      drain-all fails order c ms next fair writable
        (ap (λ g. g.broadcast) is_next ∙ write_all-broadcast (fails m) m (order h.clients) started)
        (served.0 ∙ within) in
    (
      rest.0,
      rest.1,
      rest.2
          ∙ (ap (λ l. chronological l ++ ms) served.1
              ∙ append_assoc (chronological (received c h.written)) (m ∷ []) ms),
    )

-- The queue empties after as many rounds as it has messages, whatever order the rounds go in: a
-- client whose writes do not fail is still a client then, and has been written all the messages
-- that waited, in their order, after what it was written before. Other clients' failures do not
-- matter.
pub drain_lem :
    (fails : String → ℕ → Bool) (order : List ℕ → List ℕ) (c : ℕ) (h : Hub)
    → ((keys : List ℕ) → IsOrder (order keys) keys)
    → ((m : String) → fails m c ≡ false)
    → member c h.clients ≡ true
    → let t = drain fails order h.broadcast h in
      (t.broadcast ≡ [])
      × (member c t.clients ≡ true)
      × (chronological (received c t.written) ≡ chronological (received c h.written) ++ h.broadcast)
drain_lem fails order c h fair writable within =
    drain-all fails order c h.broadcast h fair writable refl within
