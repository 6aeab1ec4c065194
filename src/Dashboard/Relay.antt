-- ===== src/Dashboard/Relay.antt =====
-- What a terminal's proxy forwards (cmd/controller/main.go).
use crybaby.Base.{
  ◌≡◌, refl, ◌∙◌, ap, sym, String, Bool, true, false, ◌||◌, List, [], ◌∷◌, ◌++◌, append_assoc,
  append_nil, if-cases, none, some, if◌then◌else◌,
}
use crybaby.Dashboard.{
  Forward, to_agent, to_browser, returns, Relayed, forward, relay, nothing_relayed,
}
use crybaby.Hub.Drain.{chronological}

-- The turns before the connections are closed, which is at the first return of the handler after an
-- error of a loop; `failed` tells whether there was one.
unfoldable pub while_open : Bool → List Forward → List Forward
while_open failed [] = []
while_open failed (to_agent none ∷ ts) = to_agent none ∷ while_open true ts
while_open failed (to_agent (some m) ∷ ts) = to_agent (some m) ∷ while_open failed ts
while_open failed (to_browser none ∷ ts) = to_browser none ∷ while_open true ts
while_open failed (to_browser (some m) ∷ ts) = to_browser (some m) ∷ while_open failed ts
while_open failed (returns ∷ ts) = let rest = while_open failed ts in if failed then [] else rest

unfoldable pub returned : Bool → List Forward → Bool
returned failed [] = false
returned failed (to_agent none ∷ ts) = returned true ts
returned failed (to_agent (some m) ∷ ts) = returned failed ts
returned failed (to_browser none ∷ ts) = returned true ts
returned failed (to_browser (some m) ∷ ts) = returned failed ts
returned failed (returns ∷ ts) = let rest = returned failed ts in if failed then true else rest

-- The messages that a loop forwards before its own first error.
unfoldable pub for_agent : List Forward → List String
for_agent [] = []
for_agent (to_agent none ∷ ts) = []
for_agent (to_agent (some m) ∷ ts) = m ∷ for_agent ts
for_agent (to_browser m ∷ ts) = for_agent ts
for_agent (returns ∷ ts) = for_agent ts

unfoldable pub for_browser : List Forward → List String
for_browser [] = []
for_browser (to_agent m ∷ ts) = for_browser ts
for_browser (to_browser none ∷ ts) = []
for_browser (to_browser (some m) ∷ ts) = m ∷ for_browser ts
for_browser (returns ∷ ts) = for_browser ts

-- What a loop adds: nothing if it has ended.
unfoldable unless : Bool → List String → List String
unless true l = []
unless false l = l

unless_nil : (x : Bool) (l : List String) → l ++ unless x [] ≡ l
unfolding unless
unless_nil true l = append_nil l
unless_nil false l = append_nil l

abbrev open_relay : List String → List String → Bool → Bool → Relayed
open_relay a b x y = record {
  agent = a;
  browser = b;
  agent_ended = x;
  browser_ended = y;
  closed = false;
}

-- From connections that are open, each side gets what its loop forwards until they are closed.
abbrev IsForwarded : List Forward → List String → List String → Bool → Bool → Relayed → Type 0
IsForwarded ts a b x y t =
    (chronological t.agent ≡ chronological a ++ unless x (for_agent (while_open (x || y) ts)))
    × (chronological t.browser ≡ chronological b ++ unless y (for_browser (while_open (x || y) ts)))
    × (t.closed ≡ returned (x || y) ts)

forward_closed : (t : Forward) (s : Relayed) → s.closed ≡ true → forward t s ≡ s
unfolding forward
forward_closed (to_agent none) s e = rw e refl
forward_closed (to_agent (some m)) s e = rw e refl
forward_closed (to_browser none) s e = rw e refl
forward_closed (to_browser (some m)) s e = rw e refl
forward_closed returns s e =
    if-cases (λ g. g ≡ s) (s.agent_ended || s.browser_ended) _ s
      (λ _. ap (λ z. record s { closed = z }) (sym e)) (λ _. refl)

relay_closed : (ts : List Forward) (s : Relayed) → s.closed ≡ true → relay ts s ≡ s
unfolding relay
relay_closed [] s e = refl
relay_closed (t ∷ ts) s e = ap (relay ts) (forward_closed t s e) ∙ relay_closed ts s e

closed-IsForwarded :
    (ts : List Forward) (a b : List String) (x y : Bool)
    → (x || y) ≡ true
    → IsForwarded (returns ∷ ts) a b x y (relay ts (record (open_relay a b x y) { closed = true }))
unfolding while_open returned for_agent for_browser
closed-IsForwarded ts a b x y failed =
    rw (relay_closed ts (record (open_relay a b x y) { closed = true }) refl, failed)
      (sym (unless_nil x (chronological a)), sym (unless_nil y (chronological b)), refl)

relay-IsForwarded :
    (ts : List Forward) (a b : List String) (x y : Bool)
    → IsForwarded ts a b x y (relay ts (open_relay a b x y))
unfolding relay while_open returned for_agent for_browser unless chronological
relay-IsForwarded [] a b x y =
    (sym (unless_nil x (chronological a)), sym (unless_nil y (chronological b)), refl)
relay-IsForwarded (to_agent none ∷ ts) a b true y = relay-IsForwarded ts a b true y
relay-IsForwarded (to_agent none ∷ ts) a b false y = relay-IsForwarded ts a b true y
relay-IsForwarded (to_agent (some m) ∷ ts) a b true y = relay-IsForwarded ts a b true y
relay-IsForwarded (to_agent (some m) ∷ ts) a b false y =
    let rest = relay-IsForwarded ts (m ∷ a) b false y in
    (rest.0 ∙ append_assoc (chronological a) (m ∷ []) _, rest.1, rest.2)
relay-IsForwarded (to_browser none ∷ ts) a b true true = relay-IsForwarded ts a b true true
relay-IsForwarded (to_browser none ∷ ts) a b false true = relay-IsForwarded ts a b false true
relay-IsForwarded (to_browser none ∷ ts) a b true false = relay-IsForwarded ts a b true true
relay-IsForwarded (to_browser none ∷ ts) a b false false = relay-IsForwarded ts a b false true
relay-IsForwarded (to_browser (some m) ∷ ts) a b x true = relay-IsForwarded ts a b x true
relay-IsForwarded (to_browser (some m) ∷ ts) a b x false =
    let rest = relay-IsForwarded ts a (m ∷ b) x false in
    (rest.0, rest.1 ∙ append_assoc (chronological b) (m ∷ []) _, rest.2)
relay-IsForwarded (returns ∷ ts) a b true y = closed-IsForwarded ts a b true y refl
relay-IsForwarded (returns ∷ ts) a b false true = closed-IsForwarded ts a b false true refl
relay-IsForwarded (returns ∷ ts) a b false false = relay-IsForwarded ts a b false false

-- Whatever order the two loops of a proxy take their turns in, each side is written, in order, all
-- that the other sent before the first error of the loop between them, the other loop's error or
-- not, as long as the handler has not returned; and nothing after either. The handler returns only
-- after an error of a loop.
pub relay_lem :
    (ts : List Forward)
    → let t = relay ts nothing_relayed in
      (chronological t.agent ≡ for_agent (while_open false ts))
      × (chronological t.browser ≡ for_browser (while_open false ts))
      × (t.closed ≡ returned false ts)
unfolding chronological unless
relay_lem ts = relay-IsForwarded ts [] [] false false
