-- ===== src/Hub.antt =====
-- `Hub` of cmd/controller/hub.go: the dashboard's connections and the queue of messages. A
-- connection is a number, as pointers are told apart; the map's keys are a list without order, and
-- what the connections see is a log.
pub mod Round
pub mod Steps
pub mod Drain
pub mod Histories
use crybaby.Base.{
  ℕ, suc, ◌≡◌, String, Bool, true, false, ◌||◌, List, [], ◌∷◌, ◌++◌, Option, none, some, ◌==◌,
  nat_eq, ltb, length, if◌then◌else◌,
}

pub record Hub : Type 0 where
  pub clients : List ℕ
  pub broadcast : List String
  -- the messages that connections were written, and the connections that were closed, the last first
  pub written : List (ℕ × String)
  pub closed : List ℕ

unfoldable pub new_hub : Hub
new_hub = record { clients = []; broadcast = []; written = []; closed = [] }

-- `_, ok := clients[conn]`
unfoldable pub member : ℕ → List ℕ → Bool
member c [] = false
member c (d ∷ ds) = c == d || member c ds

-- `delete(clients, conn)`
unfoldable pub remove : ℕ → List ℕ → List ℕ
remove c [] = []
remove c (d ∷ ds) = let rest = remove c ds in if c == d then rest else d ∷ rest

-- `clients[conn] = true`
unfoldable pub register : ℕ → Hub → Hub
unfolding member
register c h = record h { clients = if member c h.clients then h.clients else c ∷ h.clients }

unfoldable pub close_client : ℕ → Hub → Hub
unfolding remove
close_client c h = record h { clients = remove c h.clients; closed = c ∷ h.closed }

unfoldable pub unregister : ℕ → Hub → Hub
unfolding member close_client
unregister c h = if member c h.clients then close_client c h else h

-- The write of one message to one connection, which fails or not.
unfoldable pub write_one : (ℕ → Bool) → String → ℕ → Hub → Hub
unfolding close_client
write_one fails message c h =
    if fails c then close_client c h else record h { written = (c, message) ∷ h.written }

-- the loop over the clients, in the order that the map is gone through
unfoldable pub write_all : (ℕ → Bool) → String → List ℕ → Hub → Hub
unfolding write_one
write_all fails message [] h = h
write_all fails message (c ∷ cs) h = write_all fails message cs (write_one fails message c h)

-- A message taken from the channel and written to all, if there is one.
unfoldable pub deliver : (ℕ → Bool) → List ℕ → Hub → Hub
unfolding write_all
deliver fails order h = elim h.broadcast [
  | [] ↦ h
  | message ∷ rest ↦ write_all fails message order (record h { broadcast = rest })
]

abbrev pub capacity : ℕ
capacity = 100

-- `BroadcastJSON` of what `json.Marshal` gave: dropped when the channel is full.
unfoldable pub broadcast_json : Option String → Hub → Hub
broadcast_json none h = h
broadcast_json (some data_text) h =
    if ltb (length h.broadcast) capacity
    then record h { broadcast = h.broadcast ++ data_text ∷ [] }
    else h
