-- ===== src/Tests/Live.antt =====
-- The theorems on the hub and on terminal sessions at concrete inputs (cmd/controller/hub.go,
-- pkg/terminal/session.go).
use crybaby.Base.{
  ℕ, ◌≡◌, refl, String, Bool, true, false, List, [], ◌∷◌, ◌++◌, Option, none, some, ◌==◌, nat_eq,
  ℕ_discrete, ==_differ, Bool-cases, inl, inr, arith,
}
use crybaby.Base.Result.{ok, err}
use crybaby.Base.Text.{◌<>◌}
use crybaby.Hub.{
  Hub, new_hub, member, remove, register, write_all, write_one, broadcast_json, deliver, unregister,
  close_client,
}
use crybaby.Hub.Drain.{IsOrder, drain, chronological, drain_lem}
use crybaby.Hub.Histories.{reachable-IsValid, closed_receives_nothing}
use crybaby.Hub.Round.{
  received, IsServed, write_all-IsServed, member-remove_self, member-remove_other,
}
use crybaby.Hub.Steps.{
  ◌⟶*◌, registers, unregisters, delivers, broadcasts, here, next_step, IsValid, member-Absent,
  Distinct-remove,
}
use crybaby.Terminal.{
  Process, Session, Codec, Reading, conn_closed, new_session, stream_pipe, input_loop,
  handle_terminal, Turn, stdout_turn, input_turn,
}
use crybaby.Terminal.Closing.{closings, closed_once, handle_terminal-closings}
use crybaby.Terminal.Streams.{
  sent_text, typed_text, printed, entered, any_lost, stream_pipe_lem, input_loop_lem,
}
use crybaby.Types.Cluster.{TerminalMessage, input}

-- A hub with two clients, and two messages that wait.
abbrev two_clients : Hub
two_clients = record { clients = 1 ∷ 2 ∷ []; broadcast = "a" ∷ "b" ∷ []; written = []; closed = [] }

-- Writes to connection 2 fail.
abbrev second_fails : ℕ → Bool
second_fails c = c == 2

write_all-IsServed_example :
    IsServed true "a" 2 (write_all second_fails "a" (2 ∷ 1 ∷ []) two_clients) two_clients
unfolding ℕ_discrete member
write_all-IsServed_example =
    write_all-IsServed second_fails "a" 2 (2 ∷ 1 ∷ []) two_clients
      (((λ e. ground (arith, e)), tt), (tt, tt)) refl

-- Each key once.
keys_once : List ℕ → List ℕ
keys_once [] = []
keys_once (d ∷ ds) = d ∷ remove d (keys_once ds)

keys_once-IsOrder : (keys : List ℕ) → IsOrder (keys_once keys) keys
unfolding keys_once member ℕ_discrete
keys_once-IsOrder [] = (tt, λ c. refl)
keys_once-IsOrder (d ∷ ds) =
    let rest = keys_once-IsOrder ds in
    (
      (
        member-Absent d (remove d (keys_once ds)) (member-remove_self d (keys_once ds)),
        Distinct-remove d (keys_once ds) rest.0,
      ),
      (λ c. elim (Bool-cases (c == d)) [
        | inl same ↦ ground (arith, same)
        | inr differ ↦
            let stays = member-remove_other c d (keys_once ds) (==_differ c d differ) in
            ground (arith, differ, stays, rest.1 c)
      ]),
    )

drain_lem_example :
    let t = drain (λ _ c. c == 2) keys_once two_clients.broadcast two_clients in
    (t.broadcast ≡ [])
    × (member 1 t.clients ≡ true)
    × (chronological (received 1 t.written)
        ≡ chronological (received 1 two_clients.written) ++ two_clients.broadcast)
unfolding member ℕ_discrete
drain_lem_example =
    drain_lem (λ _ c. c == 2) keys_once 1 two_clients keys_once-IsOrder (λ m. refl) refl

abbrev joined : Hub
joined = register 1 new_hub

sample_history : new_hub ⟶* broadcast_json (some "a") joined
unfolding new_hub member
sample_history = next_step (registers 1 refl) (next_step (broadcasts (some "a")) here)

reachable-IsValid_example : IsValid (broadcast_json (some "a") joined)
reachable-IsValid_example = reachable-IsValid sample_history

-- A hub that has closed connection 1, after a write to it.
abbrev after_closing : Hub
after_closing =
    unregister 1 (deliver (λ _. false) (1 ∷ []) (broadcast_json (some "z") (register 1 new_hub)))

joined-IsOrder : IsOrder (1 ∷ []) (broadcast_json (some "z") joined).clients
unfolding new_hub register broadcast_json member
joined-IsOrder = ((tt, tt), λ c. refl)

closing_history : new_hub ⟶* after_closing
unfolding new_hub member
closing_history = next_step (registers 1 refl) (
    next_step (broadcasts (some "z"))
      (next_step (delivers (λ _. false) (1 ∷ []) joined-IsOrder) (next_step (unregisters 1) here)))

closing_closed : member 1 after_closing.closed ≡ true
unfolding new_hub register broadcast_json deliver write_one write_all unregister close_client member
    ℕ_discrete
closing_closed = refl

closed_receives_nothing_example :
    (received 1 (broadcast_json (some "a") after_closing).written
      ≡ received 1 after_closing.written)
    × (member 1 (broadcast_json (some "a") after_closing).clients ≡ false)
closed_receives_nothing_example =
    closed_receives_nothing 1 closing_history (next_step (broadcasts (some "a")) here)
      closing_closed

-- The pipe of the errors cannot be opened.
abbrev broken : Process
broken = record {
  stdin_error = none;
  stdout_error = none;
  stderr_error = some "no pipe";
  start_error = none;
}

abbrev working : Process
working = record {
  stdin_error = none;
  stdout_error = none;
  stderr_error = none;
  start_error = none;
}

abbrev fresh : Session
fresh = record { command = "bash" ∷ "-i" ∷ []; done = false; effects = [] }

-- Every text is decoded as input.
abbrev decode : String → Option TerminalMessage
decode bytes = some (record { type = input; content = bytes; rows = 0; cols = 0 })

-- Each byte is shown as a dot.
abbrev dots : List ℕ → String
dots [] = ""
dots (b ∷ bs) = "." <> dots bs

abbrev codec : Codec
codec = record { decode = decode; text = dots }

abbrev readings : List Reading
readings =
    record { chunk = 36 ∷ 32 ∷ []; ended = false; unwritable = false }
    ∷ record { chunk = 98 ∷ 121 ∷ 101 ∷ []; ended = true; unwritable = false }
    ∷ []

stream_pipe_lem_example :
    sent_text (stream_pipe codec readings fresh).effects
    ≡ sent_text fresh.effects <> printed codec readings
stream_pipe_lem_example = stream_pipe_lem codec readings fresh (refl, (refl, tt))

input_loop_lem_example :
    let t = input_loop decode (some "ls" ∷ some "\n" ∷ none ∷ []) fresh in
    (typed_text t.effects
      ≡ typed_text fresh.effects <> entered decode (some "ls" ∷ some "\n" ∷ none ∷ []))
    × (t.done ≡ any_lost (some "ls" ∷ some "\n" ∷ none ∷ []))
input_loop_lem_example = input_loop_lem decode (some "ls" ∷ some "\n" ∷ none ∷ []) fresh refl

abbrev turns : List Turn
turns =
    input_turn (some "ls")
    ∷ stdout_turn (record { chunk = 120 ∷ []; ended = true; unwritable = false })
    ∷ input_turn none
    ∷ []

handle_terminal-closings_example :
    ((s : Session)
      → (new_session "linux" working).1 ≡ ok s
      → closings (handle_terminal codec "linux" working turns) ≡ closed_once)
    × ((e : String)
        → (new_session "linux" working).1 ≡ err e
        → handle_terminal codec "linux" working turns ≡ conn_closed ∷ [])
handle_terminal-closings_example = handle_terminal-closings codec "linux" working turns
