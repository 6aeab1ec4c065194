-- ===== src/Terminal.antt =====
-- `Session` of pkg/terminal/session.go: a shell between a WebSocket and its pipes, and the agent's
-- handler of the terminal (cmd/agent/main.go). What the session does outside is a log, the last
-- entry first.
pub mod Opening
pub mod Streams
pub mod Closing
use crybaby.Base.{
  ℕ, String, Bool, true, false, not, ◌&&◌, ◌||◌, List, [], ◌∷◌, Option, none, some, ◌==◌, text_eq,
  Eq, if◌then◌else◌,
}
use crybaby.Base.Result.{Result, ok, err}
use crybaby.Types.Cluster.{TerminalMessageType, input, output, TerminalMessage}
use mathlib.Core.Option

pub data Pipe : Type 0 where
  stdin_pipe stdout_pipe stderr_pipe : Pipe

-- os/exec for one command: the error of each step, if it fails.
pub record Process : Type 0 where
  pub stdin_error : Option String
  pub stdout_error : Option String
  pub stderr_error : Option String
  pub start_error : Option String

-- The command and its arguments for the operating system that `runtime.GOOS` names.
unfoldable pub shell_of : String → List String
shell_of goos =
    if goos == "windows"
    then "powershell.exe" ∷ "-NoProfile" ∷ "-NoLogo" ∷ []
    else "bash" ∷ "-i" ∷ []

pub data Effect : Type 0 where
  -- a message written to the connection, and a text to the shell
  sent : TerminalMessage → Effect
  typed : String → Effect
  stdin_closed killed conn_closed : Effect

pub record Session : Type 0 where
  pub command : List String
  pub done : Bool
  pub effects : List Effect

-- `NewSession`: the pipes that it closes on the way out, beside its result.
unfoldable pub new_session : String → Process → List Pipe × Result String Session
unfolding shell_of
new_session goos p = elim p.stdin_error [
  | some e ↦ ([], err e)
  | none ↦ elim p.stdout_error [
    | some e ↦ (stdin_pipe ∷ [], err e)
    | none ↦ elim p.stderr_error [
      | some e ↦ (stdin_pipe ∷ stdout_pipe ∷ [], err e)
      | none ↦ elim p.start_error [
        | some e ↦ (stdin_pipe ∷ stdout_pipe ∷ stderr_pipe ∷ [], err e)
        | none ↦ ([], ok (record { command = shell_of goos; done = false; effects = [] }))
      ]
    ]
  ]
]

abbrev pub noted : Effect → Session → Session
noted e s = record s { effects = e ∷ s.effects }

-- `Close`
unfoldable pub close : Session → Session
close s =
    if s.done
    then s
    else record s { done = true; effects = conn_closed ∷ killed ∷ stdin_closed ∷ s.effects }

abbrev pub is_input : TerminalMessageType → Bool
is_input input = true
is_input _ = false

-- What a message that was read does, if it could be decoded.
unfoldable pub receive : Option TerminalMessage → Session → Session
receive none s = s
receive (some m) s =
    if is_input m.type && not (m.content == "") then noted (typed m.content) s else s

-- The loop over the connection's messages, `none` for an error of `ReadMessage`. After the last
-- entry the loop waits.
unfoldable pub input_loop :
    (String → Option TerminalMessage) → List (Option String) → Session → Session
unfolding receive close
input_loop decode [] s = s
input_loop decode (none ∷ _) s = close s
input_loop decode (some bytes ∷ rest) s = input_loop decode rest (receive (decode bytes) s)

abbrev pub output_message : String → TerminalMessage
output_message text = record { type = output; content = text; rows = 0; cols = 0 }

-- What encoding/json makes of messages.
pub record Codec : Type 0 where
  -- the message that a text of the connection is
  pub decode : String → Option TerminalMessage
  -- the text that bytes of the shell are in a message: what is no UTF-8 in them is replaced
  pub text : List ℕ → String

abbrev pub is_empty : List ℕ → Bool
is_empty [] = true
is_empty (b ∷ bs) = false

-- One `Read` of a pipe: the bytes, whether it returned an error, and whether the write of the bytes
-- to the connection would fail.
pub record Reading : Type 0 where
  pub chunk : List ℕ
  pub ended : Bool
  pub unwritable : Bool

-- The bytes that were read are written to the connection, if there are any.
unfoldable pub write_chunk : Codec → Reading → Session → Session
write_chunk c r s =
    if is_empty r.chunk || r.unwritable then s else noted (sent (output_message (c.text r.chunk))) s

-- The loop breaks after a failed write and after a read that returned an error.
unfoldable pub goes_on : Reading → Bool
goes_on r = not (not (is_empty r.chunk) && r.unwritable || r.ended)

-- `streamPipeToWS` over the results of its reads. After the last of them the loop waits.
unfoldable pub stream_pipe : Codec → List Reading → Session → Session
unfolding write_chunk goes_on
stream_pipe c [] s = s
stream_pipe c (r ∷ rs) s =
    let s' = write_chunk c r s in let rest = stream_pipe c rs s' in if goes_on r then rest else s'

-- The three loops of `HandleIO`, each running or ended.
pub record Io : Type 0 where
  pub session : Session
  pub stdout_runs : Bool
  pub stderr_runs : Bool
  pub input_runs : Bool

-- A turn of one of the loops: a read of a pipe, or of the connection.
pub data Turn : Type 0 where
  stdout_turn stderr_turn : Reading → Turn
  input_turn : Option String → Turn

unfoldable pub input_step : (String → Option TerminalMessage) → Option String → Session → Session
unfolding receive close
input_step decode none s = close s
input_step decode (some bytes) s = receive (decode bytes) s

abbrev pub is_read : Option String → Bool
is_read none = false
is_read (some bytes) = true

-- A loop that has ended takes no turn.
unfoldable pub take_turn : Codec → Turn → Io → Io
unfolding write_chunk goes_on input_step
take_turn c (stdout_turn r) io =
    if io.stdout_runs
    then record io { session = write_chunk c r io.session; stdout_runs = goes_on r }
    else io
take_turn c (stderr_turn r) io =
    if io.stderr_runs
    then record io { session = write_chunk c r io.session; stderr_runs = goes_on r }
    else io
take_turn c (input_turn m) io =
    if io.input_runs
    then record io { session = input_step c.decode m io.session; input_runs = is_read m }
    else io

unfoldable pub take_turns : Codec → List Turn → Io → Io
unfolding take_turn
take_turns c [] io = io
take_turns c (t ∷ ts) io = take_turns c ts (take_turn c t io)

abbrev pub started : Session → Io
started s = record { session = s; stdout_runs = true; stderr_runs = true; input_runs = true }

-- `HandleIO` by the turns that its loops take, in the order in which they take them.
unfoldable pub handle_io : Codec → List Turn → Session → Session
unfolding take_turns
handle_io c turns s = (take_turns c turns (started s)).session

-- The handler of `/api/v1/ws/terminal` once the connection is there: what it has done in the end.
unfoldable pub handle_terminal : Codec → String → Process → List Turn → List Effect
unfolding new_session close handle_io
handle_terminal c goos p turns = elim (new_session goos p).1 [
  | err e ↦ conn_closed ∷ []
  | ok s ↦ (close (handle_io c turns s)).effects
]
