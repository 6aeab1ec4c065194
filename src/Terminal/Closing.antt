-- ===== src/Terminal/Closing.antt =====
-- A terminal session is closed once, in whatever order its loops end (pkg/terminal/session.go and
-- the handler of cmd/agent/main.go).
use crybaby.Base.{
  ◌≡◌, refl, ◌∙◌, ap, sym, subst, String, true, not, ◌&&◌, ◌||◌, List, [], ◌∷◌, Option, none, some,
  Bool-cases, if-cases, inl, inr, arith, ◌==◌, text_eq, if◌then◌else◌,
}
use crybaby.Base.Result.{ok, err}
use crybaby.Types.Cluster.{TerminalMessage}
use crybaby.Terminal.{
  Effect, sent, typed, stdin_closed, killed, conn_closed, Session, close, is_input, receive,
  Reading, Codec, is_empty, write_chunk, Io, Turn, stdout_turn, stderr_turn, input_turn, input_step,
  take_turn, take_turns, started, handle_io, handle_terminal, Process, new_session,
}
use crybaby.Terminal.Opening.{new_session-opened}

-- The closings of a log.
unfoldable pub closings : List Effect → List Effect
closings [] = []
closings (sent m ∷ es) = closings es
closings (typed t ∷ es) = closings es
closings (stdin_closed ∷ es) = stdin_closed ∷ closings es
closings (killed ∷ es) = killed ∷ closings es
closings (conn_closed ∷ es) = conn_closed ∷ closings es

-- The pipe to the shell, the shell and the connection, each once.
abbrev pub closed_once : List Effect
closed_once = conn_closed ∷ killed ∷ stdin_closed ∷ []

-- A session that is done has closed everything once; one that is not has closed nothing.
abbrev pub IsClosedOnce : Session → Type 0
IsClosedOnce s = closings s.effects ≡ (if s.done then closed_once else [])

after_close : (s : Session) → (close s).done ≡ true
unfolding close
after_close s = ground arith

close_done : (s : Session) → IsClosedOnce s → closings (close s).effects ≡ closed_once
unfolding close closings
close_done s once = elim (Bool-cases s.done) [
  | inl done ↦ rw (close, done) (once ∙ ap (λ b. if b then closed_once else []) done)
  | inr running ↦
      rw (close, running)
        (ap (λ l. conn_closed ∷ killed ∷ stdin_closed ∷ l)
          (once ∙ ap (λ b. if b then closed_once else []) running))
]

close-IsClosedOnce : (s : Session) → IsClosedOnce s → IsClosedOnce (close s)
close-IsClosedOnce s once =
    close_done s once ∙ sym (ap (λ b. if b then closed_once else []) (after_close s))

write_chunk-IsClosedOnce :
    (c : Codec) (r : Reading) (s : Session) → IsClosedOnce s → IsClosedOnce (write_chunk c r s)
unfolding write_chunk closings
write_chunk-IsClosedOnce c r s once =
    if-cases IsClosedOnce (is_empty r.chunk || r.unwritable) s _ (λ _. once) (λ _. once)

receive-IsClosedOnce :
    (m : Option TerminalMessage) (s : Session) → IsClosedOnce s → IsClosedOnce (receive m s)
unfolding receive closings
receive-IsClosedOnce none s once = once
receive-IsClosedOnce (some m) s once =
    if-cases IsClosedOnce (is_input m.type && not (m.content == "")) _ s (λ _. once) (λ _. once)

module _ (c : Codec) where
  input_step-IsClosedOnce :
      (m : Option String) (s : Session) → IsClosedOnce s → IsClosedOnce (input_step c.decode m s)
  unfolding input_step
  input_step-IsClosedOnce none s once = close-IsClosedOnce s once
  input_step-IsClosedOnce (some bytes) s once = receive-IsClosedOnce (c.decode bytes) s once

  take_turn-IsClosedOnce :
      (t : Turn) (io : Io) → IsClosedOnce io.session → IsClosedOnce (take_turn c t io).session
  unfolding take_turn
  take_turn-IsClosedOnce (stdout_turn r) io once =
      if-cases (λ x. IsClosedOnce x.session) io.stdout_runs _ io
        (λ _. write_chunk-IsClosedOnce c r io.session once) (λ _. once)
  take_turn-IsClosedOnce (stderr_turn r) io once =
      if-cases (λ x. IsClosedOnce x.session) io.stderr_runs _ io
        (λ _. write_chunk-IsClosedOnce c r io.session once) (λ _. once)
  take_turn-IsClosedOnce (input_turn m) io once =
      if-cases (λ x. IsClosedOnce x.session) io.input_runs _ io
        (λ _. input_step-IsClosedOnce m io.session once) (λ _. once)

  take_turns-IsClosedOnce :
      (ts : List Turn) (io : Io)
      → IsClosedOnce io.session
      → IsClosedOnce (take_turns c ts io).session
  unfolding take_turns
  take_turns-IsClosedOnce [] io once = once
  take_turns-IsClosedOnce (t ∷ ts) io once =
      take_turns-IsClosedOnce ts (take_turn c t io) (take_turn-IsClosedOnce t io once)

  -- Whatever turns the three loops take, and in whatever order they end, the handler has in the end
  -- closed the shell's input, the shell and the connection once each, though the input loop and the
  -- handler both close the session. A session that cannot be started leaves only the connection to
  -- be closed, which the handler does.
  pub handle_terminal-closings :
      (goos : String) (p : Process) (turns : List Turn)
      → ((s : Session)
          → (new_session goos p).1 ≡ ok s
          → closings (handle_terminal c goos p turns) ≡ closed_once)
        × ((e : String)
            → (new_session goos p).1 ≡ err e
            → handle_terminal c goos p turns ≡ conn_closed ∷ [])
  unfolding handle_terminal handle_io closings
  handle_terminal-closings goos p turns = (
    (λ s e.
        let fresh : IsClosedOnce s =
          subst IsClosedOnce (sym ((new_session-opened goos p).1 s e).1) refl in
        rw (handle_terminal, e)
          (close_done (handle_io c turns s) (take_turns-IsClosedOnce turns (started s) fresh))),
    (λ m e. ground (arith, e)),
  )
