-- ===== src/Terminal/Opening.antt =====
-- What the start of a terminal session leaves open (pkg/terminal/session.go).
use crybaby.Base.{◌≡◌, String, List, [], ◌∷◌, Option, none, some, arith, false}
use crybaby.Base.Result.{ok, err}
use crybaby.Terminal.{
  Pipe, stdin_pipe, stdout_pipe, stderr_pipe, Process, Session, shell_of, new_session,
}

-- The pipes that were opened: those before the first that fails.
unfoldable pub opened : List (Option String × Pipe) → List Pipe
opened [] = []
opened ((e, p) ∷ ps) = let rest = opened ps in elim e [ none ↦ p ∷ rest | some _ ↦ [] ]

abbrev pub pipes : Process → List (Option String × Pipe)
pipes p =
    (p.stdin_error, stdin_pipe) ∷ (p.stdout_error, stdout_pipe) ∷ (p.stderr_error, stderr_pipe) ∷ []

-- A session that cannot be started closes exactly the pipes that it has opened, in the order in
-- which it opened them; one that can closes none, runs the operating system's shell, and begins
-- neither done nor with anything written.
pub new_session-opened :
    (goos : String) (p : Process)
    → ((e : String) → (new_session goos p).1 ≡ err e → (new_session goos p).0 ≡ opened (pipes p))
      × ((s : Session)
          → (new_session goos p).1 ≡ ok s
          → ((new_session goos p).0 ≡ [])
            × (s ≡ record { command = shell_of goos; done = false; effects = [] })
            × (opened (pipes p) ≡ stdin_pipe ∷ stdout_pipe ∷ stderr_pipe ∷ [])
            × (p.start_error ≡ none))
unfolding new_session opened
new_session-opened goos p = ground arith
