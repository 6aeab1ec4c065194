-- ===== src/Terminal/Streams.antt =====
-- The loops of a terminal session carry what they read in order (pkg/terminal/session.go).
use crybaby.Base.{
  ℕ, ◌≡◌, refl, ◌∙◌, ap, sym, String, Bool, true, false, not, ◌&&◌, List, [], ◌∷◌, Option, none,
  some, Bool-cases, if-cases, inl, inr, arith, ◌==◌, ==_eq, text_eq, if◌then◌else◌, All,
}
use crybaby.Base.Text.{◌<>◌}
use text.Mathlib.TextLemmas.{append-nil, nil-append}
use text.Mathlib.TextLemmas
use crybaby.Types.Cluster.{TerminalMessage}
use crybaby.Terminal.{
  Effect, sent, typed, stdin_closed, killed, conn_closed, Session, close, is_input, receive,
  write_chunk, goes_on, input_loop, Codec, Reading, stream_pipe,
}

-- The text that a log has sent, and that it has typed.
unfoldable pub sent_text : List Effect → String
sent_text [] = ""
sent_text (sent m ∷ es) = sent_text es <> m.content
sent_text (typed t ∷ es) = sent_text es
sent_text (stdin_closed ∷ es) = sent_text es
sent_text (killed ∷ es) = sent_text es
sent_text (conn_closed ∷ es) = sent_text es

unfoldable pub typed_text : List Effect → String
typed_text [] = ""
typed_text (sent m ∷ es) = typed_text es
typed_text (typed t ∷ es) = typed_text es <> t
typed_text (stdin_closed ∷ es) = typed_text es
typed_text (killed ∷ es) = typed_text es
typed_text (conn_closed ∷ es) = typed_text es

-- The text of the bytes that a read gives.
unfoldable pub shown : Codec → List ℕ → String
shown c [] = ""
shown c (b ∷ bs) = c.text (b ∷ bs)

-- The texts of the reads of a pipe up to the first that returns an error.
unfoldable pub printed : Codec → List Reading → String
unfolding shown
printed c [] = ""
printed c (r ∷ rs) =
    let rest = printed c rs in if r.ended then shown c r.chunk else shown c r.chunk <> rest

-- The bytes that the messages before the first error of the connection are to type.
unfoldable pub entered : (String → Option TerminalMessage) → List (Option String) → String
entered decode [] = ""
entered decode (none ∷ _) = ""
entered decode (some bytes ∷ rest) =
    let after = entered decode rest in
    elim (decode bytes) [
      | none ↦ after
      | some m ↦ if is_input m.type then m.content <> after else after
    ]

-- The connection has returned an error.
unfoldable pub any_lost : List (Option String) → Bool
any_lost [] = false
any_lost (none ∷ rest) = true
any_lost (some bytes ∷ rest) = any_lost rest

abbrev pub IsWritable : Reading → Type 0
IsWritable r = r.unwritable ≡ false

write_some :
    (c : Codec) (bytes : List ℕ) (ended unwritable : Bool) (s : Session)
    → unwritable ≡ false
    → sent_text
        (write_chunk c (record { chunk = bytes; ended = ended; unwritable = unwritable }) s).effects
      ≡ sent_text s.effects <> shown c bytes
unfolding write_chunk sent_text shown
write_some c [] ended unwritable s w = sym (append-nil (sent_text s.effects))
write_some c (b ∷ bs) ended unwritable s w = rw w refl

write_chunk_lem :
    (c : Codec) (r : Reading) (s : Session)
    → IsWritable r
    → sent_text (write_chunk c r s).effects ≡ sent_text s.effects <> shown c r.chunk
write_chunk_lem c r s w = write_some c r.chunk r.ended r.unwritable s w

goes_on_ended : (r : Reading) → r.ended ≡ true → goes_on r ≡ false
unfolding goes_on
goes_on_ended r e = ground (arith, e)

goes_on_running : (r : Reading) → r.ended ≡ false → IsWritable r → goes_on r ≡ true
unfolding goes_on
goes_on_running r e w = ground (arith, e, w)

-- While the connection can be written, what a pipe's loop has sent in the end is what it had sent,
-- and then the text of the bytes of each read up to the first error, no read left out, doubled or
-- out of order; also what comes with the error is sent. The text is that of each read by itself, so
-- a character that two reads share is not put together.
pub stream_pipe_lem :
    (c : Codec) (rs : List Reading) (s : Session)
    → All IsWritable rs
    → sent_text (stream_pipe c rs s).effects ≡ sent_text s.effects <> printed c rs
unfolding stream_pipe printed
stream_pipe_lem c [] s w = sym (append-nil (sent_text s.effects))
stream_pipe_lem c (r ∷ rs) s w = elim (Bool-cases r.ended) [
  | inl ended ↦ rw (goes_on_ended r ended, ended) (write_chunk_lem c r s w.0)
  | inr running ↦
      rw (goes_on_running r running w.0, running)
        (stream_pipe_lem c rs (write_chunk c r s) w.1
          ∙ (ap (λ t. t <> printed c rs) (write_chunk_lem c r s w.0)
              ∙ TextLemmas.append_assoc (sent_text s.effects) (shown c r.chunk) (printed c rs)))
]

receive_lem :
    (m : Option TerminalMessage) (s : Session) (rest : String)
    → typed_text (receive m s).effects <> rest
      ≡ typed_text s.effects
        <> elim m [ none ↦ rest | some t ↦ if is_input t.type then t.content <> rest else rest ]
unfolding receive typed_text
receive_lem none s rest = refl
receive_lem (some t) s rest = elim (Bool-cases (is_input t.type)) [
  | inr other ↦ rw other refl
  | inl typing ↦ elim (Bool-cases (t.content == "")) [
    | inr full ↦ rw (typing, full) (TextLemmas.append_assoc (typed_text s.effects) t.content rest)
    | inl empty ↦
        rw (typing, empty)
          (ap (λ z. typed_text s.effects <> z)
            (sym (nil-append rest) ∙ ap (λ z. z <> rest) (sym (==_eq t.content "" empty))))
  ]
]

receive-done : (m : Option TerminalMessage) (s : Session) → (receive m s).done ≡ s.done
unfolding receive
receive-done none s = refl
receive-done (some t) s =
    if-cases (λ r. r.done ≡ s.done) (is_input t.type && not (t.content == "")) _ s (λ _. refl)
      (λ _. refl)

-- The shell is typed the texts of the input messages, in their order and up to the connection's
-- first error; then the session is closed, and only then.
pub input_loop_lem :
    (decode : String → Option TerminalMessage) (ms : List (Option String)) (s : Session)
    → s.done ≡ false
    → let t = input_loop decode ms s in
      (typed_text t.effects ≡ typed_text s.effects <> entered decode ms) × (t.done ≡ any_lost ms)
unfolding input_loop entered any_lost close typed_text
input_loop_lem decode [] s running = (sym (append-nil (typed_text s.effects)), running)
input_loop_lem decode (none ∷ rest) s running =
    (rw (close, running) (sym (append-nil (typed_text s.effects))), rw (close, running) refl)
input_loop_lem decode (some bytes ∷ rest) s running =
    let later =
      input_loop_lem decode rest (receive (decode bytes) s)
        (receive-done (decode bytes) s ∙ running) in
    (later.0 ∙ receive_lem (decode bytes) s (entered decode rest), later.1)
