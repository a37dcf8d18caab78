-- ===== src/Net/Connection/Outgoing.antt =====
-- The queue of outgoing messages: order, and one write at a time.
use otx.Prelude.{
  ◌≡◌, refl, sym, ap, ◌∙◌, ◌≢◌, inl, inr, Bool, true, false, List, [], ◌∷◌, ◌++◌, append-nil,
  append_assoc, arith, if◌then◌else◌, Bool-cases, if-both, if-cases,
}
use otx.Net.Output.{Output}
use otx.Net.Connection.{
  is_disconnected, is_empty, close, send, rest, next_write, on_write_operation, handle_timeout,
  Connection, Request, read_header, read_body, write, nothing, fault,
}

-- What happens to the queue: a message to send, the end of the current write, a polite close.
pub data Event : Type 0 where
  sends : Output → Event
  written closes : Event

abbrev pub handle : Event → Connection → Connection × Request
handle (sends o) c = send o c
handle written c = on_write_operation false c
handle closes c = (close false c, nothing)

-- The messages that a request puts on the socket.
abbrev pub put : Request → List Output
put (write o) = o ∷ []
put (read_header n) = []
put (read_body n) = []
put nothing = []
put fault = []

pub record Run : Type 0 where
  pub last : Connection
  pub on_socket : List Output

-- The connection after the events, with all that was put on the socket, in order.
abbrev pub run : List Event → Connection → Run
run [] c = record { last = c; on_socket = [] }
run (e ∷ es) c =
    let (c', r) = handle e c in
    let rest = run es c' in record { last = rest.last; on_socket = put r ++ rest.on_socket }

-- The messages that a live connection was given, in order.
abbrev pub accepted : List Event → Connection → List Output
accepted [] c = []
accepted (sends o ∷ es) c =
    if is_disconnected c.state
    then accepted es (handle (sends o) c).0
    else o ∷ accepted es (handle (sends o) c).0
accepted (written ∷ es) c = accepted es (handle written c).0
accepted (closes ∷ es) c = accepted es (handle closes c).0

rest-append : (o : Output) (q : List Output) → q ≢ [] → rest (q ++ o ∷ []) ≡ rest q ++ o ∷ []
rest-append o [] h = absurd (h refl)
rest-append o (x ∷ q) h = refl

-- What one event adds to the accepted messages.
abbrev added : Event → Connection → List Output
added (sends o) c = if is_disconnected c.state then [] else o ∷ []
added written c = []
added closes c = []

accepted-cons :
    (e : Event) (es : List Event) (c : Connection)
    → accepted (e ∷ es) c ≡ added e c ++ accepted es (handle e c).0
accepted-cons (sends o) es c =
    if-cases (λ (l : List Output). l ≡ added (sends o) c ++ accepted es (handle (sends o) c).0)
      (is_disconnected c.state) _ _ (λ h. rw h refl) (λ h. rw h refl)
accepted-cons written es c = refl
accepted-cons closes es c = refl

next_write_queue :
    (q : List Output) (c : Connection)
    → put (next_write (rest q) c).1 ++ rest (next_write (rest q) c).0.queue ≡ rest q
next_write_queue [] c =
    if-both (λ (r : Connection × Request). put r.1 ++ rest r.0.queue ≡ []) (is_disconnected c.state)
      _ _ refl refl
next_write_queue (x ∷ []) c =
    if-both (λ (r : Connection × Request). put r.1 ++ rest r.0.queue ≡ []) (is_disconnected c.state)
      _ _ refl refl
next_write_queue (x ∷ o ∷ q) c = refl

send_queue :
    (q : List Output) (o : Output)
    → put (if is_empty q then write o else nothing) ++ rest (q ++ o ∷ []) ≡ rest q ++ o ∷ []
send_queue [] o = refl
send_queue (x ∷ q) o = refl

handle_queue :
    (e : Event) (c : Connection)
    → put (handle e c).1 ++ rest (handle e c).0.queue ≡ rest c.queue ++ added e c
unfolding send on_write_operation close
handle_queue (sends o) c = elim (Bool-cases (is_disconnected c.state)) [
  | inl dead ↦ rw dead (sym (append-nil (rest c.queue)))
  | inr live ↦ rw live (send_queue c.queue o)
]
handle_queue written c = next_write_queue c.queue c ∙ sym (append-nil (rest c.queue))
handle_queue closes c = sym (append-nil (rest c.queue))

-- The messages put on the socket and those still waiting behind the current one are, in order, those
-- that waited at first and those that were accepted since: for any sequence of messages to send,
-- ends of writes without an error, and polite closes, no message is lost, sent twice or overtaken,
-- also while a closed connection still drains its queue.
pub run_queue :
    (es : List Event) (c : Connection)
    → (run es c).on_socket ++ rest (run es c).last.queue ≡ rest c.queue ++ accepted es c
run_queue [] c = sym (append-nil (rest c.queue))
run_queue (e ∷ es) c =
    let c' = (handle e c).0 in
    append_assoc (put (handle e c).1) (run es c').on_socket (rest (run es c').last.queue)
    ∙ ap (◌++◌ (put (handle e c).1)) (run_queue es c')
    ∙ sym (append_assoc (put (handle e c).1) (rest c'.queue) (accepted es c'))
    ∙ ap (λ l. l ++ accepted es c') (handle_queue e c)
    ∙ append_assoc (rest c.queue) (added e c) (accepted es c')
    ∙ ap (◌++◌ (rest c.queue)) (sym (accepted-cons e es c))

-- A connection that was closed has an open socket only as long as messages wait.
abbrev pub ClosesDrained : Connection → Type 0
ClosesDrained c = is_disconnected c.state ≡ true → c.queue ≡ [] → c.socket_open ≡ false

next_write-ClosesDrained : (q : List Output) (c : Connection) → ClosesDrained (next_write q c).0
next_write-ClosesDrained [] c = ground arith
next_write-ClosesDrained (o ∷ q) c = λ h e. cc

-- Whatever is sent, written, failed to be written or timed out, a closed connection whose queue has
-- run empty has closed its socket: the close that waits for the queue does happen.
pub close-ClosesDrained :
    (force error : Bool) (o : Output) (c : Connection)
    → ClosesDrained c
    → ClosesDrained (close force c)
      × ClosesDrained (send o c).0
      × ClosesDrained (on_write_operation error c).0
      × ClosesDrained (handle_timeout c)
unfolding close send on_write_operation handle_timeout
close-ClosesDrained force error o c h = (
  λ dead e. ground arith,
  λ dead e. ground (arith, h),
  λ dead e. ground (arith, next_write-ClosesDrained (rest c.queue) c),
  λ dead e. ground arith,
)
