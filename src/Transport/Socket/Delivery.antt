-- ===== src/Transport/Socket/Delivery.antt =====
-- What messages do to a socket, and the credit and the bytes of a socket over time.
use adb_daemon_rs.Base.{
  ℕ, zero, suc, ◌+◌, ◌%◌, ◌≡◌, ◌≢◌, refl, ap, sym, ◌∙◌, ◌⊎◌, inl, inr, List, [], ◌∷◌, ◌++◌,
  append_assoc, append-nil, Bool, true, Bytes, Option, none, some, Result, ok, err, Run, done,
  panicked, arith, nat_eq, ◌==◌, if◌then◌else◌,
}
use adb_daemon_rs.Words.{usize_mod}
use adb_daemon_rs.Transport.Error.{Error}
use adb_daemon_rs.Transport.Message.{AdbMessage, AdbCommand, okay, wrte, clse}
use adb_daemon_rs.Transport.Backend.{State, SocketBackend, Notice, read_waker, write_waker}
use adb_daemon_rs.Transport.Socket.{
  Handled, handle_message, by_command, handle_okay, okay_result, avail_of,
}
use adb_daemon_rs.Transport.Socket.Reading.{buffered}

abbrev pub Wakes : Notice → List Notice → Type 0
Wakes n [] = ⊥
Wakes n (m ∷ ms) = (n ≡ m) ⊎ Wakes n ms

-- The credit, the bytes and the end that a message brings.
abbrev pub next_credit : AdbCommand → Option ℕ → ℕ → ℕ
next_credit okay (some avail) n = (n + avail) % usize_mod
next_credit _ o n = n

abbrev pub granted_by : AdbCommand → Option ℕ → ℕ
granted_by okay (some avail) = avail
granted_by _ o = 0

abbrev pub arrived_by : AdbCommand → Bytes → Bytes
arrived_by wrte payload = payload
arrived_by _ payload = []

-- The first `OKAY`, to a socket whose remote id is still 0, tells the remote id and the initial credit.
abbrev pub next_remote : AdbCommand → Option ℕ → ℕ → ℕ → ℕ
next_remote okay (some avail) zero arg0 = arg0
next_remote _ o remote_id arg0 = remote_id

abbrev pub next_initial : AdbCommand → Option ℕ → ℕ → ℕ → ℕ
next_initial okay (some avail) zero initial = avail
next_initial _ o remote_id initial = initial

-- A `CLSE` closes the socket.
abbrev pub closed_after : AdbCommand → Bool → Bool
closed_after clse is_closed = true
closed_after _ is_closed = is_closed

pub record Delivers (s : SocketBackend) (m : AdbMessage) (h : Handled) : Type 0 where
  -- What a blocked reader looks at changes only when it is woken.
  pub wakes_reader :
      (h.socket.state.read_buffer ≢ s.state.read_buffer)
        ⊎ (h.socket.state.is_closed ≢ s.state.is_closed)
      → Wakes (read_waker s.local_id) h.notices
  -- And so what a blocked writer, flusher or opener looks at.
  pub wakes_writer :
      (h.socket.state.acknowledged ≢ s.state.acknowledged)
        ⊎ (h.socket.state.remote_id ≢ s.state.remote_id)
        ⊎ (h.socket.state.initial_acknowledgment ≢ s.state.initial_acknowledgment)
        ⊎ (h.socket.state.is_closed ≢ s.state.is_closed)
      → Wakes (write_waker s.local_id) h.notices
  pub credit :
      h.socket.state.acknowledged
      ≡ next_credit m.header.command (avail_of m.payload) s.state.acknowledged
  pub remote :
      h.socket.state.remote_id
      ≡ next_remote m.header.command (avail_of m.payload) s.state.remote_id m.header.arg0
  pub initial :
      h.socket.state.initial_acknowledgment
      ≡ next_initial m.header.command
          (avail_of m.payload)
          s.state.remote_id
          s.state.initial_acknowledgment
  pub bytes :
      buffered h.socket.state.read_buffer
      ≡ buffered s.state.read_buffer ++ arrived_by m.header.command m.payload
  pub closed : h.socket.state.is_closed ≡ closed_after m.header.command s.state.is_closed
  pub ends : h.is_closed ≡ h.socket.state.is_closed
  pub local_id : h.socket.local_id ≡ s.local_id

buffered-append : (q : List Bytes) (b : Bytes) → buffered (q ++ b ∷ []) ≡ buffered q ++ b
buffered-append [] b = append-nil b
buffered-append (x ∷ q) b = rw (buffered-append q b, append_assoc)

-- The outcomes that a message may have.
abbrev pub HandleRuns : SocketBackend → AdbMessage → Run (Result Error Handled) → Type 0
HandleRuns s m panicked =
    (m.header.command ≢ okay) × (m.header.command ≢ wrte) × (m.header.command ≢ clse)
HandleRuns s m (done (err e)) = (m.header.command ≡ okay) × (avail_of m.payload ≡ none)
HandleRuns s m (done (ok h)) = Delivers s m h

-- An `OKAY` adds to the credit; the buffer and the end of the socket stay.
handle_okay_lem :
    (s : State) (arg0 avail : ℕ)
    → ((handle_okay s arg0 avail).acknowledged ≡ (s.acknowledged + avail) % usize_mod)
      × ((handle_okay s arg0 avail).read_buffer ≡ s.read_buffer)
      × ((handle_okay s arg0 avail).is_closed ≡ s.is_closed)
unfolding handle_okay
handle_okay_lem s arg0 avail = ground arith

next_remote-if :
    (avail r arg0 : ℕ) → next_remote okay (some avail) r arg0 ≡ (if r == 0 then arg0 else r)
next_remote-if avail zero arg0 = refl
next_remote-if avail (suc r) arg0 = ground arith

next_initial-if :
    (avail r initial : ℕ)
    → next_initial okay (some avail) r initial ≡ (if r == 0 then avail else initial)
next_initial-if avail zero initial = refl
next_initial-if avail (suc r) initial = ground arith

okay_remote :
    (s : State) (arg0 avail : ℕ)
    → (handle_okay s arg0 avail).remote_id ≡ next_remote okay (some avail) s.remote_id arg0
unfolding handle_okay
okay_remote s arg0 avail = ground (arith, next_remote-if avail s.remote_id arg0)

okay_initial :
    (s : State) (arg0 avail : ℕ)
    → (handle_okay s arg0 avail).initial_acknowledgment
      ≡ next_initial okay (some avail) s.remote_id s.initial_acknowledgment
unfolding handle_okay
okay_initial s arg0 avail =
    ground (arith, next_initial-if avail s.remote_id s.initial_acknowledgment)

okay_delivers :
    (s : SocketBackend) (m : AdbMessage) (o : Option ℕ)
    → m.header.command ≡ okay
    → avail_of m.payload ≡ o
    → HandleRuns s m (done (okay_result s m.header.arg0 o))
unfolding okay_result
okay_delivers s m none c e = (c, e)
okay_delivers s m (some avail) c e =
    let (credit, buffer, closed) = handle_okay_lem s.state m.header.arg0 avail in
    record {
      wakes_reader = λ d. absurd (elim d [ inl x ↦ x buffer | inr x ↦ x closed ]);
      wakes_writer = λ d. inl refl;
      credit = credit ∙ rw (c, e);
      remote = rw (c, e) (okay_remote s.state m.header.arg0 avail);
      initial = rw (c, e) (okay_initial s.state m.header.arg0 avail);
      bytes = rw (c) (ap buffered buffer ∙ sym (append-nil _));
      closed = rw (c) closed;
      ends = refl;
      local_id = refl;
    }

by_command_delivers :
    (s : SocketBackend) (m : AdbMessage) (c : AdbCommand)
    → m.header.command ≡ c
    → HandleRuns s m (by_command c s m)
unfolding by_command
by_command_delivers s m okay e = okay_delivers s m (avail_of m.payload) e refl
by_command_delivers s m wrte e = record {
  wakes_reader = λ d. inl refl;
  wakes_writer = λ d. absurd (elim d [
    | inl x ↦ x refl
    | inr (inl x) ↦ x refl
    | inr (inr (inl x)) ↦ x refl
    | inr (inr (inr x)) ↦ x refl
  ]);
  credit = rw e;
  remote = rw e;
  initial = rw e;
  bytes = rw e (buffered-append s.state.read_buffer m.payload);
  closed = rw (e) refl;
  ends = refl;
  local_id = refl;
}
by_command_delivers s m clse e = record {
  wakes_reader = λ d. inr (inl refl);
  wakes_writer = λ d. inl refl;
  credit = rw e;
  remote = rw e;
  initial = rw e;
  bytes = rw e (sym (append-nil _));
  closed = rw (e) refl;
  ends = refl;
  local_id = refl;
}
by_command_delivers s m _ e = ((λ h. cc), (λ h. cc), (λ h. cc))

-- Only the commands `OKAY`, `WRTE` and `CLSE` are handled, the others reach the `unreachable!`; an
-- `OKAY` whose payload is not four bytes is an error. Otherwise whatever a blocked reader looks at
-- changes only with a wake-up of the reader, and whatever a blocked writer, flush or opening looks at
-- only with a wake-up of the writer. An `OKAY` adds its credit, and to a socket whose remote id is still
-- 0 it gives the remote id and the initial credit, which no message changes otherwise; a `WRTE` puts its
-- payload behind the buffered bytes, no other message does; a `CLSE` closes the socket, no other message
-- does; and the socket is reported closed exactly if it is.
pub handle_message_delivers :
    (s : SocketBackend) (m : AdbMessage) → HandleRuns s m (handle_message s m)
unfolding handle_message
handle_message_delivers s m = by_command_delivers s m m.header.command refl
