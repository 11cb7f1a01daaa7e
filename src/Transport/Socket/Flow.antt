-- ===== src/Transport/Socket/Flow.antt =====
-- The life of a socket as a sequence of steps: flow control and the order of bytes.
use adb_daemon_rs.Base.{
  ℕ, ◌+◌, ◌≤◌, ◌<◌, ◌≡◌, refl, ap, ◌⊎◌, inl, inr, [], ◌++◌, append_assoc, Bytes, Option, none, some,
  Result, Poll, pending, ready, ◌≢◌, err, ok, done, arith, Bool, subst,
}
use adb_daemon_rs.Words.{usize_mod}
use adb_daemon_rs.Transport.Message.{AdbMessage, AdbCommand, okay}
use adb_daemon_rs.Transport.Connection.{Connection}
use adb_daemon_rs.Transport.Backend.{SocketBackend, Backend}
use adb_daemon_rs.Transport.Socket.{
  Handled, handle_message, avail_of, IoError, Outcome, poll_read, poll_write, poll_close,
  new_socket,
}
use adb_daemon_rs.Transport.Socket.Reading.{buffered, Reads, ReadRuns, poll_read_runs}
use adb_daemon_rs.Transport.Socket.Writing.{Writes, sends, refuses, WriteRuns, poll_write_runs}
use adb_daemon_rs.Transport.Socket.Closing.{poll_close_socket, close_socket}
use adb_daemon_rs.Transport.Socket.Delivery.{
  Delivers, HandleRuns, next_credit, granted_by, arrived_by, handle_message_delivers,
}

-- What has passed through the socket so far.
pub record Trace : Type 0 where
  -- The credit that the device gave, and the bytes that writes reported as sent.
  pub granted : ℕ
  pub used : ℕ
  -- The bytes that the device sent, and those that the reader was given.
  pub arrived : Bytes
  pub delivered : Bytes

-- The bytes that a write reports as sent.
abbrev pub reported {ℓ} : {E : Type ℓ} → Poll (Result E ℕ) → ℕ
reported pending = 0
reported (ready (err e)) = 0
reported (ready (ok n)) = n

module _ (K : Connection) where
  -- One call, at whatever state the transport is then.
  pub data Step (s : SocketBackend) (tr : Trace) (s' : SocketBackend) (tr' : Trace) : Type 0 where
    message :
        (m : AdbMessage) (h : Handled)
        → handle_message s m ≡ done (ok h)
        → s' ≡ h.socket
        → tr' ≡ record tr {
          granted = tr.granted + granted_by m.header.command (avail_of m.payload);
          arrived = tr.arrived ++ arrived_by m.header.command m.payload;
        }
        → Step s tr s' tr'
    reads :
        (t : Backend K) (room waker : ℕ) (bytes : Bytes) (o : Outcome K (Unit {0}))
        → poll_read K t s room waker ≡ done (bytes, o)
        → s' ≡ o.socket
        → tr' ≡ record tr { delivered = tr.delivered ++ bytes }
        → Step s tr s' tr'
    writes :
        (t : Backend K) (buf : Bytes) (tick : Bool) (waker : ℕ) (o : Outcome K ℕ)
        → poll_write K t s buf tick waker ≡ done o
        → s' ≡ o.socket
        → tr' ≡ record tr { used = tr.used + reported o.result }
        → Step s tr s' tr'
    closes :
        (t : Backend K) (waker : ℕ) (o : Outcome K (Unit {0}))
        → poll_close K t s waker ≡ done o
        → s' ≡ o.socket
        → tr' ≡ tr
        → Step s tr s' tr'

  pub data Reach (s : SocketBackend) (tr : Trace) : SocketBackend → Trace → Type 0 where
    here : Reach s tr s tr
    next :
        {s' s'' : SocketBackend} {tr' tr'' : Trace}
        → Reach s tr s' tr'
        → Step s' tr' s'' tr''
        → Reach s tr s'' tr''

  pub record IsSound (s : SocketBackend) (tr : Trace) : Type 0 where
    -- As long as the credit fits a `usize`, what was sent and what is left is not more than was granted.
    pub credit : tr.granted < usize_mod → s.state.acknowledged + tr.used ≤ tr.granted
    -- The reader gets the bytes of the device in order, none lost and none twice.
    pub stream : tr.delivered ++ buffered s.state.read_buffer ≡ tr.arrived

  step_credit :
      (c : AdbCommand) (o : Option ℕ) (n used granted : ℕ)
      → (granted < usize_mod → n + used ≤ granted)
      → granted + granted_by c o < usize_mod
      → next_credit c o n + used ≤ granted + granted_by c o
  step_credit okay (some avail) n used granted h fits = omega arith
  step_credit okay none n used granted h fits = omega arith
  step_credit _ o n used granted h fits = omega arith

  reported_none : (p : Poll (Result IoError ℕ)) → ((n : ℕ) → p ≢ ready (ok n)) → reported p ≡ 0
  reported_none pending h = refl
  reported_none (ready (err e)) h = refl
  reported_none (ready (ok n)) h = absurd (h n refl)

  write_effect :
      (s : SocketBackend) (buf : Bytes) (o : Outcome K ℕ)
      → Writes K s buf o
      → (o.socket.state.acknowledged + reported o.result ≤ s.state.acknowledged)
        × (o.socket.state.read_buffer ≡ s.state.read_buffer)
  write_effect s buf o (sends t r c a e (inl (_, h)) es) = rw (es, h) (omega arith, refl)
  write_effect s buf o (sends t r c a e (inr (x, _, h)) es) = rw (es, h) (omega arith, refl)
  write_effect s buf o (refuses h es) = rw (es, reported_none o.result h) (omega arith, refl)

  closed-IsSound :
      (s s' : SocketBackend) (tr : Trace)
      → (s' ≡ s) ⊎ (s' ≡ close_socket s)
      → IsSound s tr
      → IsSound s' tr
  closed-IsSound s s' tr (inl e) v = rw e v
  closed-IsSound s s' tr (inr e) v = rw e (record { credit = v.credit; stream = v.stream })

  pub Step-IsSound :
      {s s' : SocketBackend} {tr tr' : Trace} → Step s tr s' tr' → IsSound s tr → IsSound s' tr'
  Step-IsSound {s} {s'} {tr} {tr'} (message m h e es et) v =
      let d : Delivers s m h = subst (HandleRuns s m) e (handle_message_delivers s m) in
      rw (es, et)
        (record {
          credit = λ fits. rw d.credit (
              step_credit m.header.command (avail_of m.payload) s.state.acknowledged tr.used
                tr.granted v.credit fits);
          stream = rw (d.bytes, ← append_assoc, v.stream);
        })
  Step-IsSound {s} {s'} {tr} {tr'} (reads t room waker bytes o e es et) v =
      let d : Reads K s room bytes o =
        subst (ReadRuns K s room) e (poll_read_runs K t s room waker) in
      let same = ap (λ (b : SocketBackend). b.state.acknowledged) d.others in
      rw (es, et)
        (record {
          credit = λ fits. rw same (v.credit fits);
          stream = rw (append_assoc, d.stream, v.stream);
        })
  Step-IsSound {s} {s'} {tr} {tr'} (writes t buf tick waker o e es et) v =
      let d : Writes K s buf o =
        subst (WriteRuns K s buf) e (poll_write_runs K t s buf tick waker) in
      let (less, same) = write_effect s buf o d in
      rw (es, et)
        (record { credit = λ fits. omega (arith, v.credit fits); stream = rw same v.stream })
  Step-IsSound {s} {s'} {tr} {tr'} (closes t waker o e es et) v =
      rw (es, et) (closed-IsSound s o.socket tr (poll_close_socket K t s waker o e) v)

  -- Every sequence of calls keeps a socket sound.
  pub Reach-IsSound :
      {s : SocketBackend} {tr : Trace} {s' : SocketBackend} {tr' : Trace}
      → Reach s tr s' tr'
      → IsSound s tr
      → IsSound s' tr'
  Reach-IsSound here v = v
  Reach-IsSound (next r st) v = Step-IsSound st (Reach-IsSound r v)

  abbrev pub start : ℕ → Trace
  start granted = record { granted = granted; used = 0; arrived = []; delivered = [] }

  pub new_socket-IsSound :
      (local_id remote_id granted : ℕ)
      → IsSound (new_socket local_id remote_id granted) (start granted)
  new_socket-IsSound local_id remote_id granted = record {
    credit = λ _. omega arith;
    stream = refl;
  }
