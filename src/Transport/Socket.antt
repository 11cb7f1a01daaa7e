-- ===== src/Transport/Socket.antt =====
-- packages/transport/src/socket.rs. A function takes the transport and the socket's backend, both
-- locked, and returns them; tasks interleave between such functions only.
pub mod Reading
pub mod Writing
pub mod Delivery
pub mod Flow
pub mod Closing
pub mod Race
pub mod Keeping
use adb_daemon_rs.Base.{
  ℕ, zero, suc, ◌+◌, ◌-◌, ◌/◌, ◌%◌, min, List, [], ◌∷◌, ◌++◌, Bool, true, false, Bytes, length,
  take, drop, Option, none, some, Result, ok, err, Poll, pending, ready, Run, done, panicked, ltb,
  leb, if◌then◌else◌, ◌==◌, nat_eq, map_err, not, ◌&&◌, ◌||◌,
}
use adb_daemon_rs.Words.{u32_mod, usize_mod, to_le_bytes, of_le_bytes}
use adb_daemon_rs.Text.{codes}
use adb_daemon_rs.Transport.Error.{
  Error, of_kind, new, closed, other, msg, text, caused_by, transport_error,
}
use adb_daemon_rs.Transport.Message.{AdbMessage, AdbCommand, okay, wrte, clse, new_message}
use adb_daemon_rs.Transport.Connection.{Connection}
use adb_daemon_rs.Transport.Backend.{
  State, SocketBackend, TransportBackend, Backend, Notice, read_waker, write_waker, max_payload,
  check_error, write_message, poll_flush,
}

-- `io::Error` of kind `BrokenPipe` around an error of this crate.
pub data IoError : Type 0 where
  io_error : Error → IoError

-- `check_transport_error`, before the rest of a call.
abbrev pub unless_failed : {A : Type 0} → Option Error → (Error → A) → A → A
unless_failed none fail go = go
unless_failed (some e) fail go = fail (of_kind (transport_error e))

-- `Socket::new`: the state of a socket.
abbrev pub new_socket : ℕ → ℕ → ℕ → SocketBackend
new_socket local_id remote_id acknowledged = record {
  local_id = local_id;
  state = record {
    remote_id = remote_id;
    is_closed = false;
    read_buffer = [];
    initial_acknowledgment = acknowledged;
    acknowledged = acknowledged;
  };
}

-- An `OKAY` with `avail` more bytes to send. The first one also opens the socket.
unfoldable pub handle_okay : State → ℕ → ℕ → State
handle_okay s arg0 avail =
    let opened =
      if s.remote_id == 0
      then record s { initial_acknowledgment = avail; remote_id = arg0 }
      else s in
    record opened { acknowledged = (opened.acknowledged + avail) % usize_mod }

-- `u32::from_le_bytes(payload.try_into()?)` takes four bytes and no other number.
unfoldable pub avail_of : Bytes → Option ℕ
unfolding of_le_bytes
avail_of (a ∷ b ∷ c ∷ d ∷ []) = some (of_le_bytes a b c d)
avail_of _ = none

-- What a message does to a socket: the state, the wakers that are notified, and whether the socket
-- is closed.
pub record Handled : Type 0 where
  pub socket : SocketBackend
  pub notices : List Notice
  pub is_closed : Bool

okay_result : SocketBackend → ℕ → Option ℕ → Result Error Handled
unfolding handle_okay
okay_result s arg0 none = err (new other (text (codes "no avail in OKAY")))
okay_result s arg0 (some avail) =
    let state = handle_okay s.state arg0 avail in
    ok (record {
      socket = record s { state = state };
      notices = write_waker s.local_id ∷ [];
      is_closed = state.is_closed;
    })

by_command : AdbCommand → SocketBackend → AdbMessage → Run (Result Error Handled)
unfolding okay_result avail_of
by_command okay s m = done (okay_result s m.header.arg0 (avail_of m.payload))
by_command wrte s m =
    let state = record s.state { read_buffer = s.state.read_buffer ++ m.payload ∷ [] } in
    done (
      ok (record {
        socket = record s { state = state };
        notices = read_waker s.local_id ∷ [];
        is_closed = state.is_closed;
      }))
by_command clse s m = done (
    ok (record {
      socket = record s { state = record s.state { is_closed = true } };
      notices = write_waker s.local_id ∷ read_waker s.local_id ∷ [];
      is_closed = true;
    }))
by_command _ s m = panicked

-- `SocketBackend::handle_message`. The last case is the `unreachable!`.
unfoldable pub handle_message : SocketBackend → AdbMessage → Run (Result Error Handled)
unfolding by_command
handle_message s m = by_command m.header.command s m

-- The loop of `poll_read`: the bytes that fit into `room`, and the cursors that are left. A cursor
-- that still holds bytes has filled the buffer, so the loop ends there.
unfoldable pub fill : ℕ → List Bytes → Bytes × List Bytes
fill room [] = ([], [])
fill zero (front ∷ queue) = ([], front ∷ queue)
fill (suc room) (front ∷ queue) =
    let taken = take (suc room) front in
    let (more, left) = fill (suc room - length front) queue in
    if ltb (suc room) (length front)
    then (taken, drop (suc room) front ∷ queue)
    else (taken ++ more, left)

-- A write waits while there is no credit; with little credit it also waits for the throttle.
abbrev pub is_blocked : SocketBackend → Bool → Bool
is_blocked s tick =
    s.state.acknowledged == 0
    || leb s.state.acknowledged (s.state.initial_acknowledgment / 2) && not tick

module _ (K : Connection) where
  -- The outcome of a call that holds both locks.
  pub record Outcome (A : Type 0) : Type 0 where
    pub result : Poll (Result IoError A)
    pub transport : Backend K
    pub socket : SocketBackend

  abbrev io : Error → IoError
  io e = io_error e

  -- `SocketBackend::shutdown`: a `CLSE` for a socket that was open, on a transport with no error.
  unfoldable pub shutdown : Backend K → SocketBackend → Option AdbMessage × SocketBackend
  shutdown t s =
      unless_failed t.error (λ _. (none, s))
        (if s.state.is_closed then (none, s) else (
          some (new_message clse s.local_id s.state.remote_id []),
          record s { state = record s.state { is_closed = true } },
        ))

  -- The end of `poll_read`: what was put into the caller's buffer comes back in any case.
  read_ack :
      Bytes
      → SocketBackend
      → Run (Result Error (Unit {0}) × Backend K)
      → Run (Bytes × Outcome (Unit {0}))
  read_ack bytes s panicked = panicked
  read_ack bytes s (done (r, t)) =
      done (bytes, record { result = ready (map_err io_error r); transport = t; socket = s })

  read_flushed :
      SocketBackend
      → ℕ
      → Poll (Result Error (Unit {0})) × Backend K
      → Run (Bytes × Outcome (Unit {0}))
  unfolding read_ack fill write_message
  read_flushed s room (pending, t) =
      done ([], record { result = pending; transport = t; socket = s })
  read_flushed s room (ready (err e), t) =
      done ([], record { result = ready (err (io_error e)); transport = t; socket = s })
  read_flushed s room (ready (ok _), t) =
      let (bytes, left) = fill room s.state.read_buffer in
      let s' = record s { state = record s.state { read_buffer = left } } in
      let ack =
        new_message okay s.local_id s.state.remote_id (to_le_bytes (length bytes % u32_mod)) in
      if s.state.is_closed
      then done (bytes, record { result = ready (ok tt); transport = t; socket = s' })
      else if length bytes == 0
      then done (bytes, record { result = pending; transport = t; socket = s' })
      else read_ack bytes s' (write_message K t ack)

  -- `poll_read` into a buffer with `room` bytes left.
  unfoldable pub poll_read : Backend K → SocketBackend → ℕ → ℕ → Run (Bytes × Outcome (Unit {0}))
  unfolding read_flushed poll_flush
  poll_read t s room waker =
      unless_failed t.error
        (λ e. done ([], record { result = ready (err (io_error e)); transport = t; socket = s }))
        (read_flushed s room (poll_flush K t waker))

  write_end : ℕ → SocketBackend → Run (Result Error (Unit {0}) × Backend K) → Run (Outcome ℕ)
  write_end n s panicked = panicked
  write_end n s (done (err e, t)) =
      done (record { result = ready (err (io_error e)); transport = t; socket = s })
  write_end n s (done (ok _, t)) =
      done (record { result = ready (ok n); transport = t; socket = s })

  -- `strict_sub` panics below zero.
  write_flushed :
      SocketBackend → Bytes → Bool → Poll (Result Error (Unit {0})) × Backend K → Run (Outcome ℕ)
  unfolding write_end write_message
  write_flushed s buf tick (pending, t) =
      done (record { result = pending; transport = t; socket = s })
  write_flushed s buf tick (ready (err e), t) =
      done (record { result = ready (err (io_error e)); transport = t; socket = s })
  write_flushed s buf tick (ready (ok _), t) =
      let len = min (min (length buf) s.state.acknowledged) max_payload in
      let s' = record s { state = record s.state { acknowledged = s.state.acknowledged - len } } in
      let m = new_message wrte s.local_id s.state.remote_id (take len buf) in
      if is_blocked s tick
      then done (record { result = pending; transport = t; socket = s })
      else if ltb s.state.acknowledged len
      then panicked
      else write_end len s' (write_message K t m)

  -- `poll_write`. `tick` says that `write_throttle.poll_tick` is ready.
  unfoldable pub poll_write : Backend K → SocketBackend → Bytes → Bool → ℕ → Run (Outcome ℕ)
  unfolding write_flushed poll_flush
  poll_write t s buf tick waker =
      unless_failed t.error
        (λ e. done (record { result = ready (err (io_error e)); transport = t; socket = s }))
        (if s.state.is_closed
          then done (record {
            result = ready (err (io_error (of_kind closed)));
            transport = t;
            socket = s;
          })
          else write_flushed s buf tick (poll_flush K t waker))

  flush_end : SocketBackend → Poll (Result Error (Unit {0})) × Backend K → Outcome (Unit {0})
  flush_end s (pending, t) = record { result = pending; transport = t; socket = s }
  flush_end s (ready (err e), t) = record {
    result = ready (err (io_error e));
    transport = t;
    socket = s;
  }
  flush_end s (ready (ok _), t) = record {
    result =
        if s.state.acknowledged == s.state.initial_acknowledgment
        then ready (ok tt)
        else if s.state.is_closed
        then ready (err (io_error (new (msg (codes "flush")) (caused_by (of_kind closed)))))
        else pending;
    transport = t;
    socket = s;
  }

  -- `poll_flush` of a socket: the device has acknowledged all that was written.
  unfoldable pub poll_flush_socket : Backend K → SocketBackend → ℕ → Outcome (Unit {0})
  unfolding flush_end poll_flush
  poll_flush_socket t s waker =
      unless_failed t.error
        (λ e. record { result = ready (err (io_error e)); transport = t; socket = s })
        (flush_end s (poll_flush K t waker))

  close_flushed : SocketBackend → Poll (Result Error (Unit {0})) × Backend K → Outcome (Unit {0})
  close_flushed s (pending, t) = record { result = pending; transport = t; socket = s }
  close_flushed s (ready r, t) = record {
    result = ready (map_err io_error r);
    transport = t;
    socket = s;
  }

  close_written :
      SocketBackend → ℕ → Run (Result Error (Unit {0}) × Backend K) → Run (Outcome (Unit {0}))
  unfolding close_flushed poll_flush
  close_written s waker panicked = panicked
  close_written s waker (done (err e, t)) =
      done (record { result = ready (err (io_error e)); transport = t; socket = s })
  close_written s waker (done (ok _, t)) = done (close_flushed s (poll_flush K t waker))

  close_message : Backend K → ℕ → Option AdbMessage × SocketBackend → Run (Outcome (Unit {0}))
  unfolding close_written write_message
  close_message t waker (none, s) =
      done (record { result = ready (ok tt); transport = t; socket = s })
  close_message t waker (some m, s) = close_written s waker (write_message K t m)

  -- The part of `poll_shutdown` behind its flush, which locks the connection again.
  unfoldable pub poll_close : Backend K → SocketBackend → ℕ → Run (Outcome (Unit {0}))
  unfolding close_message shutdown
  poll_close t s waker = close_message t waker (shutdown t s)

  shutdown_flushed :
      (Backend K → SocketBackend → Backend K × SocketBackend)
      → ℕ
      → Poll (Result IoError (Unit {0}))
      → Outcome (Unit {0})
      → Run (Outcome (Unit {0}))
  unfolding poll_close
  shutdown_flushed between waker pending o = done o
  shutdown_flushed between waker (ready (err e)) o = done o
  shutdown_flushed between waker (ready (ok _)) o =
      let (t, s) = between o.transport o.socket in poll_close t s waker

  -- `poll_shutdown`. The locks are free between its two parts: `between` is what other tasks do there.
  unfoldable pub poll_shutdown :
      (Backend K → SocketBackend → Backend K × SocketBackend)
      → Backend K
      → SocketBackend
      → ℕ
      → Run (Outcome (Unit {0}))
  unfolding shutdown_flushed poll_flush_socket
  poll_shutdown between t s waker =
      let o = poll_flush_socket t s waker in shutdown_flushed between waker o.result o
