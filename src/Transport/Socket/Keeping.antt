-- ===== src/Transport/Socket/Keeping.antt =====
-- The calls of a socket leave the other sockets and the ids of the transport alone.
use adb_daemon_rs.Base.{
  ℕ, ◌≡◌, refl, ◌∙◌, Bool, Bytes, Option, none, some, Result, ok, err, Poll, pending, ready, Run,
  done, panicked, if_cases, ltb, ◌==◌, nat_eq, length,
}
use adb_daemon_rs.Transport.Error.{Error}
use adb_daemon_rs.Transport.Message.{AdbMessage}
use adb_daemon_rs.Transport.Connection.{Connection}
use adb_daemon_rs.Transport.Backend.{SocketBackend, Backend, poll_flush}
use adb_daemon_rs.Transport.Backend.Closing.{
  IsCoherent, Keeps, WriteEnds, FlushEnds, write_message_ends, poll_flush_ends,
}
use adb_daemon_rs.Transport.Socket.{
  Outcome, fill, is_blocked, read_ack, read_flushed, poll_read, write_end, write_flushed,
  poll_write, flush_end, poll_flush_socket, close_flushed, close_written, close_message, shutdown,
  poll_close,
}
use adb_daemon_rs.Transport.Socket.Reading.{unless_failed_cases}
use adb_daemon_rs.Transport.Socket.Writing.{allowed}

module _ (K : Connection) where
  Keeps-refl : (t : Backend K) → IsCoherent t → Keeps K t t
  Keeps-refl t c = record { sockets = refl; heap = refl; last_id = refl; coherent = c }

  Keeps-trans : (t u v : Backend K) → Keeps K t u → Keeps K u v → Keeps K t v
  Keeps-trans t u v a b = record {
    sockets = b.sockets ∙ a.sockets;
    heap = b.heap ∙ a.heap;
    last_id = b.last_id ∙ a.last_id;
    coherent = b.coherent;
  }

  -- What a call that returns leaves alone.
  abbrev pub RunKeeps : {A : Type 0} → Backend K → Run (Outcome K A) → Type 0
  RunKeeps t panicked = Unit
  RunKeeps t (done o) = Keeps K t o.transport

  abbrev pub ReadKeeps : Backend K → Run (Bytes × Outcome K (Unit {0})) → Type 0
  ReadKeeps t panicked = Unit
  ReadKeeps t (done (bytes, o)) = Keeps K t o.transport

  read_ack-Keeps :
      (t u : Backend K) (bytes : Bytes) (s : SocketBackend)
      (r : Run (Result Error (Unit {0}) × Backend K))
      → Keeps K t u
      → WriteEnds K u r
      → ReadKeeps t (read_ack K bytes s r)
  unfolding read_ack
  read_ack-Keeps t u bytes s panicked k w = tt
  read_ack-Keeps t u bytes s (done (r, v)) k w = Keeps-trans t u v k w.0

  read_flushed_keeps :
      (t : Backend K) (s : SocketBackend) (room : ℕ)
      (p : Poll (Result Error (Unit {0})) × Backend K)
      → FlushEnds K t p
      → ReadKeeps t (read_flushed K s room p)
  unfolding read_flushed
  read_flushed_keeps t s room (pending, u) f = f.0
  read_flushed_keeps t s room (ready (err x), u) f = f.0
  read_flushed_keeps t s room (ready (ok _), u) f =
      if_cases (ReadKeeps t) s.state.is_closed _ _ (λ c. f.0)
        (λ c.
          if_cases (ReadKeeps t) (length (fill room s.state.read_buffer).0 == 0) _ _ (λ z. f.0)
            (λ z. read_ack-Keeps t u _ _ _ f.0 (write_message_ends K u _ f.0.coherent)))

  pub poll_read_keeps :
      (t : Backend K) (s : SocketBackend) (room waker : ℕ)
      → IsCoherent t
      → ReadKeeps t (poll_read K t s room waker)
  unfolding poll_read
  poll_read_keeps t s room waker c =
      unless_failed_cases (ReadKeeps t) t.error _ _ (λ x. Keeps-refl t c)
        (read_flushed_keeps t s room (poll_flush K t waker) (poll_flush_ends K t waker c))

  write_end-Keeps :
      (t u : Backend K) (n : ℕ) (s : SocketBackend) (r : Run (Result Error (Unit {0}) × Backend K))
      → Keeps K t u
      → WriteEnds K u r
      → RunKeeps t (write_end K n s r)
  unfolding write_end
  write_end-Keeps t u n s panicked k w = tt
  write_end-Keeps t u n s (done (err x, v)) k w = Keeps-trans t u v k w.0
  write_end-Keeps t u n s (done (ok _, v)) k w = Keeps-trans t u v k w.0

  write_flushed_keeps :
      (t : Backend K) (s : SocketBackend) (buf : Bytes) (tick : Bool)
      (p : Poll (Result Error (Unit {0})) × Backend K)
      → FlushEnds K t p
      → RunKeeps t (write_flushed K s buf tick p)
  unfolding write_flushed
  write_flushed_keeps t s buf tick (pending, u) f = f.0
  write_flushed_keeps t s buf tick (ready (err x), u) f = f.0
  write_flushed_keeps t s buf tick (ready (ok _), u) f =
      if_cases (RunKeeps t) (is_blocked s tick) _ _ (λ c. f.0)
        (λ c.
          if_cases (RunKeeps t) (ltb s.state.acknowledged (allowed s buf)) _ _ (λ z. tt)
            (λ z. write_end-Keeps t u _ _ _ f.0 (write_message_ends K u _ f.0.coherent)))

  pub poll_write_keeps :
      (t : Backend K) (s : SocketBackend) (buf : Bytes) (tick : Bool) (waker : ℕ)
      → IsCoherent t
      → RunKeeps t (poll_write K t s buf tick waker)
  unfolding poll_write
  poll_write_keeps t s buf tick waker c =
      unless_failed_cases (RunKeeps t) t.error _ _ (λ x. Keeps-refl t c)
        (if_cases (RunKeeps t) s.state.is_closed _ _ (λ z. Keeps-refl t c)
          (λ z.
            write_flushed_keeps t s buf tick (poll_flush K t waker) (poll_flush_ends K t waker c)))

  flush_end-Keeps :
      (t : Backend K) (s : SocketBackend) (p : Poll (Result Error (Unit {0})) × Backend K)
      → FlushEnds K t p
      → Keeps K t (flush_end K s p).transport × ((flush_end K s p).socket ≡ s)
  unfolding flush_end
  flush_end-Keeps t s (pending, u) f = (f.0, refl)
  flush_end-Keeps t s (ready (err x), u) f = (f.0, refl)
  flush_end-Keeps t s (ready (ok _), u) f = (f.0, refl)

  pub poll_flush_socket-Keeps :
      (t : Backend K) (s : SocketBackend) (waker : ℕ)
      → IsCoherent t
      → Keeps K t (poll_flush_socket K t s waker).transport
        × ((poll_flush_socket K t s waker).socket ≡ s)
  unfolding poll_flush_socket
  poll_flush_socket-Keeps t s waker c =
      unless_failed_cases (λ (o : Outcome K (Unit {0})). Keeps K t o.transport × (o.socket ≡ s))
        t.error _ _ (λ x. (Keeps-refl t c, refl))
        (flush_end-Keeps t s (poll_flush K t waker) (poll_flush_ends K t waker c))

  close_flushed-Keeps :
      (t u : Backend K) (s : SocketBackend) (p : Poll (Result Error (Unit {0})) × Backend K)
      → Keeps K t u
      → FlushEnds K u p
      → Keeps K t (close_flushed K s p).transport
  unfolding close_flushed
  close_flushed-Keeps t u s (pending, v) k f = Keeps-trans t u v k f.0
  close_flushed-Keeps t u s (ready r, v) k f = Keeps-trans t u v k f.0

  close_written_keeps :
      (t : Backend K) (s : SocketBackend) (waker : ℕ)
      (r : Run (Result Error (Unit {0}) × Backend K))
      → WriteEnds K t r
      → RunKeeps t (close_written K s waker r)
  unfolding close_written
  close_written_keeps t s waker panicked w = tt
  close_written_keeps t s waker (done (err x, v)) w = w.0
  close_written_keeps t s waker (done (ok _, v)) w =
      close_flushed-Keeps t v s _ w.0 (poll_flush_ends K v waker w.0.coherent)

  close_message_keeps :
      (t : Backend K) (waker : ℕ) (p : Option AdbMessage × SocketBackend)
      → IsCoherent t
      → RunKeeps t (close_message K t waker p)
  unfolding close_message
  close_message_keeps t waker (none, s) c = Keeps-refl t c
  close_message_keeps t waker (some m, s) c =
      close_written_keeps t s waker _ (write_message_ends K t m c)

  pub poll_close_keeps :
      (t : Backend K) (s : SocketBackend) (waker : ℕ)
      → IsCoherent t
      → RunKeeps t (poll_close K t s waker)
  unfolding poll_close
  poll_close_keeps t s waker c = close_message_keeps t waker (shutdown K t s) c
