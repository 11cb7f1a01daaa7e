-- ===== src/Transport/System.antt =====
-- A whole transport as a system of steps: the reader of packages/transport/src/transport.rs, the tasks
-- that hold its sockets, and those that open and drop them, in any order. What passed through each
-- socket is noted beside the transport, by the socket's place.
pub mod Validity
pub mod Receiving
pub mod Life
use adb_daemon_rs.Base.{
  ℕ, ◌+◌, ◌<◌, ◌≡◌, List, [], ◌∷◌, ◌++◌, Bool, Bytes, Option, none, some, Result, ok, err, Poll,
  Run, done, get_elem?, set, length, if◌then◌else◌, ◌==◌, nat_eq,
}
use adb_daemon_rs.Base.Map.{lookup}
use adb_daemon_rs.Words.{u32_mod}
use adb_daemon_rs.Transport.Error.{Error}
use adb_daemon_rs.Transport.Message.{AdbMessage}
use adb_daemon_rs.Transport.Connection.{Connection}
use adb_daemon_rs.Transport.Backend.{
  SocketBackend, Backend, TransportBackend, on_error, write_message, poll_flush,
}
use adb_daemon_rs.Transport.Socket.{
  Outcome, avail_of, poll_read, poll_write, poll_close, poll_flush_socket,
}
use adb_daemon_rs.Transport.Socket.Delivery.{granted_by, arrived_by}
use adb_daemon_rs.Transport.Socket.Flow.{Trace, reported, start}
use adb_daemon_rs.Transport.Router.{
  Next, finishes, offers, PendingSocket, route, accept, open_socket, drop_socket,
}

abbrev pub Traces : Type 0
Traces = ℕ → Trace

abbrev pub put : ℕ → Trace → Traces → Traces
put place tr traces q = if place == q then tr else traces q

-- A message notes what it grants and brings.
abbrev pub noted : AdbMessage → Trace → Trace
noted m tr = record tr {
  granted = tr.granted + granted_by m.header.command (avail_of m.payload);
  arrived = tr.arrived ++ arrived_by m.header.command m.payload;
}

abbrev pub noted_at : AdbMessage → Option ℕ → Traces → Traces
noted_at m none traces = traces
noted_at m (some place) traces = put place (noted m (traces place)) traces

-- The reader notes a message at the socket that its id leads to, unless it ends with an error.
abbrev pub noted_by : {C : Type 0} → TransportBackend C → AdbMessage → Next → Traces → Traces
noted_by t m (finishes (ok _)) traces = noted_at m (lookup m.header.arg1 t.sockets) traces
noted_by t m _ traces = traces

module _ (K : Connection) where
  pub record Config : Type 0 where
    pub transport : Backend K
    pub traces : Traces

  -- A call of the task that holds the socket `s`: the transport and the socket behind it.
  pub data Call (t : Backend K) (s : SocketBackend) (tr : Trace) (u : Backend K)
      (s' : SocketBackend) (tr' : Trace) : Type 0 where
    reads :
        (room waker : ℕ) (bytes : Bytes) (o : Outcome K (Unit {0}))
        → poll_read K t s room waker ≡ done (bytes, o)
        → u ≡ o.transport
        → s' ≡ o.socket
        → tr' ≡ record tr { delivered = tr.delivered ++ bytes }
        → Call t s tr u s' tr'
    writes :
        (buf : Bytes) (tick : Bool) (waker : ℕ) (o : Outcome K ℕ)
        → poll_write K t s buf tick waker ≡ done o
        → u ≡ o.transport
        → s' ≡ o.socket
        → tr' ≡ record tr { used = tr.used + reported o.result }
        → Call t s tr u s' tr'
    closes :
        (waker : ℕ) (o : Outcome K (Unit {0}))
        → poll_close K t s waker ≡ done o
        → u ≡ o.transport
        → s' ≡ o.socket
        → tr' ≡ tr
        → Call t s tr u s' tr'
    flushes :
        (waker : ℕ)
        → u ≡ (poll_flush_socket K t s waker).transport
        → s' ≡ (poll_flush_socket K t s waker).socket
        → tr' ≡ tr
        → Call t s tr u s' tr'

  -- The counter of ids is an atomic that wraps around at 2^32. A socket is accepted or opened in these
  -- steps as long as it does not, that is, in the first 2^32 - 2 allocations of a transport.
  -- One step of the reader, of a task, or of an error that any of them meets.
  pub data Step (c d : Config) : Type 0 where
    receives :
        (m : AdbMessage) (n : Next) (u : Backend K)
        → route c.transport m ≡ done (n, u)
        → d ≡ record { transport = u; traces = noted_by c.transport m n c.traces }
        → Step c d
    calls :
        (place : ℕ) (s s' : SocketBackend) (tr' : Trace) (u : Backend K)
        → get_elem? c.transport.heap place ≡ some s
        → Call c.transport s (c.traces place) u s' tr'
        → d ≡ record {
          transport = record u { heap = set u.heap place s' };
          traces = put place tr' c.traces;
        }
        → Step c d
    accepts :
        (p : PendingSocket) (m : AdbMessage) (place : ℕ) (u : Backend K)
        → c.transport.last_id + 1 < u32_mod
        → accept c.transport p ≡ (m, place, u)
        → d ≡ record { transport = u; traces = put place (start K p.acknowledged) c.traces }
        → Step c d
    opens :
        (service : Bytes) (m : AdbMessage) (place : ℕ) (u : Backend K)
        → c.transport.last_id + 1 < u32_mod
        → open_socket c.transport service ≡ ok (m, place, u)
        → d ≡ record { transport = u; traces = put place (start K 0) c.traces }
        → Step c d
    sends :
        (m : AdbMessage) (r : Result Error (Unit {0})) (u : Backend K)
        → write_message K c.transport m ≡ done (r, u)
        → d ≡ record c { transport = u }
        → Step c d
    waits : (waker : ℕ) → d ≡ record c { transport = (poll_flush K c.transport waker).1 } → Step c d
    fails : (e : Error) → d ≡ record c { transport = (on_error c.transport e).1 } → Step c d
    drops : (s : SocketBackend) → d ≡ record c { transport = drop_socket c.transport s } → Step c d

  pub data Reach (c : Config) : Config → Type 0 where
    here : Reach c c
    next : {d e : Config} → Reach c d → Step d e → Reach c e
