-- ===== src/Transport/Backend.antt =====
-- `TransportBackend` and `ConnectionWrapperGuard` of packages/transport/src/transport.rs, and the
-- state of sockets of packages/transport/src/socket.rs. Sockets are shared: `heap` holds them, and
-- the map `sockets` and the handles name them by their place in it. A call of `notify` is an entry
-- of `notices`. One function is what the code does while it holds the locks.
pub mod Closing
use adb_daemon_rs.Base.{
  ℕ, ◌+◌, ◌%◌, List, [], ◌∷◌, ◌++◌, Bool, true, false, Bytes, Option, none, some, Result, ok, err,
  Poll, pending, ready, Run, done, panicked, get_elem?, set, if◌then◌else◌, nat_eq,
}
use adb_daemon_rs.Base.Map.{Map, lookup, insert, remove}
use adb_daemon_rs.Base.Runs.{◌>>=◌}
use adb_daemon_rs.Words.{u32_mod}
use adb_daemon_rs.Text.{codes}
use adb_daemon_rs.Transport.Error.{Error, of_kind, new, closed, transport_error, msg, caused_by}
use adb_daemon_rs.Transport.Message.{AdbMessage}
use adb_daemon_rs.Transport.Connection.{Connection}
use adb_daemon_rs.Transport.Banner.{Banner}

abbrev pub delayed_ack_bytes : ℕ
delayed_ack_bytes = 33554432

abbrev pub max_payload : ℕ
max_payload = 1048576

-- `socket::State`. A cursor of the read buffer is the bytes that it still holds.
pub record State : Type 0 where
  pub remote_id : ℕ
  pub is_closed : Bool
  pub read_buffer : List Bytes
  pub initial_acknowledgment : ℕ
  pub acknowledged : ℕ

pub record SocketBackend : Type 0 where
  pub local_id : ℕ
  pub state : State

-- Whom a `notify` wakes: the reader or the writer of a socket, by its local id, or the reader task.
pub data Notice : Type 0 where
  read_waker write_waker : ℕ → Notice
  close_notify : Notice

pub record ConnectionWrapper (C : Type 0) : Type 0 where
  pub inner : C
  pub write_wakers : List ℕ

pub record TransportBackend (C : Type 0) : Type 0 where
  pub connection : Option (ConnectionWrapper C)
  pub last_id : ℕ
  pub error : Option Error
  pub sockets : Map ℕ ℕ
  pub banner : Banner
  pub heap : List SocketBackend
  pub notices : List Notice

-- The waiters of every socket in the map.
unfoldable pub notify_sockets : Map ℕ ℕ → List Notice
notify_sockets [] = []
notify_sockets ((id, place) ∷ m) = read_waker id ∷ write_waker id ∷ notify_sockets m

-- `WakerCollection::wake`: all are woken, and the collection is empty.
unfoldable pub wake {ℓ} :
    {C : Type 0} {W : Type ℓ} → (List ℕ → W) → ConnectionWrapper C → W × ConnectionWrapper C
wake woken w = (woken w.write_wakers, record w { write_wakers = [] })

module _ {C : Type 0} where
  -- `self.error.set(err)`: the first error stays.
  unfoldable pub set_error : Option Error → Error → TransportBackend C → TransportBackend C
  unfolding notify_sockets
  set_error (some old) e t = t
  set_error none e t = record t {
    connection = none;
    error = some e;
    notices = t.notices ++ (close_notify ∷ notify_sockets t.sockets);
  }

  -- The program sets the error, takes the connection and notifies, one behind the other. As it locks the
  -- connection only to take it, another task may meanwhile find the connection with the error set. Here
  -- it is one step, in which no other task comes in between.
  unfoldable pub on_error : TransportBackend C → Error → Error × TransportBackend C
  unfolding set_error
  on_error t e = (of_kind (transport_error e), set_error t.error e t)

  abbrev pub check_error : TransportBackend C → Result Error (Unit {0})
  check_error t = elim t.error [ none ↦ ok tt | some e ↦ err (of_kind (transport_error e)) ]

  -- `self.sockets.remove(&id)`.
  abbrev pub remove_socket : ℕ → TransportBackend C → TransportBackend C
  remove_socket id t = record t { sockets = remove id t.sockets }

-- The guard's operations on the connection that is behind the lock.
module _ (K : Connection) where
  abbrev pub Backend : Type 0
  Backend = TransportBackend K.State

  abbrev put_back : Backend → ConnectionWrapper K.State → K.State → Backend
  put_back t w c = record t { connection = some (record w { inner = c }) }

  -- `map_err(|err| self.on_error((ErrorKind::msg(what), err).into()))`.
  -- `on_error` of the guard gives the lock of the connection up while the error is recorded; here that is
  -- one step with the call that failed.
  abbrev failing : {A : Type 0} → Bytes → Result Error A × Backend → Result Error A × Backend
  failing what (ok a, t) = (ok a, t)
  failing what (err e, t) = let (e', t') = on_error t (new (msg what) (caused_by e)) in (err e', t')

  written :
      Backend
      → ConnectionWrapper K.State
      → Run (Result Error (Unit {0}) × K.State)
      → Run (Result Error (Unit {0}) × Backend)
  unfolding on_error
  written t w panicked = panicked
  written t w (done (r, c)) = done (failing (codes "write") (r, put_back t w c))

  -- `ConnectionWrapperGuard::write_message`.
  guarded_write :
      Option (ConnectionWrapper K.State)
      → Backend
      → AdbMessage
      → Run (Result Error (Unit {0}) × Backend)
  unfolding written
  guarded_write none t m = done (err (of_kind closed), t)
  guarded_write (some w) t m = written t w (K.write_message w.inner m)

  unfoldable pub write_message : Backend → AdbMessage → Run (Result Error (Unit {0}) × Backend)
  unfolding guarded_write
  write_message t m = guarded_write t.connection t m

  flushed :
      Backend
      → ConnectionWrapper K.State
      → Poll (Result Error (Unit {0})) × K.State
      → Poll (Result Error (Unit {0})) × Backend
  unfolding on_error
  flushed t w (pending, c) = (pending, put_back t w c)
  flushed t w (ready r, c) =
      let (r', t') = failing (codes "write (flush)") (r, put_back t w c) in (ready r', t')

  -- `ConnectionWrapperGuard::poll_flush` by the task `waker`.
  guarded_flush :
      Option (ConnectionWrapper K.State) → Backend → ℕ → Poll (Result Error (Unit {0})) × Backend
  unfolding flushed
  guarded_flush none t waker = (ready (err (of_kind closed)), t)
  guarded_flush (some w) t waker =
      flushed t (record w { write_wakers = w.write_wakers ++ waker ∷ [] }) (K.poll_flush w.inner)

  unfoldable pub poll_flush : Backend → ℕ → Poll (Result Error (Unit {0})) × Backend
  unfolding guarded_flush
  poll_flush t waker = guarded_flush t.connection t waker

  received :
      Backend
      → ConnectionWrapper K.State
      → Run (Poll (Result Error AdbMessage) × K.State)
      → Run (Poll (Result Error AdbMessage) × Backend)
  received t w panicked = panicked
  received t w (done (p, c)) = done (p, put_back t w c)

  -- `ConnectionWrapperGuard::poll_read_message`, whose errors are the caller's to report.
  guarded_read :
      Option (ConnectionWrapper K.State) → Backend → Run (Poll (Result Error AdbMessage) × Backend)
  unfolding received
  guarded_read none t = done (ready (err (of_kind closed)), t)
  guarded_read (some w) t = received t w (K.poll_read_message w.inner)

  unfoldable pub poll_read_message : Backend → Run (Poll (Result Error AdbMessage) × Backend)
  unfolding guarded_read
  poll_read_message t = guarded_read t.connection t

  -- `write_message_async`: each poll flushes, writes the message if it is still there, and flushes.
  after_write :
      ℕ
      → Run (Result Error (Unit {0}) × Backend)
      → Run (Poll (Result Error (Unit {0})) × Option AdbMessage × Backend)
  unfolding poll_flush
  after_write waker panicked = panicked
  after_write waker (done (err e, t)) = done (ready (err e), none, t)
  after_write waker (done (ok _, t)) = let (p, t') = poll_flush t waker in done (p, none, t')

  after_flush :
      ℕ
      → Option AdbMessage
      → Poll (Result Error (Unit {0})) × Backend
      → Run (Poll (Result Error (Unit {0})) × Option AdbMessage × Backend)
  unfolding after_write write_message
  after_flush waker m (pending, t) = done (pending, m, t)
  after_flush waker m (ready (err e), t) = done (ready (err e), m, t)
  after_flush waker none (ready (ok _), t) = done (ready (ok tt), none, t)
  after_flush waker (some m) (ready (ok _), t) = after_write waker (write_message t m)

  unfoldable pub poll_write_async :
      Backend
      → ℕ
      → Option AdbMessage
      → Run (Poll (Result Error (Unit {0})) × Option AdbMessage × Backend)
  unfolding after_flush
  poll_write_async t waker m = after_flush waker m (poll_flush t waker)
