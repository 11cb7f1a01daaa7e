-- ===== src/Daemon/Forward/Tasks.antt =====
-- The tasks that carry sockets: `handle_socket` and `forward_task` of src/forward.rs, and
-- `accept_sockets_task` of src/connection/usb.rs. What the surroundings answer in one round of a loop
-- is a record.
pub mod Answers
use adb_daemon_rs.Base.{
  ℕ, Bool, true, false, List, [], ◌∷◌, ◌++◌, Bytes, Result, ok, err, if◌then◌else◌,
}
use adb_daemon_rs.Text.{codes}
use adb_daemon_rs.Daemon.Proto.{Report, Proto, print}
use adb_daemon_rs.Daemon.Forward.{ReverseForwards, Forward, admit_socket}
use adb_daemon_rs.Daemon.Forward.Admission.{handle_all}

-- What becomes of a socket that a device opened: it is relayed to a local port, it is closed, or its
-- acceptance failed.
pub data Outcome : Type 0 where
  relays : ℕ → Outcome
  closes drops : Report → Outcome

-- A round of `accept_sockets_task`: the services that clients asked for since the last round, whether
-- the connection can be upgraded, the service of the socket that `accept_socket` returns, what
-- `TcpStream::connect` returns for a port, and what `PendingSocket::accept` returns.
pub record Round : Type 0 where
  pub asked : List Bytes
  pub upgraded : Bool
  pub socket : Result Report Bytes
  pub connect : ℕ → Result Report (Unit {0})
  pub accept : Result Report (Unit {0})

by_accept : ℕ → Result Report (Unit {0}) → Outcome
by_accept port (err e) = drops e
by_accept port (ok u) = relays port

by_connect : Round → ℕ → Result Report (Unit {0}) → Outcome
unfolding by_accept
by_connect r port (err e) = closes e
by_connect r port (ok u) = by_accept port r.accept

by_admission : Round → Result Report ℕ → Outcome
unfolding by_connect
by_admission r (err e) = closes e
by_admission r (ok port) = by_connect r port (r.connect port)

-- `handle_socket`. The pending socket is taken when it is accepted, and closed if the error is earlier.
unfoldable pub handle_socket : ReverseForwards → Round → Bytes → Outcome
unfolding by_admission
handle_socket fs r service = by_admission r (admit_socket fs service)

-- The socket is handled, if there is one, before the next round.
after_accept : Round → ReverseForwards → List Outcome → Result Report Bytes → List Outcome
unfolding handle_socket
after_accept r fs rest (err e) = []
after_accept r fs rest (ok service) = handle_socket fs r service ∷ rest

-- `accept_sockets_task`, which ends when the connection is gone or fails.
unfoldable pub accept_sockets_task : ReverseForwards → List Round → List Outcome
unfolding after_accept
accept_sockets_task fs [] = []
accept_sockets_task fs (r ∷ rs) =
    let fs' = handle_all fs r.asked in
    let rest = accept_sockets_task fs' rs in
    if r.upgraded then after_accept r fs' rest r.socket else []

-- A round of `forward_task`: whether `accept` returns a socket, the target that the listener has then,
-- the connections that can be upgraded, and the result of `open_socket`.
pub record Arrival : Type 0 where
  pub accepted : Bool
  pub target : Forward
  pub upgraded : ℕ → Bool
  pub open_socket : ℕ → Bytes → Result Report (Unit {0})

-- A local socket is relayed to a service of a connection, or dropped since that cannot be opened.
pub data Relay : Type 0 where
  relayed dropped : ℕ → Bytes → Relay

by_open : ℕ → Bytes → Result Report (Unit {0}) → Relay
by_open conn service (ok u) = relayed conn service
by_open conn service (err e) = dropped conn service

-- `forward_task`: a service that cannot be opened does not end it.
unfoldable pub forward_task : List Arrival → List Relay
unfolding by_open print
forward_task [] = []
forward_task (a ∷ as') =
    let rest = forward_task as' in
    let service = print a.target.remote in
    if a.accepted
    then (if a.upgraded a.target.conn
        then by_open a.target.conn service (a.open_socket a.target.conn service) ∷ rest
        else [])
    else []
