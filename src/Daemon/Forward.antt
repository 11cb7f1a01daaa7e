-- ===== src/Daemon/Forward.antt =====
-- `ForwardingMgr` of src/forward.rs. A connection is named by its id. What the rest of the daemon and
-- the system answer during a request is a parameter: which connections are closed, which tasks have
-- ended, the connection that is picked, and the port that a listener is bound to.
pub mod Listeners
pub mod Admission
pub mod Replies
pub mod Tasks
pub mod Stays
use adb_daemon_rs.Base.{
  ℕ, ◌≡◌, Bool, true, false, not, ◌&&◌, ◌||◌, List, [], ◌∷◌, ◌++◌, Bytes, Option, none, some,
  Result, ok, err, ◌>>=◌, ok_or, ◌==◌, nat_eq, bytes_eq, if◌then◌else◌,
}
use adb_daemon_rs.Base.Map.{Map, lookup, insert, remove}
use adb_daemon_rs.Text.{codes, strip_prefix}
use adb_daemon_rs.Text.Decimal.{print_u16}
use adb_daemon_rs.Daemon.Proto.{
  Report, Proto, tcp, other, proto_eq, print, parse, ForwardCommand, add, remove_all, list,
  parse_command,
}
use adb_daemon_rs.Daemon.Proto

-- `Forward`, the target of a listener. Its task shares it, so a new target takes effect there too.
pub record Forward : Type 0 where
  pub conn : ℕ
  pub remote : Proto

abbrev pub Listeners : Type 0
Listeners = Map Proto Forward

-- The answers of the surroundings during one request.
pub record Surroundings : Type 0 where
  -- `WeakConnection::is_closed` and `JoinHandle::is_finished`.
  pub conn_closed : ℕ → Bool
  pub task_finished : Proto → Bool
  -- `SmartSocket::pick_connection`, as the id of the connection.
  pub picked : Result Report ℕ
  -- `TcpListener::bind` at a port and then `local_addr`: the port, or the message of what failed.
  pub bind : ℕ → Result Report ℕ
  -- The serial of a connection that can be upgraded.
  pub serial : ℕ → Option Bytes

-- What is written to the client, piece by piece: a status, a protocol string, or bytes.
pub data Piece : Type 0 where
  status_okay status_fail : Piece
  pstring raw : Bytes → Piece

-- `clean_forwards`.
unfoldable pub clean_forwards : Surroundings → Listeners → Listeners
clean_forwards w [] = []
clean_forwards w ((local, f) ∷ ls) =
    let rest = clean_forwards w ls in
    if not (w.conn_closed f.conn) && not (w.task_finished local) then (local, f) ∷ rest else rest

-- The two statuses, and the port if the system chose it.
abbrev pub replies : Option ℕ → List Piece
replies none = status_okay ∷ status_okay ∷ []
replies (some port) = status_okay ∷ status_okay ∷ pstring (print_u16 port) ∷ []

-- A request: its result, and the listeners that it leaves behind, also when it fails.
abbrev pub Request : Type 0
Request = Result Report (List Piece) × Listeners

bound : Listeners → Forward → ℕ → Result Report ℕ → Request
unfolding insert
bound ls f port (err e) = (err e, ls)
bound ls f port (ok bound_port) =
    (ok (replies (if port == 0 then some bound_port else none)), insert (tcp bound_port) f ls)

add_to : Surroundings → Listeners → Forward → ℕ → Bool → Option Forward → Request
unfolding bound insert
add_to w ls f port norebind none = bound ls f port (w.bind port)
add_to w ls f port norebind (some old) =
    if port == 0
    then bound ls f port (w.bind port)
    else if norebind
    then (err (codes "already bound"), ls)
    else (ok (replies none), insert (tcp port) f ls)

add_picked : Surroundings → Listeners → ℕ → Proto → Bool → Result Report ℕ → Request
unfolding add_to lookup
add_picked w ls port remote norebind (err e) = (err e, ls)
add_picked w ls port remote norebind (ok conn) =
    add_to w ls (record { conn = conn; remote = remote }) port norebind (lookup (tcp port) ls)

add_forward : Surroundings → Listeners → Proto → Proto → Bool → Request
unfolding add_picked
add_forward w ls (tcp port) remote norebind = add_picked w ls port remote norebind w.picked
add_forward w ls (other s) remote norebind = (err (codes "unsupported protocol: " ++ s), ls)

serial_or : Option Bytes → Bytes
serial_or none = codes "disconnected"
serial_or (some s) = s

-- One line for each forward.
unfoldable pub list_forwards : Surroundings → Listeners → Bytes
unfolding serial_or print
list_forwards w [] = []
list_forwards w ((local, f) ∷ ls) =
    serial_or (w.serial f.conn)
    ++ (b' ' ∷ (print local ++ (b' ' ∷ (print f.remote ++ (0x0a ∷ list_forwards w ls)))))

unfoldable pub run_command : Surroundings → Listeners → ForwardCommand → Request
unfolding clean_forwards add_forward list_forwards remove
run_command w ls (add local remote norebind) =
    add_forward w (clean_forwards w ls) local remote norebind
run_command w ls (Proto.remove proto) = (ok (replies none), remove proto (clean_forwards w ls))
run_command w ls remove_all = (ok (replies none), [])
run_command w ls list =
    let ls' = clean_forwards w ls in (ok (status_okay ∷ pstring (list_forwards w ls') ∷ []), ls')

by_parse :
    Surroundings
    → Listeners
    → Result Report (Option ForwardCommand)
    → Option (Result Report (List Piece)) × Listeners
unfolding run_command
by_parse w ls (err e) = (some (err e), ls)
by_parse w ls (ok none) = (none, ls)
by_parse w ls (ok (some c)) = let (r, ls') = run_command w ls c in (some r, ls')

-- `handle_forward`; `none` is the result `Ok(false)`, for a service that is no forward command.
unfoldable pub handle_forward :
    Surroundings → Listeners → Bytes → Option (Result Report (List Piece)) × Listeners
unfolding by_parse parse_command
handle_forward w ls service = by_parse w ls (parse_command service)

-- `Reverse` forwards of a connection: the remote side, and the local side that it leads to.
abbrev pub ReverseForwards : Type 0
ReverseForwards = Map Proto Proto

abbrev pub has_key {ℓ} : {V : Type ℓ} → Option V → Bool
has_key none = false
has_key (some v) = true

reverse_command : ReverseForwards → ForwardCommand → Result Report ReverseForwards
unfolding insert remove lookup
reverse_command fs (add remote local norebind) =
    if norebind && has_key (lookup remote fs)
    then err (codes "already bound, would fail")
    else ok (insert remote local fs)
reverse_command fs (Proto.remove proto) = ok (remove proto fs)
reverse_command fs remove_all = ok []
reverse_command fs list = ok fs

reverse_parsed :
    ReverseForwards → Result Report (Option ForwardCommand) → Result Report ReverseForwards
unfolding reverse_command
reverse_parsed fs (err e) = err e
reverse_parsed fs (ok none) = err (codes "malformed reverse service")
reverse_parsed fs (ok (some c)) = reverse_command fs c

reverse_service : ReverseForwards → Option Bytes → Result Report ReverseForwards
unfolding reverse_parsed parse_command
reverse_service fs none = ok fs
reverse_service fs (some service) = reverse_parsed fs (parse_command service)

-- `handle_reverse`.
unfoldable pub handle_reverse : ReverseForwards → Bytes → Result Report ReverseForwards
unfolding reverse_service strip_prefix
handle_reverse fs service = reverse_service fs (strip_prefix (codes "reverse:") service)

-- Some reverse forward leads to `proto`.
unfoldable pub leads_to : Proto → ReverseForwards → Bool
leads_to proto [] = false
leads_to proto ((remote, local) ∷ fs) = local == proto || leads_to proto fs

-- `handle_socket` up to the connection to the local port: the port, or why the socket is refused.
admit : ReverseForwards → Result Report Proto → Result Report ℕ
unfolding leads_to
admit fs (err e) = err (codes "parse proto")
admit fs (ok (other s)) = err (codes "unsupported protocol")
admit fs (ok (tcp port)) = if leads_to (tcp port) fs then ok port else err (codes "denied")

unfoldable pub admit_socket : ReverseForwards → Bytes → Result Report ℕ
unfolding admit parse
admit_socket fs service = admit fs (parse service)
