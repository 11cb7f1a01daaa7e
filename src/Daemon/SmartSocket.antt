-- ===== src/Daemon/SmartSocket.antt =====
-- `SmartSocket` of src/smart_socket/mod.rs and its choice of a device in src/smart_socket/devices.rs.
-- A client is the bytes that it will send, and what is written to it; those writes succeed.
pub mod Services
pub mod Listing
pub mod Waiting
pub mod Selection
pub mod Legacy
use adb_daemon_rs.Base.{
  ℕ, ◌+◌, ◌/◌, ◌%◌, Bool, true, false, List, [], ◌∷◌, ◌++◌, Bytes, Option, none, some, Result, ok,
  err, nat_eq, bytes_eq, map_err, ◌>>=◌,
}
use adb_daemon_rs.Words.{to_le_bytes}
use adb_daemon_rs.Text.{codes, strip_prefix, split_once}
use adb_daemon_rs.Daemon.Proto.{Report}
use adb_daemon_rs.Daemon.ProtocolString.{
  write_protocol_string, ReadError, early_eof, malformed, read_protocol_string,
}
use adb_daemon_rs.Daemon.Manager.{Connection, ConnectionMgr, get, iter}
use adb_daemon_rs.Daemon.Forward.{Piece, status_okay, status_fail, pstring, raw}

pub data DeviceSelector : Type 0 where
  connection : Connection → DeviceSelector
  serial : Bytes → DeviceSelector
  any no_selector : DeviceSelector

pub data PickDeviceError : Type 0 where
  not_selected no_devices more_than_one : PickDeviceError
  not_found : Bytes → PickDeviceError

-- `Display`.
unfoldable pub describe : PickDeviceError → Report
describe not_selected = codes "no device selected"
describe no_devices = codes "no devices/emulators found"
describe more_than_one = codes "more than one device/emulator"
describe (not_found s) = codes "device '" ++ (s ++ codes "' not found")

pub record SmartSocket : Type 0 where
  pub device : DeviceSelector
  pub input : Bytes
  pub output : List Piece

-- The bytes that a piece is written as.
unfoldable pub bytes_of : Piece → Bytes
unfolding write_protocol_string
bytes_of status_okay = codes "OKAY"
bytes_of status_fail = codes "FAIL"
bytes_of (pstring s) = write_protocol_string s
bytes_of (raw s) = s

-- `respond`, `write_pstring` and `respond_data`.
abbrev pub write : List Piece → SmartSocket → SmartSocket
write pieces s = record s { output = s.output ++ pieces }

-- Why a service ends with an error: the client hung up while it was read, or a message.
pub data Failure : Type 0 where
  hung_up_early : Failure
  report : Report → Failure

-- `read_pstring().await.context("read service")`.
abbrev read_failure : ReadError → Failure
read_failure early_eof = hung_up_early
read_failure (malformed r) = report (codes "read service")

abbrev service_read :
    SmartSocket → Result ReadError (Bytes × Bytes) → Result Failure Bytes × SmartSocket
service_read s (err e) = (err (read_failure e), s)
service_read s (ok (service, rest)) = (ok service, record s { input = rest })

unfoldable pub read_service : SmartSocket → Result Failure Bytes × SmartSocket
unfolding read_protocol_string
read_service s = service_read s (read_protocol_string s.input)

-- Of the connections that are open: the first, if there is no other.
abbrev only : List Connection → Result PickDeviceError Connection
only [] = err no_devices
only (c ∷ []) = ok c
only (c ∷ d ∷ cs) = err more_than_one

found : Bytes → Option Connection → Result PickDeviceError Connection
found s none = err (not_found s)
found s (some c) = ok c

-- The connection that a selector stands for.
unfoldable pub select :
    (ℕ → Bool) → ConnectionMgr → DeviceSelector → Result PickDeviceError Connection
unfolding found get iter
select closed m (connection c) = ok c
select closed m (serial s) = found s (get closed m s)
select closed m any = only (iter closed m)
select closed m no_selector = err not_selected

-- A connection that was picked stays selected.
abbrev pub keep_picked : SmartSocket → Result PickDeviceError Connection → SmartSocket
keep_picked s (err e) = s
keep_picked s (ok c) = record s { device = connection c }

-- `pick_connection`. `closed` says which connections are closed.
unfoldable pub pick_connection :
    (ℕ → Bool) → ConnectionMgr → SmartSocket → Result PickDeviceError Connection × SmartSocket
unfolding select
pick_connection closed m s = let r = select closed m s.device in (r, keep_picked s r)

-- `u64::to_le_bytes`.
abbrev pub u64_bytes : ℕ → Bytes
u64_bytes n = to_le_bytes (n % 4294967296) ++ to_le_bytes (n / 4294967296)

-- The selector of a `tport` service.
abbrev pub tport_selector : Option Bytes → DeviceSelector
tport_selector none = any
tport_selector (some s) = serial s

transport_picked :
    Bool → Result PickDeviceError Connection × SmartSocket → Result Failure Bytes × SmartSocket
unfolding read_service describe
transport_picked legacy (err e, s) = (err (report (describe e)), s)
transport_picked true (ok c, s) = read_service (write (status_okay ∷ []) s)
transport_picked false (ok c, s) = read_service (write (status_okay ∷ raw (u64_bytes c.id) ∷ []) s)

-- A service of which the part behind `host:tport:` is `rest`.
select_transport :
    (ℕ → Bool) → ConnectionMgr → SmartSocket → Bool → Bytes → Result Failure Bytes × SmartSocket
unfolding transport_picked pick_connection strip_prefix
select_transport closed m s legacy rest =
    let s' = record s { device = tport_selector (strip_prefix (codes "serial:") rest) } in
    transport_picked legacy (pick_connection closed m s')

select_serial : SmartSocket → Option (Bytes × Bytes) → Result Failure Bytes × SmartSocket
select_serial s none = (err (report (codes "malformed service")), s)
select_serial s (some (name, service)) =
    (ok (codes "host:" ++ service), record s { device = serial name })

consume_host : SmartSocket → Bytes → Option Bytes → Result Failure Bytes × SmartSocket
consume_host s service none = (ok service, s)
consume_host s service (some _) = (ok service, record s { device = any })

consume_serial : SmartSocket → Bytes → Option Bytes → Result Failure Bytes × SmartSocket
unfolding select_serial consume_host strip_prefix split_once
consume_serial s service (some rest) = select_serial s (split_once (codes ":") rest)
consume_serial s service none = consume_host s service (strip_prefix (codes "host:") service)

consume_tport :
    (ℕ → Bool)
    → ConnectionMgr
    → SmartSocket
    → Bool
    → Bytes
    → Option Bytes
    → Result Failure Bytes × SmartSocket
unfolding select_transport consume_serial strip_prefix
consume_tport closed m s legacy service (some rest) = select_transport closed m s legacy rest
consume_tport closed m s legacy service none =
    consume_serial s service (strip_prefix (codes "host-serial:") service)

consume_legacy :
    (ℕ → Bool)
    → ConnectionMgr
    → SmartSocket
    → Bytes
    → Option Bytes
    → Result Failure Bytes × SmartSocket
unfolding consume_tport strip_prefix
consume_legacy closed m s service none =
    consume_tport closed m s false service (strip_prefix (codes "host:tport:") service)
consume_legacy closed m s service (some name) =
    let service' = codes "host:tport:serial:" ++ name in
    consume_tport closed m s true service' (strip_prefix (codes "host:tport:") service')

-- `consume_device_selector`: the service that is left to run.
unfoldable pub consume_device_selector :
    (ℕ → Bool) → ConnectionMgr → SmartSocket → Bytes → Result Failure Bytes × SmartSocket
unfolding consume_legacy strip_prefix
consume_device_selector closed m s service =
    consume_legacy closed m s service (strip_prefix (codes "host:transport:") service)
