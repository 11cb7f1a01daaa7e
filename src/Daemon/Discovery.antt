-- ===== src/Daemon/Discovery.antt =====
-- src/connection/usb.rs and the round of `ConnectionMgr::run` in src/connection/manager.rs: USB
-- devices become connections. The calls of the `nusb` library and the handshake's messages are
-- parameters; the tasks that are spawned are values.
pub mod Ids
pub mod Rounds
pub mod Termination
pub mod Uniqueness
use adb_daemon_rs.Base.{
  ℕ, Bool, true, false, not, List, [], ◌∷◌, ◌++◌, Bytes, Option, none, some, Result, ok, err,
  if◌then◌else◌, bytes_eq, ◌>>=◌, ◌>>◌,
}
use adb_daemon_rs.Base.Map.{Map, lookup}
use adb_daemon_rs.Text.{codes}
use adb_daemon_rs.Transport.Banner.{Banner}
use adb_daemon_rs.Transport.Error.{
  Error, error, Source, no_source, foreign, text, caused_by, ErrorKind, invalid_data, closed, sign,
  invalid_key, delayed_ack_not_available, other, usb, transport_error, msg, UsbError, unsupported,
  transfer, fault,
}
use adb_daemon_rs.Transport.Message.{AdbMessage}
use adb_daemon_rs.Transport.Backend.{TransportBackend}
use adb_daemon_rs.Transport.Handshake.{
  Peer, hello, AuthRun, AuthEnd, accepted, rejected, failed, waits, existing, new_key, authenticate,
}
use adb_daemon_rs.Daemon.Proto.{Report}
use adb_daemon_rs.Daemon.Config.{UsbConfig, usb_enabled, is_whitelisted}
use adb_daemon_rs.Daemon.Manager.{
  MaybeConnection, Connection, ConnectionMgr, alloc, create, new_connection,
  remove_closed_connections,
}

-- A device as it is listed: its serial, and what `UsbConnection::new` gives.
pub record DeviceInfo : Type 0 where
  pub serial_number : Option Bytes
  pub opened : Result Error (Unit {0})

-- The tasks that are spawned, one for each new connection, and the counter of ids behind them.
abbrev pub Spawned : Type 0
Spawned = List MaybeConnection × ℕ

abbrev spawn : MaybeConnection × ℕ → (ℕ → Spawned) → Spawned
spawn (conn, next) rest = let (conns, next') = rest next in (conn ∷ conns, next')

-- Whether a device is left out although its serial is known.
skips : UsbConfig → ConnectionMgr → Bytes → Bool
unfolding is_whitelisted lookup
skips cfg m serial =
    if not (is_whitelisted cfg serial)
    then true
    else elim (lookup serial m.by_serial) [ none ↦ false | some c ↦ true ]

start : ℕ → (ℕ → Spawned) → Bytes → Result Error (Unit {0}) → Spawned
start next rest serial (err e) = rest next
start next rest serial (ok _) = spawn (alloc next serial) rest

try_device :
    UsbConfig → ConnectionMgr → ℕ → (ℕ → Spawned) → Result Error (Unit {0}) → Option Bytes → Spawned
unfolding skips start
try_device cfg m next rest opened none = rest next
try_device cfg m next rest opened (some serial) =
    if skips cfg m serial then rest next else start next rest serial opened

-- The loop of `refresh_usb`.
unfoldable pub refresh_devices : UsbConfig → ConnectionMgr → List DeviceInfo → ℕ → Spawned
unfolding try_device
refresh_devices cfg m [] next = ([], next)
refresh_devices cfg m (d ∷ ds) next =
    try_device cfg m next (refresh_devices cfg m ds) d.opened d.serial_number

-- `refresh_usb`; if the devices cannot be listed, nothing is spawned.
unfoldable pub refresh_usb :
    UsbConfig
    → ConnectionMgr
    → Result Report (List DeviceInfo)
    → ℕ
    → Result Report (Unit {0}) × Spawned
unfolding refresh_devices
refresh_usb cfg m (err e) next = (err (codes "list devices"), ([], next))
refresh_usb cfg m (ok ds) next = (ok tt, refresh_devices cfg m ds next)

-- A round of `run` up to its wait: the devices, and then the connections that are closed.
unfoldable pub run_round :
    UsbConfig
    → (ℕ → Bool)
    → ConnectionMgr
    → Result Report (List DeviceInfo)
    → ℕ
    → Spawned × ConnectionMgr
unfolding refresh_usb remove_closed_connections
run_round cfg is_closed m listed next = (
  if usb_enabled cfg then (refresh_usb cfg m listed next).1 else ([], next),
  remove_closed_connections is_closed m,
)

-- The last of an error's sources, if it is an `Error`; a context has the error that it is put on as
-- its source.
unfoldable mutual
  pub root_cause : Error → Option Error
  root_cause (error (transport_error e) s) = root_cause e
  root_cause (error invalid_data s) = root_source (error invalid_data s) s
  root_cause (error closed s) = root_source (error closed s) s
  root_cause (error sign s) = root_source (error sign s) s
  root_cause (error invalid_key s) = root_source (error invalid_key s) s
  root_cause (error delayed_ack_not_available s) = root_source (error delayed_ack_not_available s) s
  root_cause (error other s) = root_source (error other s) s
  root_cause (error (usb u) s) = root_source (error (usb u) s) s
  root_cause (error (msg m) s) = root_source (error (msg m) s) s

  pub root_source : Error → Source → Option Error
  root_source e no_source = some e
  root_source e foreign = none
  root_source e (text t) = none
  root_source e (caused_by e') = root_cause e'

resets : Option Error → Bool
resets (some (error (usb (transfer fault)) s)) = true
resets _ = false

-- Whether the device is reset after an error: the last source is a transfer's fault.
unfoldable pub transfer_fault : Error → Bool
unfolding root_cause resets
transfer_fault e = resets (root_cause e)

-- How a task ends: with a connection and the transport behind it, with an error, or not yet; and
-- whether the device is reset.
pub data Created (C : Type 0) : Type 0 where
  created : Connection → TransportBackend C → Created C
  gave_up : Bool → Created C
  handshaking : Created C

module _ {C : Type 0} where
  give_up : ConnectionMgr → Error → Created C × ConnectionMgr
  unfolding transfer_fault
  give_up m e = (gave_up (transfer_fault e), m)

  connected : ConnectionMgr → MaybeConnection → TransportBackend C → Created C × ConnectionMgr
  unfolding new_connection
  connected m conn t = let c = create conn t.banner in (created c t, new_connection m c)

  -- The answer to the key that was offered; a message that says that it was rejected ends the task.
  offered : ConnectionMgr → MaybeConnection → AuthEnd C → Created C × ConnectionMgr
  unfolding connected give_up
  offered m conn (accepted t) = connected m conn t
  offered m conn (rejected last) = (gave_up false, m)
  offered m conn (failed e) = give_up m e
  offered m conn waits = (handshaking, m)

  authenticated : Peer → C → ConnectionMgr → MaybeConnection → AuthRun C → Created C × ConnectionMgr
  unfolding connected offered give_up authenticate
  authenticated w c m conn run = elim run.ends [
    | accepted t ↦ connected m conn t
    | rejected last ↦ offered m conn (authenticate w c (some last) run.unread new_key).ends
    | failed e ↦ give_up m e
    | waits ↦ (handshaking, m)
  ]

  greeted :
      Peer
      → C
      → ConnectionMgr
      → MaybeConnection
      → List (Result Error AdbMessage)
      → Result Error (Unit {0})
      → Created C × ConnectionMgr
  unfolding authenticated give_up authenticate
  greeted w c m conn ms (err e) = give_up m e
  greeted w c m conn ms (ok _) = authenticated w c m conn (authenticate w c none ms existing)

  -- `create_usb_connection`, when the device sends the messages `ms`.
  unfoldable pub create_usb_connection :
      Peer
      → C
      → ConnectionMgr
      → MaybeConnection
      → List (Result Error AdbMessage)
      → Created C × ConnectionMgr
  unfolding greeted
  create_usb_connection w c m conn ms = greeted w c m conn ms (w.write hello)
