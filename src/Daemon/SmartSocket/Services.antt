-- ===== src/Daemon/SmartSocket/Services.antt =====
-- `handle_service` of src/smart_socket/services.rs and `run` of src/smart_socket/mod.rs.
pub mod Answers
use adb_daemon_rs.Base.{
  ℕ, Bool, true, false, ◌||◌, List, [], ◌∷◌, ◌++◌, Bytes, Option, none, some, Result, ok, err,
  nat_eq, bytes_eq, ◌==◌, if◌then◌else◌,
}
use adb_daemon_rs.Text.{codes, strip_prefix, ends_with}
use adb_daemon_rs.Transport.Banner.{DeviceType, device, other_type, features_str}
use adb_daemon_rs.Daemon.Proto.{Report}
use adb_daemon_rs.Daemon.Manager.{Connection, ConnectionMgr, get, iter}
use adb_daemon_rs.Daemon.Forward.{
  Piece, status_okay, status_fail, pstring, raw, Listeners, Surroundings, handle_forward,
  ReverseForwards, handle_reverse,
}
use adb_daemon_rs.Daemon.SmartSocket.{
  DeviceSelector, PickDeviceError, not_selected, no_devices, more_than_one, not_found, describe,
  SmartSocket, write, no_selector, Failure, hung_up_early, report, read_service, pick_connection,
  consume_device_selector,
}
use adb_daemon_rs.Daemon.SmartSocket.Waiting.{
  is_closed, World, ServiceEnd, replies, exits, waits, fails, relays, Served, Outside, end_with,
  reply, fail, picked, with_picked, upgraded, listing, track_devices, wait_for_any,
}

-- The services behind `host:` that the daemon answers itself.
forwarded : Outside → World → SmartSocket → Option (Result Report (List Piece)) × Listeners → Served
forwarded o w s (none, ls) = fail (codes "service not found") s (record w { listeners = ls })
forwarded o w s (some (err e), ls) = fail e s (record w { listeners = ls })
forwarded o w s (some (ok pieces), ls) = reply pieces s (record w { listeners = ls })

-- What `handle_forward` gets when it picks a connection, which it does for a new forward only.
abbrev pick_report : Result PickDeviceError Connection → Result Report ℕ
pick_report (ok c) = ok c.id
pick_report (err e) = err (describe e)

forward_service : Outside → World → SmartSocket → Bytes → Served
unfolding forwarded picked handle_forward describe
forward_service o w s service =
    let surroundings = record o.forwarding {
      picked = pick_report (picked w s).0;
      conn_closed = is_closed w;
    } in
    forwarded o w s (handle_forward surroundings w.listeners service)

closed_by : World → ℕ → World
closed_by w id = record w { backend_closed = λ i. i == id || w.backend_closed i }

host_service : Outside → World → SmartSocket → Bytes → Served
unfolding with_picked upgraded picked listing track_devices wait_for_any forward_service closed_by
host_service o w s service =
    if service == codes "version"
    then reply (status_okay ∷ pstring (codes "0029") ∷ []) s w
    else if service == codes "is-adb-daemon-rs"
    then reply (status_okay ∷ []) s w
    else if service == codes "kill"
    then end_with exits (write (status_okay ∷ []) s) w
    else if service == codes "features"
    then with_picked w
        (λ c s'. upgraded w c s' (reply (status_okay ∷ pstring (features_str c.banner) ∷ []) s' w))
        (picked w s)
    else if service == codes "devices" || service == codes "devices-l"
    then reply (status_okay ∷ pstring (listing o.show (ends_with b'l' service) w) ∷ []) s w
    else if service == codes "track-devices" || service == codes "track-devices-l"
    then track_devices o.show (ends_with b'l' service) w s o.gap o.events
    else if service == codes "get-state"
    then with_picked w (λ c s'. reply (status_okay ∷ pstring (codes "device") ∷ []) s' w)
        (picked w s)
    else if service == codes "wait-for-any-device"
    then wait_for_any w s o.events
    else if service == codes "reconnect"
    then with_picked w
        (λ c s'. upgraded w c s' (reply (status_okay ∷ pstring [] ∷ []) s' (closed_by w c.id)))
        (picked w s)
    else if service == codes "reconnect-offline"
    then reply (status_okay ∷ pstring [] ∷ []) s w
    else forward_service o w s service

-- A service of the device, behind the change of its reverse forwards.
opened : World → Connection → Bytes → SmartSocket → Result Report (Unit {0}) → Served
opened w c service s (err e) = fail (codes "open socket") s w
opened w c service s (ok _) = end_with (relays c service) (write (status_okay ∷ []) s) w

reversed :
    Outside → World → Connection → Bytes → SmartSocket → Result Report ReverseForwards → Served
unfolding upgraded opened
reversed o w c service s (err e) = fail e s w
reversed o w c service s (ok fs) =
    let w' = record w { reverse = λ id. if id == c.id then fs else w.reverse id } in
    upgraded w' c s (opened w' c service s (o.open_socket c service))

by_prefix : Outside → World → SmartSocket → Bytes → Option Bytes → Served
unfolding host_service with_picked reversed handle_reverse picked
by_prefix o w s service (some rest) = host_service o w s rest
by_prefix o w s service none =
    with_picked w (λ c s'. reversed o w c service s' (handle_reverse (w.reverse c.id) service))
      (picked w s)

run_service : Outside → World → Result Failure Bytes × SmartSocket → Served
unfolding by_prefix strip_prefix
run_service o w (err e, s) = end_with (fails e) s w
run_service o w (ok service, s) = by_prefix o w s service (strip_prefix (codes "host:") service)

selected : Outside → World → Result Failure Bytes × SmartSocket → Served
unfolding run_service consume_device_selector
selected o w (err e, s) = end_with (fails e) s w
selected o w (ok service, s) =
    run_service o w (consume_device_selector (is_closed w) w.connections s service)

-- `handle_service`.
unfoldable pub handle_service : Outside → World → SmartSocket → Served
unfolding selected read_service
handle_service o w s = selected o w (read_service s)

-- The client is told of an error, unless it hung up while its service was read.
abbrev pub told : Served → Served
told r = elim r.ends [
  | fails (report e) ↦ record r { socket = write (status_fail ∷ pstring e ∷ []) r.socket }
  | fails hung_up_early ↦ r
  | replies ↦ r
  | exits ↦ r
  | waits ↦ r
  | relays c service ↦ r
]

-- `SmartSocket::run` for a client that will send `input`.
unfoldable pub run : Outside → World → Bytes → Served
unfolding handle_service
run o w input =
    told (handle_service o w (record { device = no_selector; input = input; output = [] }))
