-- ===== src/Tests/SmartSocket.antt =====
-- Clients of the smart socket.
use adb_daemon_rs.Base.{
  ℕ, ◌≡◌, refl, map, arith, [], ◌∷◌, ◌++◌, Bytes, List, none, ok, true, false, Bool, nat_eq,
  bytes_eq,
}
use adb_daemon_rs.Base.Map.{insert, remove}
use adb_daemon_rs.Text.{codes, strip_prefix}
use adb_daemon_rs.Text.Utf8.{is_utf8}
use adb_daemon_rs.Transport.Banner.{device, other_type, DeviceType}
use adb_daemon_rs.Daemon.Manager.{Connection, ConnectionMgr, iter, open_values, new_connection}
use adb_daemon_rs.Daemon.ProtocolString.{read_protocol_string}
use adb_daemon_rs.Daemon.Forward.{status_okay, pstring}
use adb_daemon_rs.Daemon.SmartSocket.{
  SmartSocket, any, serial, select, pick_connection, consume_device_selector, read_service,
}
use adb_daemon_rs.Daemon.SmartSocket.Selection.{Chosen, pick_connection_lem}
use adb_daemon_rs.Daemon.SmartSocket.Legacy.{Agree, legacy_transport_lem}
use adb_daemon_rs.Daemon.SmartSocket.Waiting.{
  World, Event, updated, hangs_up, replies, goes_on, arrived, Outside, track_devices, waited,
  wait_for_any,
}
use adb_daemon_rs.Daemon.SmartSocket.Waiting.Tracking.{
  listings, worlds, Ending, track_devices_lem, sees, updates, wait_for_any_answers,
}
use adb_daemon_rs.Daemon.SmartSocket.Services.{run, handle_service}
use adb_daemon_rs.Daemon.SmartSocket.Services.Answers.{Answered, run_answers}
use adb_daemon_rs.Daemon.SmartSocket.Listing.{list_devices}
use adb_daemon_rs.Daemon.SmartSocket.Listing.Lines.{entry, read_lines, read_lines-list_devices}
use adb_daemon_rs.Tests.Manager.{no_connections, one_connection, pixel}

abbrev pub all_open : ℕ → Bool
all_open id = false

abbrev client : SmartSocket
client = record { device = any; input = []; output = [] }

abbrev pub empty_world : World
empty_world = record {
  connections = no_connections;
  is_dropped = all_open;
  backend_closed = all_open;
  listeners = [];
  reverse = λ id. [];
}

abbrev pub with_pixel : World
with_pixel = record empty_world { connections = one_connection }

abbrev pub show : DeviceType → Bytes
show device = codes "device"
show (other_type name) = name

pick_connection_lem_example :
    let (r, s') = pick_connection all_open one_connection client in
    Chosen all_open one_connection any r
    × (s'.input ≡ [])
    × (s'.output ≡ [])
    × ((c : Connection) (closed' : ℕ → Bool) (m' : ConnectionMgr)
        → r ≡ ok c
        → pick_connection closed' m' s' ≡ (ok c, s'))
pick_connection_lem_example = pick_connection_lem all_open one_connection client

legacy_transport_lem_example :
    Agree
      (pick_connection all_open one_connection
        (record client { device = serial (codes "pixel") })).0
      []
      (consume_device_selector all_open one_connection client
        (codes "host:transport:" ++ codes "pixel"))
      (consume_device_selector all_open one_connection client
        (codes "host:tport:serial:" ++ codes "pixel"))
legacy_transport_lem_example = legacy_transport_lem all_open one_connection client (codes "pixel")

abbrev changes : List Event
changes = updated with_pixel ∷ hangs_up ∷ []

track_devices_lem_example :
    ((track_devices show true empty_world client (with_pixel ∷ []) changes).socket.output
      ≡ [] ++ (status_okay ∷ listings show true (empty_world ∷ worlds changes)))
    × Ending changes (track_devices show true empty_world client (with_pixel ∷ []) changes).ends
track_devices_lem_example = track_devices_lem show true empty_world client (with_pixel ∷ []) changes

nobody_there : sees empty_world any ≡ goes_on
unfolding waited select iter open_values
nobody_there = refl

pixel_there : sees with_pixel any ≡ arrived
unfolding waited select iter open_values new_connection insert remove
pixel_there = refl

wait_for_any_answers_example :
    let r = wait_for_any empty_world client (updates [] (updated with_pixel ∷ [])) in
    (r.ends ≡ replies) × (r.socket.output ≡ [] ++ (status_okay ∷ status_okay ∷ []))
wait_for_any_answers_example =
    wait_for_any_answers empty_world with_pixel [] client [] (nobody_there, tt) pixel_there

abbrev pub outside : Outside
outside = record {
  show = show;
  forwarding = record {
    conn_closed = all_open;
    task_finished = λ p. false;
    picked = ok 1;
    bind = λ port. ok port;
    serial = λ id. none;
  };
  open_socket = λ c service. ok tt;
  gap = [];
  events = [];
}

abbrev request : Bytes
request = codes "000chost:version"

version_is_told :
    (run outside with_pixel request).socket.output ≡ status_okay ∷ pstring (codes "0029") ∷ []
unfolding run handle_service read_service read_protocol_string consume_device_selector strip_prefix
    is_utf8
version_is_told = refl

run_answers_example :
    Answered (run outside with_pixel request).ends (run outside with_pixel request).socket.output
run_answers_example = run_answers outside with_pixel request

read_lines-list_devices_example :
    read_lines 1 (list_devices show false (pixel ∷ [])) ≡ map (entry show) (pixel ∷ [])
read_lines-list_devices_example =
    read_lines-list_devices show (pixel ∷ []) 1 (omega arith) ((omega arith, omega arith), tt)
