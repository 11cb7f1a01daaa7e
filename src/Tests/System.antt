-- ===== src/Tests/System.antt =====
-- Steps of a new transport: a socket that the device opens, and a message for it.
use adb_daemon_rs.Base.{◌≡◌, ◌≤◌, ◌<◌, refl, [], ◌∷◌, ◌++◌, arith, ok, nat_eq}
use adb_daemon_rs.Base.Map.{lookup, insert}
use adb_daemon_rs.Words.{usize_mod}
use adb_daemon_rs.Text.{codes}
use adb_daemon_rs.Transport.Message.{AdbMessage, wrte, new_message}
use adb_daemon_rs.Transport.Backend.{SocketBackend, read_waker}
use adb_daemon_rs.Transport.Socket.{new_socket, handle_message}
use adb_daemon_rs.Transport.Socket.Reading.{buffered}
use adb_daemon_rs.Transport.Socket.Flow.{start}
use adb_daemon_rs.Transport.Router.{finishes, PendingSocket, accept, allocate, route}
use adb_daemon_rs.Transport.System.{Config, put, noted_by, accepts, receives, Reach, here, next}
use adb_daemon_rs.Transport.System.Validity.{IsValid}
use adb_daemon_rs.Transport.System.Life.{started, started-IsValid, Reach-IsValid, reached_sockets}
use adb_daemon_rs.Tests.Setup.{over_usb, idle_usb, no_banner, some_bytes}

abbrev new_transport : Config over_usb
new_transport = started over_usb idle_usb no_banner

abbrev offered : PendingSocket
offered = record { remote_id = 9; acknowledged = 10; service = codes "tcp:80" }

abbrev serving : Config over_usb
serving = record {
  transport = (accept new_transport.transport offered).2;
  traces = put 0 (start over_usb 10) new_transport.traces;
}

abbrev data_message : AdbMessage
data_message = new_message wrte 9 1 some_bytes

accepting : Reach over_usb new_transport serving
unfolding accept allocate insert lookup
accepting = next here (accepts offered _ 0 _ (omega arith) refl refl)

-- The socket with the bytes that arrived.
abbrev holding : SocketBackend
holding = record (new_socket 1 9 10) {
  state = record (new_socket 1 9 10).state { read_buffer = some_bytes ∷ [] };
}

abbrev received : Config over_usb
received = record {
  transport = record serving.transport { heap = holding ∷ []; notices = read_waker 1 ∷ [] };
  traces = noted_by serving.transport data_message (finishes (ok tt)) serving.traces;
}

receiving : Reach over_usb new_transport received
unfolding accept allocate insert lookup route handle_message
receiving = next accepting (receives data_message (finishes (ok tt)) received.transport refl refl)

Reach-IsValid_example : IsValid over_usb received
Reach-IsValid_example =
    Reach-IsValid over_usb receiving (started-IsValid over_usb idle_usb no_banner)

reached_sockets_example :
    let tr = received.traces 0 in
    (tr.granted < usize_mod → tr.used ≤ tr.granted)
    × (tr.delivered ++ buffered holding.state.read_buffer ≡ tr.arrived)
reached_sockets_example = reached_sockets over_usb idle_usb no_banner 0 holding receiving refl
