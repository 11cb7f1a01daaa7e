-- ===== src/Tests/Sockets.antt =====
-- Runs of sockets over USB.
use adb_daemon_rs.Base.{ℕ, ◌≡◌, refl, [], ◌∷◌, Bytes, true, false, done, panicked, some, ok, ready}
use adb_daemon_rs.Transport.Message.{AdbMessage, okay, wrte, new_message, to_vec}
use adb_daemon_rs.Transport.Endpoint.{of_bytes}
use adb_daemon_rs.Transport.Usb
use adb_daemon_rs.Transport.Usb.{Usb}
use adb_daemon_rs.Transport.Backend.{SocketBackend, write_waker, read_waker, Backend}
use adb_daemon_rs.Transport.Socket.Delivery.{HandleRuns, handle_message_delivers}
use adb_daemon_rs.Transport.Socket.Race.{poll_shutdown_race}
use adb_daemon_rs.Transport.Socket.{
  handle_message, new_socket, Outcome, poll_read, poll_write, poll_shutdown, poll_flush_socket,
}
use adb_daemon_rs.Transport.Socket.Reading.{Reads, poll_read_lem}
use adb_daemon_rs.Tests.Setup.{
  over_usb, scripted, idle_usb, open_transport, busy_socket, some_bytes,
}

poll_read_lem_example :
    (bytes : Bytes) × (o : Outcome over_usb (Unit {0})) × (poll_read over_usb
        (open_transport idle_usb)
        busy_socket
        2
        0
      ≡ done (bytes, o))
    × Reads over_usb busy_socket 2 bytes o
poll_read_lem_example = poll_read_lem over_usb (open_transport idle_usb) busy_socket 2 0

abbrev granting : AdbMessage
granting = new_message okay 9 4 (5 ∷ 0 ∷ 0 ∷ 0 ∷ [])

abbrev carrying : AdbMessage
carrying = new_message wrte 9 4 some_bytes

handle_message_delivers_example :
    HandleRuns busy_socket granting (handle_message busy_socket granting)
handle_message_delivers_example = handle_message_delivers busy_socket granting

abbrev fresh_socket : SocketBackend
fresh_socket = new_socket 4 9 0

abbrev granted_socket : SocketBackend
granted_socket = record fresh_socket { state = record fresh_socket.state { acknowledged = 5 } }

abbrev filled_socket : SocketBackend
filled_socket = record granted_socket {
  state = record granted_socket.state { read_buffer = some_bytes ∷ [] };
}

granting_runs :
    handle_message fresh_socket granting
    ≡ done
        (ok (record { socket = granted_socket; notices = write_waker 4 ∷ []; is_closed = false }))
unfolding handle_message
granting_runs = refl

carrying_runs :
    handle_message granted_socket carrying
    ≡ done (ok (record { socket = filled_socket; notices = read_waker 4 ∷ []; is_closed = false }))
unfolding handle_message
carrying_runs = refl

-- A socket that sends two bytes of its credit.
abbrev spent_socket : SocketBackend
spent_socket = record filled_socket { state = record filled_socket.state { acknowledged = 3 } }

abbrev sending : AdbMessage
sending = new_message wrte 4 9 (1 ∷ 2 ∷ [])

abbrev sending_usb : Usb scripted scripted
sending_usb = record idle_usb {
  out_endpoint = record {
    waiting = of_bytes (to_vec sending.header) ∷ of_bytes sending.payload ∷ [];
    packets = [];
  };
}

abbrev woken_by : ℕ → Usb scripted scripted → Backend over_usb
woken_by waker u = record (open_transport u) {
  connection = some (record { inner = u; write_wakers = waker ∷ [] });
}

abbrev outcome : Outcome over_usb ℕ
outcome = record {
  result = ready (ok 2);
  transport = woken_by 0 sending_usb;
  socket = spent_socket;
}

writing_runs :
    poll_write over_usb (open_transport idle_usb) filled_socket (1 ∷ 2 ∷ []) true 0 ≡ done outcome
unfolding poll_write
writing_runs = unfold to_vec Usb.poll_flush Usb.write_message in refl

abbrev settled_socket : SocketBackend
settled_socket = record busy_socket { state = record busy_socket.state { acknowledged = 12 } }

settled_flushes :
    (poll_flush_socket over_usb (open_transport idle_usb) settled_socket 0).result ≡ ready (ok tt)
unfolding poll_flush_socket
settled_flushes = unfold Usb.poll_flush in refl

poll_shutdown_race_example :
    poll_shutdown over_usb
      (λ _ _. (woken_by 0 sending_usb, busy_socket))
      (open_transport idle_usb)
      settled_socket
      0
    ≡ panicked
poll_shutdown_race_example =
    poll_shutdown_race scripted scripted (open_transport idle_usb) (woken_by 0 sending_usb)
      settled_socket busy_socket (record { inner = sending_usb; write_wakers = 0 ∷ [] }) 0
      settled_flushes refl refl (λ e. cc) refl
