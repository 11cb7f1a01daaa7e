-- ===== src/Tests/Router.antt =====
-- Runs of the transport and its reader.
use adb_daemon_rs.Base.{◌≢◌, [], ◌∷◌, panicked, arith, some, nat_eq, ==_iff}
use adb_daemon_rs.Base.Map.{lookup}
use adb_daemon_rs.Transport.Message.{AdbMessage, wrte, new_message}
use adb_daemon_rs.Transport.Backend.{Backend, write_message, poll_flush, poll_write_async}
use adb_daemon_rs.Transport.Backend.Closing.{
  WriteEnds, FlushEnds, connection_ends, poll_write_async_returns,
}
use adb_daemon_rs.Transport.Router.Allocation.{IsFresh}
use adb_daemon_rs.Tests.Setup.{over_usb, idle_usb, open_transport, busy_socket, some_bytes}

-- A transport with one socket in its map.
abbrev serving : Backend over_usb
serving = record (open_transport idle_usb) {
  last_id = 5;
  sockets = (4, 0) ∷ [];
  heap = busy_socket ∷ [];
}

serving-IsFresh : IsFresh serving
unfolding lookup
serving-IsFresh id place e = ground (arith, ==_iff 4 id)

abbrev carrying : AdbMessage
carrying = new_message wrte 9 4 some_bytes

connection_ends_example :
    WriteEnds over_usb serving (write_message over_usb serving carrying)
    × FlushEnds over_usb serving (poll_flush over_usb serving 3)
connection_ends_example = connection_ends over_usb serving carrying 3 tt

poll_write_async_returns_example : poll_write_async over_usb serving 3 (some carrying) ≢ panicked
poll_write_async_returns_example = poll_write_async_returns over_usb serving 3 (some carrying)
