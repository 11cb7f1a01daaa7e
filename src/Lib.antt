-- ===== src/Lib.antt =====
-- A verification library for adb-daemon-rs, a daemon that forwards adb clients to Android devices.
--
-- The crate packages/transport speaks the ADB protocol over one connection; the daemon's own crate,
-- under src, keeps the connections and serves the clients. The modules follow them:
--
--   Transport/Message     packages/transport/src/message.rs: headers and their bytes
--   Transport/Error       packages/transport/src/error.rs
--   Transport/Banner      packages/transport/src/banner.rs: what a device announces
--   Transport/Connection  packages/transport/src/connection/mod.rs: the trait, as an interface
--   Transport/Endpoint    the bulk endpoints of nusb, as an interface
--   Transport/Usb         packages/transport/src/connection/usb.rs: messages as bulk transfers
--   Transport/Backend     packages/transport/src/transport.rs: TransportBackend and its guard
--   Transport/Router      packages/transport/src/transport.rs: the reader, and the life of sockets
--   Transport/Handshake   packages/transport/src/transport.rs: AuthTransport
--   Transport/Socket      packages/transport/src/socket.rs: flow control and streams
--   Transport/PublicKey   packages/transport/src/auth.rs: the key as Android reads it
--   Transport/System      packages/transport/src/transport.rs and socket.rs: all tasks together
--   Daemon/Proto          src/forward.rs: forwards and commands
--   Daemon/Forward        src/forward.rs: ForwardingMgr, and accept_sockets_task of
--                         src/connection/usb.rs
--   Daemon/Manager        src/connection/manager.rs, with WeakConnection of src/connection/types.rs
--   Daemon/ProtocolString src/util.rs: strings behind their length
--   Daemon/Config         src/config.rs: the settings
--   Daemon/Discovery      src/connection/usb.rs, with the round of `run` of src/connection/manager.rs
--   Daemon/SmartSocket    src/smart_socket: the services of the clients
--   Daemon/Log            src/log.rs: RollingWriter, and the logs of the devices
--   Daemon/Startup        src/daemon.rs: the search for another server
--   Daemon/Program        src/main.rs and src/sys/unix.rs: the start of a process
--   Base, Words, Text     shared helpers: lists, maps, machine words, and functions of `str`
--   Tests                 concrete runs
--
-- How they interact. A socket locks its own state and the connection of its transport, flushes, and
-- writes a message; the transport's reader takes messages off the connection and hands them to the
-- socket that they name. `Socket` and `Backend` stand on the interface `Connection`, which
-- `Usb.Writing.usb_connection` fulfils for every pair of endpoints.
--
-- State and steps. A function is what the code does while it holds its locks, or between two awaits;
-- it takes the state and returns it. Sockets are shared: the transport's `heap` holds them, and its
-- map leads from an id to a place in the heap. The wakers that the code notifies are listed in
-- `notices`. A panic is `panicked`, an error an `err`, a poll that is not ready `pending`. Timers are
-- left out, but for the throttle of a write, whose answer is an argument, and so are logging and spans
-- outside of `Daemon.Log`.
--
-- Numbers. A `u32` and a `usize` are naturals whose wrap-around is written out, at 2 ^ 32 and 2 ^ 64;
-- sums wrap as in a release build. Texts are lists of bytes.
--
-- Bounds. The loop of `poll_read_message` has fuel for two rounds, a header and a payload; a third
-- would panic. The loop of the USB `poll_flush` has one round for each transfer that is queued,
-- since a round ends the loop or completes one. A `u16` is printed with fuel for five digits, the
-- length of a protocol string for sixteen, a descriptor for ten. A `BigUint` of a key has fuel for
-- 257 bytes, one more than a key that is accepted.
--
-- Interleavings. `Transport.System` has one step for each call of the reader, of a task that holds a
-- socket, and of those that open, accept and drop sockets, and a step may follow any other, as long as
-- the counter of ids does not wrap around at 2 ^ 32. A call is one step from its start to its end, but
-- for `poll_shutdown`, whose halves are two. In the program a call holds the lock of the connection all
-- the time, unless it fails: then `on_error` gives the lock up while it sets the error and takes the
-- connection, and another task may still use the connection in between. That is one step here.
-- `Daemon.Discovery.Rounds` has a step for each round of the manager and for each task that ends. A
-- service of a client that waits sees a list of events, and one that tracks devices misses the updates
-- before it subscribes.
--
-- The tasks that carry sockets and the logs of the devices are runs over lists of what the other parts
-- do, in any order.
--
-- Not modelled: the calls that open USB devices, the system's sockets, the channel of pending
-- sockets, which is one of flume, the copying of bytes behind a service or a forwarded port, which
-- tokio does, the layers of tracing that init puts together, the runtime's start, and
-- src/sys/windows.rs. The logs of the devices are those of one thread; where two threads make a
-- writer at once, the look-up and the insertion are not one step in the program.
pub mod Base
pub mod Words
pub mod Text
pub mod Transport
pub mod Daemon
mod Tests
