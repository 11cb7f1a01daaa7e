-- ===== src/Transport/Router.antt =====
-- The reader task and the life of sockets in packages/transport/src/transport.rs: the rest of
-- `TransportBackend`, `PendingSocket` and `Transport`. What an `.await` splits is split here: a
-- function is what runs between two of them.
pub mod Routing
pub mod Allocation
pub mod Keeping
use adb_daemon_rs.Base.{
  ℕ, suc, ◌+◌, ◌%◌, List, [], ◌∷◌, ◌++◌, Bool, true, false, Bytes, length, get_elem?, set, Option,
  none, some, Result, ok, err, Poll, pending, ready, Run, done, panicked, ltb, if◌then◌else◌, ◌==◌,
  nat_eq,
}
use adb_daemon_rs.Base.Map.{lookup, insert, remove}
use adb_daemon_rs.Words.{u32_mod, to_le_bytes}
use adb_daemon_rs.Text.{codes}
use adb_daemon_rs.Text.Utf8.{is_utf8}
use adb_daemon_rs.Transport.Error.{Error, of_kind, new, closed, invalid_data, text, transport_error}
use adb_daemon_rs.Transport.Message.{
  AdbMessage, AdbCommand, sync, cnxn, open_, okay, wrte, clse, auth, stls, new_message,
}
use adb_daemon_rs.Transport.Connection.{Connection}
use adb_daemon_rs.Transport.Backend.{
  SocketBackend, TransportBackend, Notice, delayed_ack_bytes, check_error, remove_socket, on_error,
}
use adb_daemon_rs.Transport.Socket.{Handled, handle_message, new_socket}

-- `PendingSocket`, without the transport that it belongs to.
pub record PendingSocket : Type 0 where
  pub remote_id : ℕ
  pub acknowledged : ℕ
  pub service : Bytes

-- `if payload.last() == Some(&0) { payload.pop(); }`.
unfoldable pub pop_zero : Bytes → Bytes
pop_zero [] = []
pop_zero (c ∷ []) = if c == 0 then [] else c ∷ []
pop_zero (c ∷ d ∷ s) = c ∷ pop_zero (d ∷ s)

-- The next step of the reader task: it is done with the message, or it offers a socket.
pub data Next : Type 0 where
  finishes : Result Error (Unit {0}) → Next
  offers : PendingSocket → Next

open_next : AdbMessage → Next
unfolding pop_zero
open_next m =
    let service = pop_zero m.payload in
    if is_utf8 service
    then offers
        (record { remote_id = m.header.arg0; acknowledged = m.header.arg1; service = service })
    else finishes (err (new invalid_data (text (codes "service is not utf8"))))

-- `PendingSocket::close`: the message that refuses the socket.
abbrev pub close_pending : PendingSocket → AdbMessage
close_pending p = new_message clse 0 p.remote_id []

-- The channel of pending sockets holds three; `none` when the receiver was dropped.
pub data Offer : Type 0 where
  queued : List PendingSocket → Offer
  blocked : Offer
  refused : AdbMessage → Offer

unfoldable pub offer : Option (List PendingSocket) → PendingSocket → Offer
offer none p = refused (close_pending p)
offer (some queue) p = if ltb (length queue) 3 then queued (queue ++ p ∷ []) else blocked

module _ {C : Type 0} where
  after_handling : TransportBackend C → ℕ → ℕ → Result Error Handled → Next × TransportBackend C
  after_handling t id place (err e) = (finishes (err e), t)
  after_handling t id place (ok h) =
      let t' = record t { heap = set t.heap place h.socket; notices = t.notices ++ h.notices } in
      (finishes (ok tt), if h.is_closed then remove_socket id t' else t')

  handled_at :
      TransportBackend C → ℕ → ℕ → Run (Result Error Handled) → Run (Next × TransportBackend C)
  unfolding after_handling
  handled_at t id place panicked = panicked
  handled_at t id place (done r) = done (after_handling t id place r)

  -- An entry of the map is an `Arc`, so its place in the heap is there.
  to_place :
      TransportBackend C
      → ℕ
      → AdbMessage
      → ℕ
      → Option SocketBackend
      → Run (Next × TransportBackend C)
  unfolding handled_at handle_message
  to_place t id m place none = panicked
  to_place t id m place (some s) = handled_at t id place (handle_message s m)

  to_socket : TransportBackend C → ℕ → AdbMessage → Option ℕ → Run (Next × TransportBackend C)
  unfolding to_place
  to_socket t id m none = done (finishes (ok tt), t)
  to_socket t id m (some place) = to_place t id m place (get_elem? t.heap place)

  by_command : AdbCommand → TransportBackend C → AdbMessage → Run (Next × TransportBackend C)
  unfolding open_next to_socket lookup
  by_command open_ t m = done (open_next m, t)
  by_command okay t m = to_socket t m.header.arg1 m (lookup m.header.arg1 t.sockets)
  by_command wrte t m = to_socket t m.header.arg1 m (lookup m.header.arg1 t.sockets)
  by_command clse t m = to_socket t m.header.arg1 m (lookup m.header.arg1 t.sockets)
  by_command _ t m = done (finishes (ok tt), t)

  -- `TransportBackend::handle_message` for the message that was read.
  unfoldable pub route : TransportBackend C → AdbMessage → Run (Next × TransportBackend C)
  unfolding by_command
  route t m = by_command m.header.command t m

  -- What `select!` gave to the reader: a message, an error, or the end of the transport.
  unfoldable pub handle_selected :
      TransportBackend C → Option (Result Error AdbMessage) → Run (Next × TransportBackend C)
  unfolding route
  handle_selected t none = done (finishes (ok tt), t)
  handle_selected t (some (err e)) = done (finishes (err e), t)
  handle_selected t (some (ok m)) = route t m

  -- `reader_task` at the end of a round: it goes on, or reports its error and stops.
  unfoldable pub reader_next :
      Result Error (Unit {0}) × TransportBackend C → Bool × TransportBackend C
  unfolding on_error
  reader_next (ok _, t) = (true, t)
  reader_next (err e, t) = (false, (on_error t e).1)

  -- A new socket under the next id: its place, its id and the transport.
  unfoldable pub allocate : TransportBackend C → ℕ → ℕ → ℕ × ℕ × TransportBackend C
  unfolding insert remove
  allocate t remote_id acknowledged =
      let id = t.last_id in
      let place = length t.heap in
      (
        place,
        id,
        record t {
          last_id = (t.last_id + 1) % u32_mod;
          sockets = insert id place t.sockets;
          heap = t.heap ++ new_socket id remote_id acknowledged ∷ [];
        },
      )

  -- `PendingSocket::accept`, up to the write of the message that it gives.
  unfoldable pub accept : TransportBackend C → PendingSocket → AdbMessage × ℕ × TransportBackend C
  unfolding allocate
  accept t p =
      let (place, id, t') = allocate t p.remote_id p.acknowledged in
      (new_message okay id p.remote_id (to_le_bytes delayed_ack_bytes), place, t')

  -- `Transport::open_socket`, up to the write of the message that it gives.
  unfoldable pub open_socket :
      TransportBackend C → Bytes → Result Error (AdbMessage × ℕ × TransportBackend C)
  unfolding allocate
  open_socket t service = elim t.error [
    | some e ↦ err (of_kind (transport_error e))
    | none ↦
        let (place, id, t') = allocate t 0 0 in
        ok (new_message open_ id delayed_ack_bytes (service ++ 0 ∷ []), place, t')
  ]

  -- The poll with which `open_socket` waits for the device.
  unfoldable pub poll_opened : TransportBackend C → SocketBackend → Poll (Result Error ℕ)
  poll_opened t s = elim t.error [
    | some e ↦ ready (err (of_kind (transport_error e)))
    | none ↦
        if s.state.remote_id == 0
        then if s.state.is_closed then ready (err (of_kind closed)) else pending
        else ready (ok s.state.remote_id)
  ]

  -- `Transport::close` and `Transport::is_closed`.
  unfoldable pub close : TransportBackend C → TransportBackend C
  unfolding on_error
  close t = (on_error t (of_kind closed)).1

  unfoldable pub is_closed : TransportBackend C → Bool
  is_closed t = elim t.error [ some e ↦ true | none ↦ false ]

  -- Dropping a `Socket` takes its id off the map.
  unfoldable pub drop_socket : TransportBackend C → SocketBackend → TransportBackend C
  unfolding remove
  drop_socket t s = remove_socket s.local_id t
