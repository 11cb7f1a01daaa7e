-- ===== src/Daemon/SmartSocket/Services/Answers.antt =====
-- Every answer starts with a status.
use adb_daemon_rs.Base.{
  ℕ, ◌≡◌, refl, inl, inr, Bool, true, false, ◌||◌, List, [], ◌++◌, Bytes, Option, none, some,
  Result, ok, err, nat_eq, bytes_eq, ◌==◌, if◌then◌else◌,
}
use adb_daemon_rs.Text.{codes, strip_prefix, split_once}
use adb_daemon_rs.Daemon.Proto.{Report}
use adb_daemon_rs.Daemon.Manager.{Connection, ConnectionMgr}
use adb_daemon_rs.Daemon.ProtocolString.{ReadError, read_protocol_string}
use adb_daemon_rs.Daemon.Forward.{Piece, Listeners, ReverseForwards, handle_reverse}
use adb_daemon_rs.Daemon.Forward.Replies.{status_first, handle_forward_first}
use adb_daemon_rs.Daemon.SmartSocket.{
  no_selector, PickDeviceError, SmartSocket, write, Failure, hung_up_early, report, service_read,
  read_service, keep_picked, pick_connection, transport_picked, select_transport, select_serial,
  consume_host, consume_serial, consume_tport, consume_legacy, consume_device_selector,
}
use adb_daemon_rs.Daemon.SmartSocket.Waiting.{
  is_closed, World, ServiceEnd, replies, exits, waits, fails, relays, Served, Outside, end_with,
  reply, picked,
}
use adb_daemon_rs.Daemon.SmartSocket.Waiting.Answering.{
  Quiet, Told, IsTold, first-append, with_device-IsTold, upgraded-IsTold, track_devices-IsTold,
  wait_for_any-IsTold,
}
use adb_daemon_rs.Daemon.SmartSocket.Services.{
  pick_report, forwarded, forward_service, host_service, opened, reversed, by_prefix, run_service,
  selected, handle_service, told, run,
}

reply-IsTold :
    (ps : List Piece) (s : SmartSocket) (w : World)
    → Quiet s.output
    → status_first ps ≡ true
    → IsTold (reply ps s w)
unfolding IsTold
reply-IsTold ps s w q f = first-append s.output ps q f

exits-IsTold :
    (ps : List Piece) (s : SmartSocket) (w : World)
    → Quiet s.output
    → status_first ps ≡ true
    → IsTold (end_with exits (write ps s) w)
unfolding IsTold
exits-IsTold ps s w q f = first-append s.output ps q f

forwarded-IsTold :
    (o : Outside) (w : World) (s : SmartSocket)
    (r : Option (Result Report (List Piece)) × Listeners)
    → Quiet s.output
    → ((ps : List Piece) → r.0 ≡ some (ok ps) → status_first ps ≡ true)
    → IsTold (forwarded o w s r)
unfolding forwarded IsTold
forwarded-IsTold o w s (none, ls) q h = q
forwarded-IsTold o w s (some (err e), ls) q h = q
forwarded-IsTold o w s (some (ok ps), ls) q h = first-append s.output ps q (h ps refl)

forward_service-IsTold :
    (o : Outside) (w : World) (s : SmartSocket) (service : Bytes)
    → Quiet s.output
    → IsTold (forward_service o w s service)
unfolding forward_service IsTold
forward_service-IsTold o w s service q = forwarded-IsTold o w s _ q (λ ps e.
    handle_forward_first
      (record o.forwarding { conn_closed = is_closed w; picked = pick_report (picked w s).0 })
      w.listeners service ps e)

-- A test in a chain of them.
if_IsTold : (b : Bool) (x y : Served) → IsTold x → IsTold y → IsTold (if b then x else y)
if_IsTold true x y h k = h
if_IsTold false x y h k = k

host_service-IsTold :
    (o : Outside) (w : World) (s : SmartSocket) (service : Bytes)
    → Quiet s.output
    → IsTold (host_service o w s service)
unfolding host_service
host_service-IsTold o w s service q =
    if_IsTold (service == codes "version") _ _ (reply-IsTold _ s w q refl) (
      if_IsTold (service == codes "is-adb-daemon-rs") _ _ (reply-IsTold _ s w q refl) (
        if_IsTold (service == codes "kill") _ _ (exits-IsTold _ s w q refl) (
          if_IsTold (service == codes "features") _ _
            (with_device-IsTold w s _ q
              (λ c s' q'. upgraded-IsTold w c s' _ q' (reply-IsTold _ s' w q' refl)))
            (if_IsTold (service == codes "devices" || service == codes "devices-l") _ _
              (reply-IsTold _ s w q refl)
              (if_IsTold (service == codes "track-devices" || service == codes "track-devices-l") _
                _ (track_devices-IsTold o.show _ w s o.gap o.events q)
                (if_IsTold (service == codes "get-state") _ _
                  (with_device-IsTold w s _ q (λ c s' q'. reply-IsTold _ s' w q' refl))
                  (if_IsTold (service == codes "wait-for-any-device") _ _
                    (wait_for_any-IsTold w s o.events q)
                    (if_IsTold (service == codes "reconnect") _ _
                      (with_device-IsTold w s _ q
                        (λ c s' q'. upgraded-IsTold w c s' _ q' (reply-IsTold _ s' _ q' refl)))
                      (if_IsTold (service == codes "reconnect-offline") _ _
                        (reply-IsTold _ s w q refl)
                        (forward_service-IsTold o w s service q))))))))))

reversed-IsTold :
    (o : Outside) (w : World) (c : Connection) (service : Bytes) (s : SmartSocket)
    (r : Result Report ReverseForwards)
    → Quiet s.output
    → IsTold (reversed o w c service s r)
unfolding reversed opened IsTold
reversed-IsTold o w c service s (err e) q = q
reversed-IsTold o w c service s (ok fs) q =
    let w' = record w { reverse = λ id. if id == c.id then fs else w.reverse id } in
    upgraded-IsTold w' c s _ q (opened_told w' (o.open_socket c service))
  where
    opened_told : (w' : World) (r : Result Report (Unit {0})) → IsTold (opened w' c service s r)
    opened_told w' (err e) = q
    opened_told w' (ok _) = first-append s.output _ q refl

by_prefix-IsTold :
    (o : Outside) (w : World) (s : SmartSocket) (service : Bytes) (rest : Option Bytes)
    → Quiet s.output
    → IsTold (by_prefix o w s service rest)
unfolding by_prefix IsTold
by_prefix-IsTold o w s service (some rest) q = host_service-IsTold o w s rest q
by_prefix-IsTold o w s service none q =
    with_device-IsTold w s _ q
      (λ c s' q'. reversed-IsTold o w c service s' (handle_reverse (w.reverse c.id) service) q')

run_service-IsTold :
    (o : Outside) (w : World) (r : Result Failure Bytes × SmartSocket)
    → Quiet r.1.output
    → IsTold (run_service o w r)
unfolding run_service IsTold
run_service-IsTold o w (err e, s) q = q
run_service-IsTold o w (ok service, s) q =
    by_prefix-IsTold o w s service (strip_prefix (codes "host:") service) q

-- Up to the choice of the device.
service_read-Quiet :
    (s : SmartSocket) (r : Result ReadError (Bytes × Bytes))
    → Quiet s.output
    → Quiet (service_read s r).1.output
service_read-Quiet s (err e) q = q
service_read-Quiet s (ok (service, rest)) q = q

abbrev QuietEnd : Result Failure Bytes × SmartSocket → Type 0
QuietEnd r = Quiet r.1.output

transport_picked-Quiet :
    (legacy : Bool) (s : SmartSocket) (p : Result PickDeviceError Connection)
    → Quiet s.output
    → QuietEnd (transport_picked legacy (p, keep_picked s p))
unfolding transport_picked read_service
transport_picked-Quiet true s (err e) q = q
transport_picked-Quiet false s (err e) q = q
transport_picked-Quiet true s (ok c) q =
    service_read-Quiet _ (read_protocol_string s.input) (inr (first-append s.output _ q refl))
transport_picked-Quiet false s (ok c) q =
    service_read-Quiet _ (read_protocol_string s.input) (inr (first-append s.output _ q refl))

module _ (closed : ℕ → Bool) (m : ConnectionMgr) (s : SmartSocket) (q : Quiet s.output) where
  transport_quiet :
      (legacy : Bool) (rest : Bytes) → QuietEnd (select_transport closed m s legacy rest)
  unfolding select_transport pick_connection
  transport_quiet legacy rest = transport_picked-Quiet legacy _ _ q

  serial_quiet : (service : Bytes) (o : Option Bytes) → QuietEnd (consume_serial s service o)
  unfolding consume_serial select_serial consume_host
  serial_quiet service (some rest) = split_quiet (split_once (codes ":") rest)
    where
      split_quiet : (o : Option (Bytes × Bytes)) → QuietEnd (select_serial s o)
      split_quiet none = q
      split_quiet (some (name, service)) = q
  serial_quiet service none = host_quiet (strip_prefix (codes "host:") service)
    where
      host_quiet : (o : Option Bytes) → QuietEnd (consume_host s service o)
      host_quiet none = q
      host_quiet (some rest) = q

  tport_quiet :
      (legacy : Bool) (service : Bytes) (o : Option Bytes)
      → QuietEnd (consume_tport closed m s legacy service o)
  unfolding consume_tport
  tport_quiet legacy service (some rest) = transport_quiet legacy rest
  tport_quiet legacy service none =
      serial_quiet service (strip_prefix (codes "host-serial:") service)

  consume_quiet : (service : Bytes) → QuietEnd (consume_device_selector closed m s service)
  unfolding consume_device_selector consume_legacy
  consume_quiet service = legacy_quiet (strip_prefix (codes "host:transport:") service)
    where
      legacy_quiet : (o : Option Bytes) → QuietEnd (consume_legacy closed m s service o)
      legacy_quiet none = tport_quiet false service (strip_prefix (codes "host:tport:") service)
      legacy_quiet (some name) =
          let service' = codes "host:tport:serial:" ++ name in
          tport_quiet true service' (strip_prefix (codes "host:tport:") service')

handle_service-IsTold :
    (o : Outside) (w : World) (s : SmartSocket) → Quiet s.output → IsTold (handle_service o w s)
unfolding handle_service read_service selected IsTold
handle_service-IsTold o w s q = selected_told (read_protocol_string s.input)
  where
    selected_told :
        (r : Result ReadError (Bytes × Bytes)) → IsTold (selected o w (service_read s r))
    selected_told (err e) = q
    selected_told (ok (service, rest)) =
        run_service-IsTold o w
          (consume_device_selector (is_closed w) w.connections (record s { input = rest }) service)
          (consume_quiet (is_closed w) w.connections (record s { input = rest }) q service)

-- What a client has read when `run` is over for it: nothing at most while a service waits or when the
-- client hung up early, and else a status first.
abbrev pub Answered : ServiceEnd → List Piece → Type 0
Answered (fails hung_up_early) ps = Quiet ps
Answered waits ps = Quiet ps
Answered _ ps = status_first ps ≡ true

told-Answered :
    (ends : ServiceEnd) (s : SmartSocket) (w : World)
    → Told ends s.output
    → let r = told (record { ends = ends; socket = s; world = w }) in
      Answered r.ends r.socket.output
told-Answered (fails hung_up_early) s w h = h
told-Answered (fails (report e)) s w h = first-append s.output _ h refl
told-Answered waits s w h = h
told-Answered replies s w h = h
told-Answered exits s w h = h
told-Answered (relays c service) s w h = h

-- Whatever a client sends, and whatever becomes of its service: what is written to it starts with a
-- status, `OKAY` or `FAIL`, and it is told something unless it hung up while its service was read or
-- the service still waits.
pub run_answers :
    (o : Outside) (w : World) (input : Bytes)
    → let r = run o w input in Answered r.ends r.socket.output
unfolding run IsTold
run_answers o w input =
    let start : SmartSocket = record { device = no_selector; input = input; output = [] } in
    let r = handle_service o w start in
    told-Answered r.ends r.socket r.world (handle_service-IsTold o w start (inl refl))
