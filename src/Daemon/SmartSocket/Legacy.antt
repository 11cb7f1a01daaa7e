-- ===== src/Daemon/SmartSocket/Legacy.antt =====
-- The two forms of a service that names a transport.
use adb_daemon_rs.Base.{
  ℕ, ◌≡◌, refl, ap, Bool, true, false, List, [], ◌∷◌, ◌++◌, Bytes, Result, ok, err, bytes_eq,
}
use adb_daemon_rs.Text.{codes, strip_prefix}
use adb_daemon_rs.Daemon.ProtocolString.{ReadError, read_protocol_string}
use adb_daemon_rs.Daemon.Manager.{Connection, ConnectionMgr}
use adb_daemon_rs.Daemon.Forward.{Piece, status_okay, raw}
use adb_daemon_rs.Daemon.SmartSocket.{
  serial, PickDeviceError, SmartSocket, write, Failure, service_read, read_service, select,
  keep_picked, pick_connection, u64_bytes, transport_picked, select_transport, consume_legacy,
  consume_tport, consume_device_selector,
}

legacy_runs :
    (closed : ℕ → Bool) (m : ConnectionMgr) (s : SmartSocket) (name : Bytes)
    → consume_device_selector closed m s (codes "host:transport:" ++ name)
      ≡ transport_picked true (pick_connection closed m (record s { device = serial name }))
unfolding consume_device_selector consume_legacy consume_tport select_transport strip_prefix
legacy_runs closed m s name = refl

tport_runs :
    (closed : ℕ → Bool) (m : ConnectionMgr) (s : SmartSocket) (name : Bytes)
    → consume_device_selector closed m s (codes "host:tport:serial:" ++ name)
      ≡ transport_picked false (pick_connection closed m (record s { device = serial name }))
unfolding consume_device_selector consume_legacy consume_tport select_transport strip_prefix
tport_runs closed m s name = refl

-- The two agree but for the id of a connection that was picked.
pub record Agree (picked : Result PickDeviceError Connection) (output : List Piece)
    (legacy tport : Result Failure Bytes × SmartSocket) : Type 0 where
  pub result : legacy.0 ≡ tport.0
  pub device : legacy.1.device ≡ tport.1.device
  pub input : legacy.1.input ≡ tport.1.input
  pub refused :
      (e : PickDeviceError)
      → picked ≡ err e
      → (legacy.1.output ≡ output) × (tport.1.output ≡ output)
  pub told :
      (c : Connection)
      → picked ≡ ok c
      → (legacy.1.output ≡ output ++ status_okay ∷ [])
        × (tport.1.output ≡ output ++ status_okay ∷ raw (u64_bytes c.id) ∷ [])

told_id :
    (output : List Piece) (c d : Connection)
    → Path (Result PickDeviceError Connection) (ok c) (ok d)
    → output ++ status_okay ∷ raw (u64_bytes c.id) ∷ []
      ≡ output ++ status_okay ∷ raw (u64_bytes d.id) ∷ []
told_id output c d e =
    let same : c ≡ d = cc in
    ap (λ (x : Connection). output ++ status_okay ∷ raw (u64_bytes x.id) ∷ []) same

service_read_agrees :
    (s : SmartSocket) (c : Connection) (r : Result ReadError (Bytes × Bytes))
    → Agree
        (ok c)
        s.output
        (service_read (write (status_okay ∷ []) s) r)
        (service_read (write (status_okay ∷ raw (u64_bytes c.id) ∷ []) s) r)
service_read_agrees s c (err e) = record {
  result = refl;
  device = refl;
  input = refl;
  refused = λ e p. cc;
  told = λ d p. (refl, told_id s.output c d p);
}
service_read_agrees s c (ok (service, rest)) = record {
  result = refl;
  device = refl;
  input = refl;
  refused = λ e p. cc;
  told = λ d p. (refl, told_id s.output c d p);
}

transport_picked_agrees :
    (s : SmartSocket) (p : Result PickDeviceError Connection)
    → Agree p s.output
        (transport_picked true (p, keep_picked s p))
        (transport_picked false (p, keep_picked s p))
unfolding transport_picked read_service
transport_picked_agrees s (err e) = record {
  result = refl;
  device = refl;
  input = refl;
  refused = λ x w. (refl, refl);
  told = λ c w. cc;
}
transport_picked_agrees s (ok c) =
    service_read_agrees (keep_picked s (ok c)) c (read_protocol_string s.input)

-- A client that selects a device by the old form `host:transport:` gets the same as one that selects
-- it by `host:tport:serial:`: the same result, selection and unread input, and the same answer,
-- but for the eight bytes of the connection's id, which only the new form tells. If the device
-- cannot be picked, neither is told anything.
pub legacy_transport_lem :
    (closed : ℕ → Bool) (m : ConnectionMgr) (s : SmartSocket) (name : Bytes)
    → Agree
        (pick_connection closed m (record s { device = serial name })).0
        s.output
        (consume_device_selector closed m s (codes "host:transport:" ++ name))
        (consume_device_selector closed m s (codes "host:tport:serial:" ++ name))
legacy_transport_lem closed m s name =
    rw (legacy_runs closed m s name, tport_runs closed m s name)
      (unfold pick_connection in
        transport_picked_agrees (record s { device = serial name }) (select closed m (serial name)))
