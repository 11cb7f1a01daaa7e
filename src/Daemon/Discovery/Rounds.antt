-- ===== src/Daemon/Discovery/Rounds.antt =====
-- The manager while devices come and go: its rounds, and the tasks that end between them.
use adb_daemon_rs.Base.{
  ℕ, ◌+◌, ◌<◌, ◌≡◌, ◌≢◌, Bool, false, List, [], ◌∷◌, ◌++◌, length, none, some, Result, ok, err,
  bytes_eq,
}
use adb_daemon_rs.Words.{usize_mod}
use adb_daemon_rs.Transport.Error.{Error}
use adb_daemon_rs.Transport.Message.{AdbMessage}
use adb_daemon_rs.Transport.Backend.{TransportBackend}
use adb_daemon_rs.Transport.Handshake.{
  Peer, hello, AuthRun, AuthEnd, accepted, rejected, failed, waits, existing, new_key, authenticate,
}
use adb_daemon_rs.Daemon.Proto.{Report}
use adb_daemon_rs.Daemon.Config.{UsbConfig}
use adb_daemon_rs.Daemon.Manager.{MaybeConnection, ConnectionMgr, create, new_connection}
use adb_daemon_rs.Daemon.Discovery.{
  DeviceInfo, Spawned, run_round, Created, created, gave_up, handshaking, give_up, connected,
  offered, authenticated, greeted, create_usb_connection,
}

-- What a task may do to the manager: nothing, or it adds the connection that it was started for.
pub data Ends {C : Type 0} (m : ConnectionMgr) (conn : MaybeConnection)
    : Created C × ConnectionMgr → Type 0 where
  connects :
      (t : TransportBackend C)
      → Ends m conn (created (create conn t.banner) t, new_connection m (create conn t.banner))
  gives_up : (reset : Bool) → Ends m conn (gave_up reset, m)
  goes_on : Ends m conn (handshaking, m)

module _ {C : Type 0} (w : Peer) (c : C) (m : ConnectionMgr) (conn : MaybeConnection) where
  offered-Ends : (e : AuthEnd C) → Ends m conn (offered m conn e)
  unfolding offered connected give_up
  offered-Ends (accepted t) = connects t
  offered-Ends (rejected last) = gives_up false
  offered-Ends (failed e) = gives_up _
  offered-Ends waits = goes_on

  authenticated-Ends : (run : AuthRun C) → Ends m conn (authenticated w c m conn run)
  unfolding authenticated connected give_up
  authenticated-Ends run = by_end run.ends
    where
      by_end : (e : AuthEnd C) → Ends m conn (authenticated w c m conn (record run { ends = e }))
      by_end (accepted t) = connects t
      by_end (rejected last) = offered-Ends (authenticate w c (some last) run.unread new_key).ends
      by_end (failed e) = gives_up _
      by_end waits = goes_on

  pub creation-Ends :
      (ms : List (Result Error AdbMessage)) → Ends m conn (create_usb_connection w c m conn ms)
  unfolding create_usb_connection greeted
  creation-Ends ms = by_write (w.write hello)
    where
      by_write : (r : Result Error (Unit {0})) → Ends m conn (greeted w c m conn ms r)
      by_write (err e) = gives_up _
      by_write (ok _) = authenticated-Ends (authenticate w c none ms existing)

-- The manager, the tasks that have not ended, and the counter of ids.
pub record Devices : Type 0 where
  pub manager : ConnectionMgr
  pub tasks : List MaybeConnection
  pub next : ℕ

abbrev pub device_count : Result Report (List DeviceInfo) → ℕ
device_count (err e) = 0
device_count (ok ds) = length ds

-- A round of `run`, at which the ids have not run out, or the end of a task.
pub data Step (C : Type 0) (cfg : UsbConfig) (d : Devices) : Devices → Type 0 where
  rounds :
      (is_closed : ℕ → Bool) (listed : Result Report (List DeviceInfo)) (spawned : Spawned)
      (m : ConnectionMgr)
      → d.next + device_count listed < usize_mod
      → run_round cfg is_closed d.manager listed d.next ≡ (spawned, m)
      → Step C cfg d (record { manager = m; tasks = d.tasks ++ spawned.0; next = spawned.1 })
  ends :
      (before after : List MaybeConnection) (conn : MaybeConnection) (w : Peer) (c : C)
      (ms : List (Result Error AdbMessage)) (result : Created C) (m : ConnectionMgr)
      → d.tasks ≡ before ++ conn ∷ after
      → create_usb_connection w c d.manager conn ms ≡ (result, m)
      → result ≢ handshaking
      → Step C cfg d (record { manager = m; tasks = before ++ after; next = d.next })

-- The daemon at its start.
abbrev pub no_devices : Devices
no_devices = record {
  manager = record { by_serial = []; by_id = []; updates = [] };
  tasks = [];
  next = 1;
}

pub data Reach (C : Type 0) (cfg : UsbConfig) : Devices → Type 0 where
  at_start : Reach C cfg no_devices
  later : {d d' : Devices} → Reach C cfg d → Step C cfg d d' → Reach C cfg d'
