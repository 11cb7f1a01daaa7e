-- ===== src/Daemon/Discovery/Termination.antt =====
-- The task that makes a connection comes to an end.
use adb_daemon_rs.Base.{◌≡◌, ◌≢◌, ◌∙◌, true, false, List, ◌∷◌, none, some, Result, ok, err}
use adb_daemon_rs.Transport.Error.{Error}
use adb_daemon_rs.Transport.Message.{AdbMessage, auth}
use adb_daemon_rs.Transport.Handshake.{
  Peer, hello, AuthRun, AuthEnd, accepted, rejected, failed, waits, existing, new_key, authenticate,
}
use adb_daemon_rs.Transport.Handshake.Ending.{ends_within, Goes, first_run-Goes, next_run-Goes}
use adb_daemon_rs.Daemon.Manager.{MaybeConnection, ConnectionMgr}
use adb_daemon_rs.Daemon.Discovery.{
  Created, created, gave_up, handshaking, connected, give_up, offered, authenticated, greeted,
  create_usb_connection,
}

-- The result, if the task waits for a message, shows that the messages have no end.
abbrev Shows : {C : Type 0} → List (Result Error AdbMessage) → Created C → Type 0
Shows ms (created conn t) = Unit
Shows ms (gave_up reset) = Unit
Shows ms handshaking = ends_within ms 2 ≡ false

module _ {C : Type 0} (w : Peer) (c : C) (m : ConnectionMgr) (conn : MaybeConnection)
    (ms : List (Result Error AdbMessage)) where
  offered-Shows :
      (last : AdbMessage) (ms' unread : List (Result Error AdbMessage)) (e : AuthEnd C)
      → last.header.command ≡ auth
      → ends_within ms 2 ≡ ends_within ms' 0
      → Goes (some new_key) (ok last ∷ ms') unread e
      → Shows ms (offered m conn e).0
  unfolding offered connected give_up ends_within
  offered-Shows last ms' unread (accepted t) is same h = tt
  offered-Shows last ms' unread (rejected l) is same h = tt
  offered-Shows last ms' unread (failed e) is same h = tt
  offered-Shows last ms' unread waits is same h = same ∙ rw is at h 0

  authenticated-Shows :
      (run : AuthRun C)
      → Goes (some existing) ms run.unread run.ends
      → Shows ms (authenticated w c m conn run).0
  unfolding authenticated connected give_up
  authenticated-Shows run h = by_end run.ends h
    where
      by_end :
          (e : AuthEnd C)
          → Goes (some existing) ms run.unread e
          → Shows ms (authenticated w c m conn (record run { ends = e })).0
      by_end (accepted t) h = tt
      by_end (rejected last) (is, same) =
          offered-Shows last run.unread (authenticate w c (some last) run.unread new_key).unread _
            is (same 0) (next_run-Goes w c last run.unread new_key)
      by_end (failed e) h = tt
      by_end waits h = h 1

  creation-Shows : Shows ms (create_usb_connection w c m conn ms).0
  unfolding create_usb_connection greeted give_up
  creation-Shows = by_write (w.write hello)
    where
      by_write : (r : Result Error (Unit {0})) → Shows ms (greeted w c m conn ms r).0
      by_write (err e) = tt
      by_write (ok _) =
          authenticated-Shows (authenticate w c none ms existing) (first_run-Goes w c ms existing)

not_waiting :
    {C : Type 0} (ms : List (Result Error AdbMessage)) (x : Created C)
    → Shows ms x
    → ends_within ms 2 ≡ true
    → x ≢ handshaking
not_waiting ms (created conn t) shown ends h = cc
not_waiting ms (gave_up reset) shown ends h = cc
not_waiting ms handshaking shown ends h = cc

-- The task that makes a connection ends, with the connection or without, once the device's messages
-- come to a read that fails, to a `CNXN` message, or to a third `AUTH` message, whatever the messages
-- before and after it, and whatever the key and the writes give.
pub creation_terminates :
    {C : Type 0} (w : Peer) (c : C) (m : ConnectionMgr) (conn : MaybeConnection)
    (ms : List (Result Error AdbMessage))
    → ends_within ms 2 ≡ true
    → (create_usb_connection w c m conn ms).0 ≢ handshaking
creation_terminates w c m conn ms =
    not_waiting ms (create_usb_connection w c m conn ms).0 (creation-Shows w c m conn ms)
