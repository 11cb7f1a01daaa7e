-- ===== src/Tests/Devices.antt =====
-- Two devices, of which one is excluded, and the handshake of the other.
use adb_daemon_rs.Base.{◌≢◌, refl, [], ◌∷◌, none, some, ok, false, arith, nat_eq, List, Result}
use adb_daemon_rs.Base.Map.{lookup, retain}
use adb_daemon_rs.Text.{codes}
use adb_daemon_rs.Text.Utf8.{is_utf8}
use adb_daemon_rs.Transport.Error.{Error}
use adb_daemon_rs.Transport.Message.{AdbMessage}
use adb_daemon_rs.Transport.Banner.{from_str, contains}
use adb_daemon_rs.Transport.Handshake.{authenticate, answer, handle_cnxn}
use adb_daemon_rs.Daemon.Config.{UsbConfig, is_whitelisted}
use adb_daemon_rs.Daemon.Manager.{
  MaybeConnection, remove_closed_connections, closed_values, drop_ids,
}
use adb_daemon_rs.Daemon.Discovery.{
  DeviceInfo, refresh_devices, refresh_usb, run_round, handshaking, create_usb_connection,
}
use adb_daemon_rs.Daemon.Discovery.Rounds.{
  Devices, rounds, ends, no_devices, Reach, at_start, later,
}
use adb_daemon_rs.Daemon.Discovery.Uniqueness.{IsSound, Reach-IsSound}
use adb_daemon_rs.Daemon.Discovery.Termination.{creation_terminates}
use adb_daemon_rs.Transport.Handshake.Ending.{ends_within}
use adb_daemon_rs.Tests.Setup.{over_usb, idle_usb}
use adb_daemon_rs.Tests.Handshake.{peer, first_token, connected}

abbrev config : UsbConfig
config = record { enabled = none; include = []; exclude = codes "nexus" ∷ [] }

abbrev listed : List DeviceInfo
listed =
    record { serial_number = some (codes "nexus"); opened = ok tt }
    ∷ record { serial_number = none; opened = ok tt }
    ∷ record { serial_number = some (codes "pixel"); opened = ok tt }
    ∷ []

abbrev task : MaybeConnection
task = record { id = 1; serial = codes "pixel" }

abbrev spawned : Devices
spawned = record { manager = no_devices.manager; tasks = task ∷ []; next = 2 }

after_round : Reach over_usb.State config spawned
unfolding run_round remove_closed_connections refresh_usb refresh_devices is_whitelisted contains
    lookup closed_values drop_ids retain
after_round =
    later at_start
      (rounds (λ id. false) (ok listed) (task ∷ [], 2) no_devices.manager (omega arith) refl)

abbrev messages : List (Result Error AdbMessage)
messages = ok first_token ∷ ok connected ∷ []

abbrev joined : Devices
joined = record {
  manager = (create_usb_connection peer idle_usb no_devices.manager task messages).1;
  tasks = [];
  next = 2;
}

after_end : Reach over_usb.State config joined
unfolding create_usb_connection authenticate answer handle_cnxn is_utf8 from_str contains
after_end = later after_round (ends [] [] task peer idle_usb messages _ _ refl refl (λ e. cc))

Reach-IsSound_example : IsSound joined
Reach-IsSound_example = Reach-IsSound config joined after_end

creation_terminates_example :
    (create_usb_connection peer idle_usb no_devices.manager task messages).0 ≢ handshaking
unfolding ends_within
creation_terminates_example =
    creation_terminates peer idle_usb no_devices.manager task messages refl
