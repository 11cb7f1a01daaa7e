-- ===== src/Daemon/SmartSocket/Waiting.antt =====
-- The services of src/smart_socket/services.rs that wait for updates, and `wait_for` of
-- src/smart_socket/mod.rs.
pub mod Tracking
pub mod Answering
use adb_daemon_rs.Base.{
  ℕ, Bool, true, false, ◌||◌, List, [], ◌∷◌, ◌++◌, Bytes, Option, none, some, Result, ok, err,
  nat_eq, bytes_eq, ◌==◌, if◌then◌else◌,
}
use adb_daemon_rs.Text.{codes, strip_prefix, ends_with}
use adb_daemon_rs.Transport.Banner.{DeviceType, device, other_type, features_str}
use adb_daemon_rs.Daemon.Proto.{Report}
use adb_daemon_rs.Daemon.Manager.{Connection, ConnectionMgr, get, iter}
use adb_daemon_rs.Daemon.Forward.{
  Piece, status_okay, status_fail, pstring, raw, Listeners, Surroundings, handle_forward,
  ReverseForwards, handle_reverse,
}
use adb_daemon_rs.Daemon.SmartSocket.{
  DeviceSelector, PickDeviceError, not_selected, no_devices, more_than_one, not_found, describe,
  SmartSocket, write, no_selector, Failure, hung_up_early, report, read_service, pick_connection,
  consume_device_selector,
}
use adb_daemon_rs.Daemon.SmartSocket.Listing.{list_devices}

-- The daemon, as the services see it. A connection is dropped when no strong handle is left.
pub record World : Type 0 where
  pub connections : ConnectionMgr
  pub is_dropped : ℕ → Bool
  pub backend_closed : ℕ → Bool
  pub listeners : Listeners
  pub reverse : ℕ → ReverseForwards

-- `WeakConnection::is_closed`.
abbrev pub is_closed : World → ℕ → Bool
is_closed w id = w.is_dropped id || w.backend_closed id

-- How a service ends: well, with an error, as a relay of bytes for a service of a connection, with the
-- end of the process, or not yet.
pub data ServiceEnd : Type 0 where
  replies exits waits : ServiceEnd
  fails : Failure → ServiceEnd
  relays : Connection → Bytes → ServiceEnd

pub record Served : Type 0 where
  pub ends : ServiceEnd
  pub socket : SmartSocket
  pub world : World

-- What a waiting service may see: an update, after which the world is another one; updates that were
-- missed, with the channel's message; and that the client hangs up, sends something, or cannot be
-- read, with the system's message.
pub data Event : Type 0 where
  updated : World → Event
  missed_update breaks : Report → Event
  hangs_up speaks : Event

-- The world behind some updates.
abbrev pub world_after : World → List World → World
world_after w [] = w
world_after w (w' ∷ ws) = world_after w' ws

-- What the rest of the system answers while a service runs.
pub record Outside : Type 0 where
  -- `DeviceType::to_string`, `ForwardingMgr`'s calls of the system, and `open_socket`.
  pub show : DeviceType → Bytes
  pub forwarding : Surroundings
  pub open_socket : Connection → Bytes → Result Report (Unit {0})
  -- The worlds behind the updates that come between a first listing and the subscription.
  pub gap : List World
  pub events : List Event

abbrev pub end_with : ServiceEnd → SmartSocket → World → Served
end_with ends s w = record { ends = ends; socket = s; world = w }

abbrev pub reply : List Piece → SmartSocket → World → Served
reply pieces s w = end_with replies (write pieces s) w

abbrev pub fail : Report → SmartSocket → World → Served
fail r s w = end_with (fails (report r)) s w

unfoldable pub picked : World → SmartSocket → Result PickDeviceError Connection × SmartSocket
unfolding pick_connection
picked w s = pick_connection (is_closed w) w.connections s

-- `pick_connection()?` and `upgrade()?`, and what follows them.
unfoldable pub with_picked :
    World
    → (Connection → SmartSocket → Served)
    → Result PickDeviceError Connection × SmartSocket
    → Served
unfolding describe
with_picked w rest (err e, s) = fail (describe e) s w
with_picked w rest (ok c, s) = rest c s

unfoldable pub upgraded : World → Connection → SmartSocket → Served → Served
upgraded w c s rest = if w.is_dropped c.id then fail (codes "device disconnected") s w else rest

module _ (show : DeviceType → Bytes) where
  unfoldable pub listing : Bool → World → Bytes
  unfolding list_devices iter
  listing long w = list_devices show long (iter (is_closed w) w.connections)

  -- The loop of `track-devices`.
  track : Bool → World → SmartSocket → List Event → Served
  unfolding listing
  track long w s [] = end_with waits s w
  track long w s (updated w' ∷ es) = track long w' (write (pstring (listing long w') ∷ []) s) es
  track long w s (missed_update r ∷ es) = fail r s w
  track long w s (hangs_up ∷ es) = end_with replies s w
  track long w s (speaks ∷ es) = fail (codes "should not read anything") s w
  track long w s (breaks r ∷ es) = fail r s w

  -- `track-devices`: the world `w` is that of the first listing. The channel of updates is asked for
  -- behind the await that writes it, so nothing is received of the updates of `gap`.
  unfoldable pub track_devices : Bool → World → SmartSocket → List World → List Event → Served
  unfolding track
  track_devices long w s gap es =
      track long (world_after w gap) (write (status_okay ∷ pstring (listing long w) ∷ []) s) es

-- Whether `wait-for-any-device` is done, goes on to wait, or fails.
pub data Waited : Type 0 where
  arrived goes_on : Waited
  cannot : PickDeviceError → Waited

abbrev by_type : DeviceType → Waited
by_type device = arrived
by_type (other_type _) = goes_on

unfoldable pub waited : Result PickDeviceError Connection → Waited
waited (ok c) = by_type c.banner.device_type
waited (err no_devices) = goes_on
waited (err (not_found _)) = goes_on
waited (err e) = cannot e

after_wait : World → (SmartSocket → Served) → Waited × SmartSocket → Served
unfolding describe
after_wait w rest (arrived, s) = reply (status_okay ∷ []) s w
after_wait w rest (goes_on, s) = rest s
after_wait w rest (cannot e, s) = fail (describe e) s w

-- One round: the selector as it was at first, and a new pick.
wait_round : World → DeviceSelector → SmartSocket → (SmartSocket → Served) → Served
unfolding after_wait waited picked
wait_round w selector s rest =
    let (r, s') = picked w (record s { device = selector }) in after_wait w rest (waited r, s')

wait_device : World → DeviceSelector → SmartSocket → List Event → Served
unfolding wait_round
wait_device w selector s [] = wait_round w selector s (λ s'. end_with waits s' w)
wait_device w selector s (updated w' ∷ es) =
    wait_round w selector s (λ s'. wait_device w' selector s' es)
wait_device w selector s (missed_update r ∷ es) = wait_round w selector s (λ s'. fail r s' w)
wait_device w selector s (hangs_up ∷ es) =
    wait_round w selector s (λ s'. reply (status_okay ∷ []) s' w)
wait_device w selector s (speaks ∷ es) =
    wait_round w selector s (λ s'. fail (codes "should not read anything") s' w)
wait_device w selector s (breaks r ∷ es) = wait_round w selector s (λ s'. fail r s' w)

-- `wait-for-any-device`.
unfoldable pub wait_for_any : World → SmartSocket → List Event → Served
unfolding wait_device
wait_for_any w s es = wait_device w s.device (write (status_okay ∷ []) s) es
