-- ===== src/Daemon/SmartSocket/Waiting/Tracking.antt =====
-- What a client that tracks or waits for devices is told.
use adb_daemon_rs.Base.{
  ◌≡◌, refl, ◌∙◌, sym, ap, Bool, List, [], ◌∷◌, ◌++◌, append_assoc, append-nil, Bytes, Result, ok,
  err, All,
}
use adb_daemon_rs.Transport.Banner.{DeviceType}
use adb_daemon_rs.Daemon.Manager.{Connection}
use adb_daemon_rs.Daemon.Forward.{Piece, status_okay, pstring}
use adb_daemon_rs.Daemon.SmartSocket.{
  DeviceSelector, PickDeviceError, SmartSocket, write, select, keep_picked, pick_connection, report,
}
use adb_daemon_rs.Daemon.SmartSocket.Waiting.{
  is_closed, World, world_after, ServiceEnd, replies, waits, fails, Served, Event, updated,
  missed_update, hangs_up, speaks, breaks, picked, listing, track, track_devices, Waited, arrived,
  goes_on, waited, wait_round, after_wait, wait_device, wait_for_any,
}

-- The worlds behind the updates that come before anything else.
abbrev pub worlds : List Event → List World
worlds [] = []
worlds (updated w ∷ es) = w ∷ worlds es
worlds (_ ∷ es) = []

-- How the events end that wait.
abbrev pub Ending : List Event → ServiceEnd → Type 0
Ending [] ends = ends ≡ waits
Ending (updated w ∷ es) ends = Ending es ends
Ending (hangs_up ∷ es) ends = ends ≡ replies
Ending (_ ∷ es) ends = (r : Bytes) × (ends ≡ fails (report r))

module _ (show : DeviceType → Bytes) where
  -- One listing for each world.
  abbrev pub listings : Bool → List World → List Piece
  listings long [] = []
  listings long (w ∷ ws) = pstring (listing show long w) ∷ listings long ws

  track-listings :
      (long : Bool) (w : World) (s : SmartSocket) (es : List Event)
      → ((track show long w s es).socket.output ≡ s.output ++ listings long (worlds es))
        × Ending es (track show long w s es).ends
  unfolding track
  track-listings long w s [] = (sym (append-nil s.output), refl)
  track-listings long w s (updated w' ∷ es) =
      let (out, ends) = track-listings long w' (write (pstring (listing show long w') ∷ []) s) es in
      (
        out
            ∙ append_assoc s.output (pstring (listing show long w') ∷ [])
                (listings long (worlds es)),
        ends,
      )
  track-listings long w s (missed_update r ∷ es) = (sym (append-nil s.output), (r, refl))
  track-listings long w s (hangs_up ∷ es) = (sym (append-nil s.output), refl)
  track-listings long w s (speaks ∷ es) = (sym (append-nil s.output), (_, refl))
  track-listings long w s (breaks r ∷ es) = (sym (append-nil s.output), (r, refl))

  -- A client that tracks devices gets `OKAY`, the listing of the devices as they are, no listing for the
  -- updates that come before the service subscribes to them, and then one listing for each update, of
  -- the devices as they are then. So if no update comes behind those of the gap, the last listing is of
  -- the devices before the gap. The service waits for more until the client hangs up, which is a good
  -- end, or sends something, cannot be read or misses an update behind its subscription, which is an
  -- error.
  pub track_devices_lem :
      (long : Bool) (w : World) (s : SmartSocket) (gap : List World) (es : List Event)
      → ((track_devices show long w s gap es).socket.output
          ≡ s.output ++ (status_okay ∷ listings long (w ∷ worlds es)))
        × Ending es (track_devices show long w s gap es).ends
  unfolding track_devices
  track_devices_lem long w s gap es =
      let first = status_okay ∷ pstring (listing show long w) ∷ [] in
      let (out, ends) = track-listings long (world_after w gap) (write first s) es in
      (out ∙ append_assoc s.output first (listings long (worlds es)), ends)

-- What a round of waiting makes of the world.
abbrev pub sees : World → DeviceSelector → Waited
sees w selector = waited (select (is_closed w) w.connections selector)

keep_picked_output :
    (s : SmartSocket) (r : Result PickDeviceError Connection) → (keep_picked s r).output ≡ s.output
keep_picked_output s (ok c) = refl
keep_picked_output s (err e) = refl

round_goes_on :
    (w : World) (selector : DeviceSelector) (s : SmartSocket) (rest : SmartSocket → Served)
    → sees w selector ≡ goes_on
    → (s' : SmartSocket) × (s'.output ≡ s.output) × (wait_round w selector s rest ≡ rest s')
unfolding wait_round picked pick_connection after_wait
round_goes_on w selector s rest e = (
  keep_picked (record s { device = selector }) (select (is_closed w) w.connections selector),
  keep_picked_output _ _,
  rw e,
)

round_arrives :
    (w : World) (selector : DeviceSelector) (s : SmartSocket) (rest : SmartSocket → Served)
    → sees w selector ≡ arrived
    → ((wait_round w selector s rest).ends ≡ replies)
      × ((wait_round w selector s rest).socket.output ≡ s.output ++ status_okay ∷ [])
unfolding wait_round picked pick_connection after_wait
round_arrives w selector s rest e = rw e (
  refl,
  ap (λ out. out ++ status_okay ∷ []) (keep_picked_output (record s { device = selector }) _),
)

-- The service is done as soon as the device is there.
device_arrives :
    (w : World) (selector : DeviceSelector) (s : SmartSocket) (es : List Event)
    → sees w selector ≡ arrived
    → ((wait_device w selector s es).ends ≡ replies)
      × ((wait_device w selector s es).socket.output ≡ s.output ++ status_okay ∷ [])
unfolding wait_device
device_arrives w selector s [] e = round_arrives w selector s _ e
device_arrives w selector s (updated w' ∷ es) e = round_arrives w selector s _ e
device_arrives w selector s (missed_update r ∷ es) e = round_arrives w selector s _ e
device_arrives w selector s (hangs_up ∷ es) e = round_arrives w selector s _ e
device_arrives w selector s (speaks ∷ es) e = round_arrives w selector s _ e
device_arrives w selector s (breaks r ∷ es) e = round_arrives w selector s _ e

-- Updates, one after another, and then what follows.
abbrev pub updates : List World → List Event → List Event
updates [] es = es
updates (w ∷ ws) es = updated w ∷ updates ws es

device_awaited :
    (w last : World) (ws : List World) (selector : DeviceSelector) (s : SmartSocket)
    (es : List Event)
    → All (λ x. sees x selector ≡ goes_on) (w ∷ ws)
    → sees last selector ≡ arrived
    → let r = wait_device w selector s (updates ws (updated last ∷ es)) in
      (r.ends ≡ replies) × (r.socket.output ≡ s.output ++ status_okay ∷ [])
unfolding wait_device
device_awaited w last [] selector s es (h, _) e =
    let (s', out, run) = round_goes_on w selector s (λ s'. wait_device last selector s' es) h in
    let (ends, output) = device_arrives last selector s' es e in
    rw run (ends, output ∙ ap (λ o. o ++ status_okay ∷ []) out)
device_awaited w last (w' ∷ ws) selector s es (h, hs) e =
    let (s', out, run) =
      round_goes_on w selector s (λ s'. wait_device w' selector s' (updates ws (updated last ∷ es)))
        h in
    let (ends, output) = device_awaited w' last ws selector s' es hs e in
    rw run (ends, output ∙ ap (λ o. o ++ status_okay ∷ []) out)

-- A client that waits for a device is answered: if the devices are not there at first and not after
-- some updates, but the next update brings one device that the client's selector stands for, the
-- service ends well, and the client got one `OKAY` at first and another one then.
pub wait_for_any_answers :
    (w last : World) (ws : List World) (s : SmartSocket) (es : List Event)
    → All (λ x. sees x s.device ≡ goes_on) (w ∷ ws)
    → sees last s.device ≡ arrived
    → let r = wait_for_any w s (updates ws (updated last ∷ es)) in
      (r.ends ≡ replies) × (r.socket.output ≡ s.output ++ (status_okay ∷ status_okay ∷ []))
unfolding wait_for_any
wait_for_any_answers w last ws s es waiting there =
    let (ends, output) =
      device_awaited w last ws s.device (write (status_okay ∷ []) s) es waiting there in
    (ends, output ∙ append_assoc s.output (status_okay ∷ []) (status_okay ∷ []))
