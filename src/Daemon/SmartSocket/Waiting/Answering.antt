-- ===== src/Daemon/SmartSocket/Waiting/Answering.antt =====
-- What a client has been told whenever a service ends: a status comes first.
use adb_daemon_rs.Base.{
  ◌≡◌, refl, sym, ap, subst, ◌∙◌, ◌⊎◌, inl, inr, Bool, true, List, [], ◌∷◌, ◌++◌, Bytes, Result, ok,
  err, nat_eq, bytes_eq, if_cases,
}
use adb_daemon_rs.Transport.Banner.{DeviceType}
use adb_daemon_rs.Daemon.Manager.{Connection}
use adb_daemon_rs.Daemon.Forward.{Piece, status_okay, status_fail, pstring, raw}
use adb_daemon_rs.Daemon.Forward.Replies.{status_first}
use adb_daemon_rs.Daemon.SmartSocket.{
  DeviceSelector, PickDeviceError, SmartSocket, write, keep_picked, pick_connection, select,
}
use adb_daemon_rs.Daemon.SmartSocket.Waiting.{
  is_closed, World, world_after, ServiceEnd, replies, exits, waits, fails, relays, Served, Event,
  updated, missed_update, hangs_up, speaks, breaks, picked, with_picked, upgraded, listing, track,
  track_devices, Waited, arrived, goes_on, cannot, waited, after_wait, wait_round, wait_device,
  wait_for_any,
}

-- Nothing, or a status first.
abbrev pub Quiet : List Piece → Type 0
Quiet ps = (ps ≡ []) ⊎ (status_first ps ≡ true)

-- What a client was told when a service ended so.
abbrev pub Told : ServiceEnd → List Piece → Type 0
Told (fails f) ps = Quiet ps
Told waits ps = Quiet ps
Told replies ps = status_first ps ≡ true
Told exits ps = status_first ps ≡ true
Told (relays c service) ps = status_first ps ≡ true

unfoldable pub IsTold : Served → Type 0
IsTold r = Told r.ends r.socket.output

pub first-append :
    (ps qs : List Piece) → Quiet ps → status_first qs ≡ true → status_first (ps ++ qs) ≡ true
first-append [] qs q f = f
first-append (status_okay ∷ ps) qs q f = refl
first-append (status_fail ∷ ps) qs q f = refl
first-append (pstring s ∷ ps) qs (inl e) f = cc
first-append (pstring s ∷ ps) qs (inr e) f = cc
first-append (raw s ∷ ps) qs (inl e) f = cc
first-append (raw s ∷ ps) qs (inr e) f = cc

first_stays : (ps qs : List Piece) → status_first ps ≡ true → status_first (ps ++ qs) ≡ true
first_stays [] qs f = cc
first_stays (status_okay ∷ ps) qs f = refl
first_stays (status_fail ∷ ps) qs f = refl
first_stays (pstring s ∷ ps) qs f = cc
first_stays (raw s ∷ ps) qs f = cc

keep_picked_output :
    (s : SmartSocket) (r : Result PickDeviceError Connection) → (keep_picked s r).output ≡ s.output
keep_picked_output s (ok c) = refl
keep_picked_output s (err e) = refl

pub picked_output : (w : World) (s : SmartSocket) → (picked w s).1.output ≡ s.output
unfolding picked pick_connection
picked_output w s = keep_picked_output s (select (is_closed w) w.connections s.device)

pub with_picked-IsTold :
    (w : World) (rest : Connection → SmartSocket → Served)
    (p : Result PickDeviceError Connection × SmartSocket)
    → Quiet p.1.output
    → ((c : Connection) (s : SmartSocket) → Quiet s.output → IsTold (rest c s))
    → IsTold (with_picked w rest p)
unfolding with_picked IsTold
with_picked-IsTold w rest (err e, s) q h = q
with_picked-IsTold w rest (ok c, s) q h = h c s q

pub with_device-IsTold :
    (w : World) (s : SmartSocket) (rest : Connection → SmartSocket → Served)
    → Quiet s.output
    → ((c : Connection) (s' : SmartSocket) → Quiet s'.output → IsTold (rest c s'))
    → IsTold (with_picked w rest (picked w s))
unfolding IsTold
with_device-IsTold w s rest q =
    with_picked-IsTold w rest (picked w s) (subst Quiet (sym (picked_output w s)) q)

pub upgraded-IsTold :
    (w : World) (c : Connection) (s : SmartSocket) (rest : Served)
    → Quiet s.output
    → IsTold rest
    → IsTold (upgraded w c s rest)
unfolding upgraded IsTold
upgraded-IsTold w c s rest q h = if_cases IsTold (w.is_dropped c.id) _ rest (λ _. q) (λ _. h)

module _ (show : DeviceType → Bytes) (long : Bool) where
  track-IsTold :
      (w : World) (s : SmartSocket) (es : List Event)
      → status_first s.output ≡ true
      → IsTold (track show long w s es)
  unfolding track IsTold
  track-IsTold w s [] f = inr f
  track-IsTold w s (updated w' ∷ es) f =
      track-IsTold w' (write (pstring (listing show long w') ∷ []) s) es (first_stays s.output _ f)
  track-IsTold w s (missed_update r ∷ es) f = inr f
  track-IsTold w s (hangs_up ∷ es) f = f
  track-IsTold w s (speaks ∷ es) f = inr f
  track-IsTold w s (breaks r ∷ es) f = inr f

  pub track_devices-IsTold :
      (w : World) (s : SmartSocket) (gap : List World) (es : List Event)
      → Quiet s.output
      → IsTold (track_devices show long w s gap es)
  unfolding track_devices IsTold
  track_devices-IsTold w s gap es q =
      track-IsTold (world_after w gap) _ es (first-append s.output _ q refl)

after_wait-IsTold :
    (w : World) (rest : SmartSocket → Served) (d : Waited) (s : SmartSocket)
    → status_first s.output ≡ true
    → ((s' : SmartSocket) → status_first s'.output ≡ true → IsTold (rest s'))
    → IsTold (after_wait w rest (d, s))
unfolding after_wait IsTold
after_wait-IsTold w rest arrived s f h = first_stays s.output _ f
after_wait-IsTold w rest goes_on s f h = h s f
after_wait-IsTold w rest (cannot e) s f h = inr f

round-IsTold :
    (w : World) (selector : DeviceSelector) (s : SmartSocket) (rest : SmartSocket → Served)
    → status_first s.output ≡ true
    → ((s' : SmartSocket) → status_first s'.output ≡ true → IsTold (rest s'))
    → IsTold (wait_round w selector s rest)
unfolding wait_round IsTold
round-IsTold w selector s rest f h =
    let s' = record s { device = selector } in
    after_wait-IsTold w rest (waited (picked w s').0) (picked w s').1
      (ap status_first (picked_output w s') ∙ f) h

wait_device-IsTold :
    (w : World) (selector : DeviceSelector) (s : SmartSocket) (es : List Event)
    → status_first s.output ≡ true
    → IsTold (wait_device w selector s es)
unfolding wait_device IsTold
wait_device-IsTold w selector s [] f = round-IsTold w selector s _ f (λ s' f'. inr f')
wait_device-IsTold w selector s (updated w' ∷ es) f =
    round-IsTold w selector s _ f (λ s' f'. wait_device-IsTold w' selector s' es f')
wait_device-IsTold w selector s (missed_update r ∷ es) f =
    round-IsTold w selector s _ f (λ s' f'. inr f')
wait_device-IsTold w selector s (hangs_up ∷ es) f =
    round-IsTold w selector s _ f (λ s' f'. first_stays s'.output _ f')
wait_device-IsTold w selector s (speaks ∷ es) f = round-IsTold w selector s _ f (λ s' f'. inr f')
wait_device-IsTold w selector s (breaks r ∷ es) f = round-IsTold w selector s _ f (λ s' f'. inr f')

pub wait_for_any-IsTold :
    (w : World) (s : SmartSocket) (es : List Event) → Quiet s.output → IsTold (wait_for_any w s es)
unfolding wait_for_any IsTold
wait_for_any-IsTold w s es q = wait_device-IsTold w s.device _ es (first-append s.output _ q refl)
