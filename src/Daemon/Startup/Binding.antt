-- ===== src/Daemon/Startup/Binding.antt =====
-- When the start takes the address, and when it leaves it.
use adb_daemon_rs.Base.{
  ◌≡◌, ◌≢◌, refl, ◌⊎◌, inl, inr, Bool, true, false, List, [], ◌∷◌, Result, ok, err, nat_eq,
  bytes_eq,
}
use adb_daemon_rs.Text.{codes}
use adb_daemon_rs.Daemon.Startup.{
  IoError, connection_refused, unexpected_eof, addr_in_use, other_io, Session, run_service, Round,
  StartError, killed, probed, check_adb_server, Started, bound, already_running, looping, failed,
  bind_ends, round_ends, bind_smartsocket,
}

-- The address is free for this daemon: nobody listened, or another server said that it goes.
abbrev pub IsFree : Round → Type 0
IsFree r =
    (run_service r.probe (codes "host:is-adb-daemon-rs") ≡ err connection_refused)
    ⊎ ((run_service r.probe (codes "host:is-adb-daemon-rs") ≡ ok false)
        × (run_service r.kill (codes "host:kill") ≡ ok true))

-- The rounds up to one in which `P` holds; in each before it the address was free, but taken again at
-- the call of `bind`.
pub data Until (P : Round → Type 0) : List Round → Type 0 where
  here : (r : Round) (rs : List Round) → P r → Until P (r ∷ rs)
  after :
      (r : Round) (rs : List Round)
      → IsFree r
      → r.bind ≡ err addr_in_use
      → Until P rs
      → Until P (r ∷ rs)

abbrev pub Explains : List Round → Started → Type 0
Explains rs bound = Until (λ r. IsFree r × (r.bind ≡ ok tt)) rs
Explains rs already_running =
    Until (λ r. run_service r.probe (codes "host:is-adb-daemon-rs") ≡ ok true) rs
Explains rs looping = Unit
Explains rs (failed e) = Unit

killed-ok : (r : Result IoError Bool) → killed r ≡ ok false → r ≡ ok true
unfolding killed
killed-ok (err e) h = cc
killed-ok (ok true) h = refl
killed-ok (ok false) h = cc

killed_never : (r : Result IoError Bool) → killed r ≢ ok true
unfolding killed
killed_never (err e) h = cc
killed_never (ok true) h = cc
killed_never (ok false) h = cc

module _ (kill : Session) where
  probed-free :
      (p : Result IoError Bool)
      → probed kill p ≡ ok false
      → (p ≡ err connection_refused)
        ⊎ ((p ≡ ok false) × (run_service kill (codes "host:kill") ≡ ok true))
  unfolding probed
  probed-free (ok true) h = cc
  probed-free (ok false) h = inr (refl, killed-ok (run_service kill (codes "host:kill")) h)
  probed-free (err connection_refused) h = inl refl
  probed-free (err unexpected_eof) h = cc
  probed-free (err addr_in_use) h = cc
  probed-free (err other_io) h = cc

  probed-running : (p : Result IoError Bool) → probed kill p ≡ ok true → p ≡ ok true
  unfolding probed
  probed-running (ok true) h = refl
  probed-running (ok false) h = absurd (killed_never (run_service kill (codes "host:kill")) h)
  probed-running (err connection_refused) h = cc
  probed-running (err unexpected_eof) h = cc
  probed-running (err addr_in_use) h = cc
  probed-running (err other_io) h = cc

later_round :
    (r : Round) (rs : List Round) (s : Started)
    → IsFree r
    → r.bind ≡ err addr_in_use
    → Explains rs s
    → Explains (r ∷ rs) s
later_round r rs bound f u x = after r rs f u x
later_round r rs already_running f u x = after r rs f u x
later_round r rs looping f u x = tt
later_round r rs (failed e) f u x = tt

bind_ends_explained :
    (r : Round) (rs : List Round) (b : Result IoError (Unit {0})) (s : Started)
    → IsFree r
    → r.bind ≡ b
    → Explains rs s
    → Explains (r ∷ rs) (bind_ends b s)
unfolding bind_ends
bind_ends_explained r rs (ok _) s f e x = here r rs (f, e)
bind_ends_explained r rs (err addr_in_use) s f e x = later_round r rs s f e x
bind_ends_explained r rs (err connection_refused) s f e x = tt
bind_ends_explained r rs (err unexpected_eof) s f e x = tt
bind_ends_explained r rs (err other_io) s f e x = tt

round_explained :
    (r : Round) (rs : List Round) (c : Result StartError Bool) (s : Started)
    → probed r.kill (run_service r.probe (codes "host:is-adb-daemon-rs")) ≡ c
    → Explains rs s
    → Explains (r ∷ rs) (round_ends c r.bind s)
unfolding round_ends
round_explained r rs (err e) s h x = tt
round_explained r rs (ok true) s h x =
    here r rs (probed-running r.kill (run_service r.probe (codes "host:is-adb-daemon-rs")) h)
round_explained r rs (ok false) s h x =
    bind_ends_explained r rs r.bind s
      (probed-free r.kill (run_service r.probe (codes "host:is-adb-daemon-rs")) h) refl x

-- The start takes the address only in a round in which nobody listened there, or another server said
-- that it is no such daemon and then agreed to be killed; and it leaves the address to a server only
-- if that says that it is such a daemon. In each earlier round the address was free, but taken again
-- when it was to be bound.
pub bind_smartsocket_lem : (rs : List Round) → Explains rs (bind_smartsocket rs)
unfolding bind_smartsocket check_adb_server
bind_smartsocket_lem [] = tt
bind_smartsocket_lem (r ∷ rs) =
    round_explained r rs (check_adb_server r.probe r.kill) (bind_smartsocket rs) refl
      (bind_smartsocket_lem rs)
