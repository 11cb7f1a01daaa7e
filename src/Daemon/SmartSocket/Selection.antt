-- ===== src/Daemon/SmartSocket/Selection.antt =====
-- Which connection a client gets.
use adb_daemon_rs.Base.{
  ℕ, ◌≤◌, ◌≡◌, refl, Bool, false, List, [], ◌∷◌, Bytes, length, All, Option, none, some, Result, ok,
  err, if_cases, arith, bytes_eq,
}
use adb_daemon_rs.Base.Map.{Map, keep_if}
use adb_daemon_rs.Daemon.Manager.{
  Connection, ConnectionMgr, connection_filter, get, iter, open_values,
}
use adb_daemon_rs.Daemon.SmartSocket.{
  DeviceSelector, connection, serial, any, no_selector, PickDeviceError, not_selected, no_devices,
  more_than_one, not_found, SmartSocket, only, found, select, keep_picked, pick_connection,
}

-- The connection that a selector stands for: the one that was picked before, the open one with the
-- serial, or the one that is open if there is no other.
pub data Selects (closed : ℕ → Bool) (m : ConnectionMgr) (selector : DeviceSelector)
    (c : Connection) : Type 0 where
  before : selector ≡ connection c → Selects closed m selector c
  by_serial :
      (s : Bytes)
      → selector ≡ serial s
      → get closed m s ≡ some c
      → closed c.id ≡ false
      → Selects closed m selector c
  alone :
      selector ≡ any → iter closed m ≡ c ∷ [] → closed c.id ≡ false → Selects closed m selector c

-- Why there is none.
pub data Refuses (closed : ℕ → Bool) (m : ConnectionMgr) (selector : DeviceSelector)
    (e : PickDeviceError) : Type 0 where
  unselected : selector ≡ no_selector → e ≡ not_selected → Refuses closed m selector e
  missing :
      (s : Bytes)
      → selector ≡ serial s
      → get closed m s ≡ none
      → e ≡ not_found s
      → Refuses closed m selector e
  nobody : selector ≡ any → iter closed m ≡ [] → e ≡ no_devices → Refuses closed m selector e
  several :
      selector ≡ any → 2 ≤ length (iter closed m) → e ≡ more_than_one → Refuses closed m selector e

abbrev pub Chosen :
    (ℕ → Bool) → ConnectionMgr → DeviceSelector → Result PickDeviceError Connection → Type 0
Chosen closed m selector (ok c) = Selects closed m selector c
Chosen closed m selector (err e) = Refuses closed m selector e

filter_open :
    (closed : ℕ → Bool) (o : Option Connection) (c : Connection)
    → keep_if (connection_filter closed) o ≡ some c
    → closed c.id ≡ false
filter_open closed none c h = cc
filter_open closed (some d) c h = ground arith

found-Chosen :
    (closed : ℕ → Bool) (m : ConnectionMgr) (s : Bytes) (o : Option Connection)
    → get closed m s ≡ o
    → Chosen closed m (serial s) (found s o)
unfolding found
found-Chosen closed m s none e = missing s refl e refl
found-Chosen closed m s (some c) e = by_serial s refl e (unfold get in filter_open closed _ c e)

open_values-All :
    (closed : ℕ → Bool) (m : Map Bytes Connection)
    → All (λ (c : Connection). closed c.id ≡ false) (open_values closed m)
unfolding open_values
open_values-All closed [] = tt
open_values-All closed ((s, c) ∷ m) =
    if_cases (All (λ (c : Connection). closed c.id ≡ false)) (connection_filter closed c)
      (c ∷ open_values closed m) (open_values closed m)
      (λ h. (ground arith, open_values-All closed m)) (λ h. open_values-All closed m)

only-Chosen :
    (closed : ℕ → Bool) (m : ConnectionMgr) (cs : List Connection)
    → iter closed m ≡ cs
    → All (λ (c : Connection). closed c.id ≡ false) cs
    → Chosen closed m any (only cs)
only-Chosen closed m [] e h = nobody refl e refl
only-Chosen closed m (c ∷ []) e h = alone refl e h.0
only-Chosen closed m (c ∷ d ∷ cs) e h = several refl (rw e (omega arith)) refl

select-Chosen :
    (closed : ℕ → Bool) (m : ConnectionMgr) (selector : DeviceSelector)
    → Chosen closed m selector (select closed m selector)
unfolding select
select-Chosen closed m (connection c) = before refl
select-Chosen closed m (serial s) = found-Chosen closed m s (get closed m s) refl
select-Chosen closed m any =
    only-Chosen closed m (iter closed m) refl (unfold iter in open_values-All closed m.by_serial)
select-Chosen closed m no_selector = unselected refl refl

-- A connection that was picked is picked again, whatever becomes of the others.
picked_again :
    (s : SmartSocket) (r : Result PickDeviceError Connection) (c : Connection) (closed : ℕ → Bool)
    (m : ConnectionMgr)
    → r ≡ ok c
    → pick_connection closed m (keep_picked s r) ≡ (ok c, keep_picked s r)
unfolding pick_connection select
picked_again s (ok d) c closed m e = let same : d ≡ c = cc in rw same
picked_again s (err x) c closed m e = cc

-- The pick is the connection that the client's selector stands for, or the error that says why there
-- is none; nothing is read or written. Once a connection was picked, each later pick gives the same
-- one, even if others come, or it is closed.
pub pick_connection_lem :
    (closed : ℕ → Bool) (m : ConnectionMgr) (s : SmartSocket)
    → let (r, s') = pick_connection closed m s in
      Chosen closed m s.device r
      × (s'.input ≡ s.input)
      × (s'.output ≡ s.output)
      × ((c : Connection) (closed' : ℕ → Bool) (m' : ConnectionMgr)
          → r ≡ ok c
          → pick_connection closed' m' s' ≡ (ok c, s'))
unfolding pick_connection
pick_connection_lem closed m s = (
  select-Chosen closed m s.device,
  kept_input (select closed m s.device),
  kept_output (select closed m s.device),
  (λ c closed' m' e.
      unfold pick_connection in picked_again s (select closed m s.device) c closed' m' e),
)
  where
    kept_input : (r : Result PickDeviceError Connection) → (keep_picked s r).input ≡ s.input
    kept_input (ok c) = refl
    kept_input (err e) = refl

    kept_output : (r : Result PickDeviceError Connection) → (keep_picked s r).output ≡ s.output
    kept_output (ok c) = refl
    kept_output (err e) = refl
