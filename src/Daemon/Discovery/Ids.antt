-- ===== src/Daemon/Discovery/Ids.antt =====
-- The ids of the tasks that `refresh_usb` spawns.
use adb_daemon_rs.Base.{
  ℕ, suc, ◌+◌, ◌%◌, ◌≤◌, ◌<◌, ◌≡◌, ◌≢◌, sym, subst, List, [], ◌∷◌, ◌++◌, Bytes, length, All, Option,
  none, some, Result, ok, err, bytes_eq, arith, if_cases,
}
use adb_daemon_rs.Words.{usize_mod}
use adb_daemon_rs.Transport.Error.{Error}
use adb_daemon_rs.Daemon.Config.{UsbConfig}
use adb_daemon_rs.Daemon.Manager.{MaybeConnection, ConnectionMgr}
use adb_daemon_rs.Daemon.Discovery.{DeviceInfo, Spawned, start, try_device, skips, refresh_devices}

-- The ids rise, from `low` on and below `high`.
abbrev pub Rising : ℕ → List MaybeConnection → ℕ → Type 0
Rising low [] high = low ≤ high
Rising low (c ∷ cs) high = (low ≤ c.id) × Rising (suc c.id) cs high

pub Rising-le : (low : ℕ) (cs : List MaybeConnection) (high : ℕ) → Rising low cs high → low ≤ high
Rising-le low [] high h = h
Rising-le low (c ∷ cs) high (l, h) = omega (arith, l, Rising-le (suc c.id) cs high h)

Rising-from :
    (low low' : ℕ) (cs : List MaybeConnection) (high : ℕ)
    → low' ≤ low
    → Rising low cs high
    → Rising low' cs high
Rising-from low low' [] high l h = omega (arith, l, h)
Rising-from low low' (c ∷ cs) high l (k, h) = (omega (arith, l, k), h)

pub Rising-append :
    (low middle high : ℕ) (xs ys : List MaybeConnection)
    → Rising low xs middle
    → Rising middle ys high
    → Rising low (xs ++ ys) high
Rising-append low middle high [] ys l h = Rising-from middle low ys high l h
Rising-append low middle high (x ∷ xs) ys (l, h) k =
    (l, Rising-append (suc x.id) middle high xs ys h k)

pub Rising-without :
    (low high : ℕ) (xs ys : List MaybeConnection) (c : MaybeConnection)
    → Rising low (xs ++ c ∷ ys) high
    → Rising low (xs ++ ys) high
Rising-without low high [] ys c (l, h) = Rising-from (suc c.id) low ys high (omega (arith, l)) h
Rising-without low high (x ∷ xs) ys c (l, h) = (l, Rising-without (suc x.id) high xs ys c h)

pub Rising-above :
    (low high : ℕ) (xs : List MaybeConnection)
    → Rising low xs high
    → All (λ (x : MaybeConnection). (low ≤ x.id) × (x.id < high)) xs
Rising-above low high [] h = tt
Rising-above low high (x ∷ xs) (l, h) = (
  (l, omega (arith, Rising-le (suc x.id) xs high h)),
  weaken xs (Rising-above (suc x.id) high xs h),
)
  where
    weaken :
        (ys : List MaybeConnection)
        → All (λ (y : MaybeConnection). (suc x.id ≤ y.id) × (y.id < high)) ys
        → All (λ (y : MaybeConnection). (low ≤ y.id) × (y.id < high)) ys
    weaken [] h = tt
    weaken (y ∷ ys) ((a, b), h) = ((omega (arith, l, a), b), weaken ys h)

-- The others have other ids.
pub Rising-others :
    (low high : ℕ) (xs ys : List MaybeConnection) (c : MaybeConnection)
    → Rising low (xs ++ c ∷ ys) high
    → (low ≤ c.id) × (c.id < high) × All (λ (x : MaybeConnection). c.id ≢ x.id) (xs ++ ys)
Rising-others low high [] ys c (l, h) = (
  l,
  omega (arith, Rising-le (suc c.id) ys high h),
  others ys (Rising-above (suc c.id) high ys h),
)
  where
    others :
        (zs : List MaybeConnection)
        → All (λ (z : MaybeConnection). (suc c.id ≤ z.id) × (z.id < high)) zs
        → All (λ (z : MaybeConnection). c.id ≢ z.id) zs
    others [] h = tt
    others (z ∷ zs) ((a, b), h) = ((λ e. omega (arith, e, a)), others zs h)
Rising-others low high (x ∷ xs) ys c (l, h) =
    let (k, below, rest) = Rising-others (suc x.id) high xs ys c h in
    (omega (arith, l, k), below, ((λ e. omega (arith, e, k)), rest))

-- The tasks of one refresh have ids that rise from the counter.
abbrev pub Fresh : ℕ → ℕ → Spawned → Type 0
Fresh next count r = Rising next r.0 r.1 × (r.1 ≤ next + count)

module _ (cfg : UsbConfig) (m : ConnectionMgr) (next n : ℕ) (rest : ℕ → Spawned)
    (fresh : (k : ℕ) → k + n < usize_mod → Fresh k n (rest k))
    (room : next + suc n < usize_mod) where
  skipped-Fresh : Fresh next (suc n) (rest next)
  skipped-Fresh = let (r, l) = fresh next (omega (arith, room)) in (r, omega (arith, l))

  start-Fresh :
      (serial : Bytes) (opened : Result Error (Unit {0}))
      → Fresh next (suc n) (start next rest serial opened)
  unfolding start
  start-Fresh serial (err e) = skipped-Fresh
  start-Fresh serial (ok _) =
      let after : (next + 1) % usize_mod ≡ suc next = omega (arith, room) in
      let (r, l) = fresh (suc next) (omega (arith, room)) in
      subst
        (λ k. Fresh next (suc n) (record { id = next; serial = serial } ∷ (rest k).0, (rest k).1))
        (sym after) ((omega arith, r), omega (arith, l))

  try_device-Fresh :
      (opened : Result Error (Unit {0})) (serial : Option Bytes)
      → Fresh next (suc n) (try_device cfg m next rest opened serial)
  unfolding try_device
  try_device-Fresh opened none = skipped-Fresh
  try_device-Fresh opened (some serial) =
      if_cases (Fresh next (suc n)) (skips cfg m serial) _ _ (λ _. skipped-Fresh)
        (λ _. start-Fresh serial opened)

pub refresh-Fresh :
    (cfg : UsbConfig) (m : ConnectionMgr) (ds : List DeviceInfo) (next : ℕ)
    → next + length ds < usize_mod
    → Fresh next (length ds) (refresh_devices cfg m ds next)
unfolding refresh_devices
refresh-Fresh cfg m [] next h = (omega arith, omega arith)
refresh-Fresh cfg m (d ∷ ds) next h =
    try_device-Fresh cfg m next (length ds) (refresh_devices cfg m ds)
      (λ k room. refresh-Fresh cfg m ds k room) h d.opened d.serial_number
