-- ===== src/Daemon/Discovery/Uniqueness.antt =====
-- Ids stay unique while devices come and go, in both maps of the manager.
use adb_daemon_rs.Base.{
  ℕ, ◌+◌, ◌≤◌, ◌<◌, ◌≡◌, ◌≢◌, ◌⊎◌, refl, sym, ap, subst, ◌∙◌, Bool, false, List, [], ◌∷◌, ◌++◌,
  Bytes, All, All-append, some, Result, ok, err, ◌==◌, nat_eq, bytes_eq, arith, if_cases,
  Bool-cases, inl, inr,
}
use adb_daemon_rs.Base.Map.{lookup, lookup-insert}
use adb_daemon_rs.Words.{usize_mod}
use adb_daemon_rs.Daemon.Proto.{Report}
use adb_daemon_rs.Daemon.Config.{UsbConfig, usb_enabled}
use adb_daemon_rs.Daemon.Manager.{
  MaybeConnection, Connection, ConnectionMgr, create, new_connection, remove_closed_connections,
  closed_values,
}
use adb_daemon_rs.Daemon.Manager.Index.{
  IsIndexed, remains, drop_ids-some, new_connection_lem, remove_closed_connections_lem,
}
use adb_daemon_rs.Daemon.Discovery.{DeviceInfo, Spawned, refresh_usb, run_round, Created}
use adb_daemon_rs.Daemon.Discovery.Ids.{
  Rising, Rising-le, Rising-append, Rising-without, Rising-above, Rising-others, refresh-Fresh,
}
use adb_daemon_rs.Daemon.Discovery.Rounds.{
  Ends, connects, gives_up, goes_on, creation-Ends, Devices, device_count, Step, rounds, ends,
  no_devices, Reach, at_start, later,
}

-- A connection that a serial or an id leads to.
pub data Held (m : ConnectionMgr) (k : Connection) : Type 0 where
  by_serial : (s : Bytes) → lookup s m.by_serial ≡ some k → Held m k
  by_id : (i : ℕ) → lookup i m.by_id ≡ some k → Held m k

-- No connection of either map has this id.
abbrev IsFree : ℕ → ConnectionMgr → Type 0
IsFree id m = (k : Connection) → Held m k → k.id ≢ id

pub record IsSound (d : Devices) : Type 0 where
  pub indexed : IsIndexed d.manager
  pub rising : Rising 0 d.tasks d.next
  pub below : (k : Connection) → Held d.manager k → k.id < d.next
  pub unused : All (λ (t : MaybeConnection). IsFree t.id d.manager) d.tasks

-- Every connection of the second manager is one of the first.
abbrev Fewer : ConnectionMgr → ConnectionMgr → Type 0
Fewer m m' = (k : Connection) → Held m' k → Held m k

IsFree-Fewer :
    (m m' : ConnectionMgr) (ts : List MaybeConnection)
    → Fewer m m'
    → All (λ (t : MaybeConnection). IsFree t.id m) ts
    → All (λ (t : MaybeConnection). IsFree t.id m') ts
IsFree-Fewer m m' [] f h = tt
IsFree-Fewer m m' (t ∷ ts) f (u, h) = ((λ k e. u k (f k e)), IsFree-Fewer m m' ts f h)

-- Ids from the counter on are unused.
IsFree-above :
    (m : ConnectionMgr) (next high : ℕ) (ts : List MaybeConnection)
    → ((k : Connection) → Held m k → k.id < next)
    → All (λ (t : MaybeConnection). (next ≤ t.id) × (t.id < high)) ts
    → All (λ (t : MaybeConnection). IsFree t.id m) ts
IsFree-above m next high [] b h = tt
IsFree-above m next high (t ∷ ts) b ((l, _), h) =
    ((λ k found same. omega (arith, b k found, same, l)), IsFree-above m next high ts b h)

refresh_usb_fresh :
    (cfg : UsbConfig) (m : ConnectionMgr) (listed : Result Report (List DeviceInfo)) (next : ℕ)
    → next + device_count listed < usize_mod
    → Rising next (refresh_usb cfg m listed next).1.0 (refresh_usb cfg m listed next).1.1
unfolding refresh_usb
refresh_usb_fresh cfg m (err e) next h = omega arith
refresh_usb_fresh cfg m (ok ds) next h = (refresh-Fresh cfg m ds next h).0

removed-Fewer :
    (m : ConnectionMgr) (is_closed : ℕ → Bool)
    → IsIndexed m
    → Fewer m (remove_closed_connections is_closed m)
unfolding remove_closed_connections
removed-Fewer m is_closed v k (by_serial s found) = by_serial s (remains is_closed m s k v found).0
removed-Fewer m is_closed v k (by_id i found) =
    by_id i (drop_ids-some (closed_values is_closed m.by_serial) i m.by_id k found)

cleaned-IsSound :
    (d : Devices) (is_closed : ℕ → Bool) (spawned : Spawned)
    → IsSound d
    → Rising d.next spawned.0 spawned.1
    → IsSound (record {
      manager = remove_closed_connections is_closed d.manager;
      tasks = d.tasks ++ spawned.0;
      next = spawned.1;
    })
cleaned-IsSound d is_closed (ts, next) v r =
    let m = remove_closed_connections is_closed d.manager in
    let fewer : Fewer d.manager m = removed-Fewer d.manager is_closed v.indexed in
    let le : d.next ≤ next = Rising-le d.next ts next r in
    record {
      indexed = (remove_closed_connections_lem is_closed d.manager v.indexed).0;
      rising = Rising-append 0 d.next next d.tasks ts v.rising r;
      below = λ k found. omega (arith, v.below k (fewer k found), le);
      unused =
          All-append (λ (t : MaybeConnection). IsFree t.id m) d.tasks ts
            (IsFree-Fewer d.manager m d.tasks fewer v.unused)
            (IsFree-Fewer d.manager m ts fewer
              (IsFree-above d.manager d.next next ts v.below (Rising-above d.next next ts r)));
    }

round-IsSound :
    (cfg : UsbConfig) (d : Devices) (is_closed : ℕ → Bool)
    (listed : Result Report (List DeviceInfo))
    → d.next + device_count listed < usize_mod
    → IsSound d
    → let (spawned, m) = run_round cfg is_closed d.manager listed d.next in
      IsSound (record { manager = m; tasks = d.tasks ++ spawned.0; next = spawned.1 })
unfolding run_round
round-IsSound cfg d is_closed listed room v = cleaned-IsSound d is_closed _ v (
    if_cases (λ (spawned : Spawned). Rising d.next spawned.0 spawned.1) (usb_enabled cfg) _ _
      (λ _. refresh_usb_fresh cfg d.manager listed d.next room) (λ _. omega arith))

IsFree-without :
    (m : ConnectionMgr) (xs ys : List MaybeConnection) (conn : MaybeConnection)
    → All (λ (t : MaybeConnection). IsFree t.id m) (xs ++ conn ∷ ys)
    → All (λ (t : MaybeConnection). IsFree t.id m) (xs ++ ys)
IsFree-without m [] ys conn (u, h) = h
IsFree-without m (x ∷ xs) ys conn (u, h) = (u, IsFree-without m xs ys conn h)

made-Held :
    (m : ConnectionMgr) (c j : Connection) → Held (new_connection m c) j → (c ≡ j) ⊎ Held m j
unfolding new_connection
made-Held m c j (by_serial s found) = elim (Bool-cases (c.serial == s)) [
  | inl e ↦ inl (ground (arith, lookup-insert c.serial s c m.by_serial))
  | inr e ↦ inr (by_serial s (ground (arith, lookup-insert c.serial s c m.by_serial)))
]
made-Held m c j (by_id i found) = elim (Bool-cases (c.id == i)) [
  | inl e ↦ inl (ground (arith, lookup-insert c.id i c m.by_id))
  | inr e ↦ inr (by_id i (ground (arith, lookup-insert c.id i c m.by_id)))
]

made-IsSound :
    (d : Devices) (before after : List MaybeConnection) (conn : MaybeConnection) (k : Connection)
    → IsSound d
    → d.tasks ≡ before ++ conn ∷ after
    → k.id ≡ conn.id
    → IsSound
        (record { manager = new_connection d.manager k; tasks = before ++ after; next = d.next })
made-IsSound d before after conn k v split same =
    let tasks = subst (λ ts. Rising 0 ts d.next) split v.rising in
    let others = Rising-others 0 d.next before after conn tasks in
    let free : IsFree k.id d.manager =
      subst (λ i. IsFree i d.manager) (sym same) (middle before (subst (All _) split v.unused)) in
    record {
      indexed =
          (new_connection_lem (λ _. false) d.manager k v.indexed
            (λ s c found. free c (by_serial s found))).0;
      rising = Rising-without 0 d.next before after conn tasks;
      below = λ j found. elim (leads j found) [
        | inl e ↦ omega (arith, others, same, ap (λ (c : Connection). c.id) e)
        | inr e ↦ v.below j e
      ];
      unused =
          still (before ++ after) others.2
            (IsFree-without d.manager before after conn (subst (All _) split v.unused));
    }
  where
    middle :
        (xs : List MaybeConnection)
        → All (λ (t : MaybeConnection). IsFree t.id d.manager) (xs ++ conn ∷ after)
        → IsFree conn.id d.manager
    middle [] (u, h) = u
    middle (x ∷ xs) (u, h) = middle xs h

    leads : (j : Connection) → Held (new_connection d.manager k) j → (k ≡ j) ⊎ Held d.manager j
    leads j found = made-Held d.manager k j found

    still :
        (ts : List MaybeConnection)
        → All (λ (t : MaybeConnection). conn.id ≢ t.id) ts
        → All (λ (t : MaybeConnection). IsFree t.id d.manager) ts
        → All (λ (t : MaybeConnection). IsFree t.id (new_connection d.manager k)) ts
    still [] o h = tt
    still (t ∷ ts) (n, o) (u, h) = (
      (λ j found equal. elim (leads j found) [
        | inl e ↦ n (sym same ∙ ap (λ (c : Connection). c.id) e ∙ equal)
        | inr e ↦ u j e equal
      ]),
      still ts o h,
    )

gone-IsSound :
    (d : Devices) (before after : List MaybeConnection) (conn : MaybeConnection)
    → IsSound d
    → d.tasks ≡ before ++ conn ∷ after
    → IsSound (record { manager = d.manager; tasks = before ++ after; next = d.next })
gone-IsSound d before after conn v split = record {
  indexed = v.indexed;
  rising =
      Rising-without 0 d.next before after conn (subst (λ ts. Rising 0 ts d.next) split v.rising);
  below = v.below;
  unused = IsFree-without d.manager before after conn (subst (All _) split v.unused);
}

end-IsSound :
    {C : Type 0} (d : Devices) (before after : List MaybeConnection) (conn : MaybeConnection)
    (r : Created C × ConnectionMgr)
    → IsSound d
    → d.tasks ≡ before ++ conn ∷ after
    → Ends d.manager conn r
    → IsSound (record { manager = r.1; tasks = before ++ after; next = d.next })
end-IsSound d before after conn _ v split (connects t) =
    made-IsSound d before after conn (create conn t.banner) v split refl
end-IsSound d before after conn _ v split (gives_up reset) =
    gone-IsSound d before after conn v split
end-IsSound d before after conn _ v split goes_on = gone-IsSound d before after conn v split

Step-IsSound :
    {C : Type 0} (cfg : UsbConfig) (d d' : Devices) → IsSound d → Step C cfg d d' → IsSound d'
Step-IsSound cfg d _ v (rounds is_closed listed spawned m room e) =
    subst
      (λ (r : Spawned × ConnectionMgr).
        IsSound (record { manager = r.1; tasks = d.tasks ++ r.0.0; next = r.0.1 }))
      e (round-IsSound cfg d is_closed listed room v)
Step-IsSound cfg d _ v (ends before after conn w c ms result m split e ended) =
    subst
      (λ (r : Created _ × ConnectionMgr).
        IsSound (record { manager = r.1; tasks = before ++ after; next = d.next }))
      e (end-IsSound d before after conn _ v split (creation-Ends w c d.manager conn ms))

none-Held : (k : Connection) → Held no_devices.manager k → ⊥
unfolding lookup
none-Held k (by_serial s e) = cc
none-Held k (by_id i e) = cc

start-IsSound : IsSound no_devices
start-IsSound = record {
  indexed = record {
    distinct = tt;
    named = λ s k e. absurd (none-Held k (by_serial s e));
    by_id = λ s k e. absurd (none-Held k (by_serial s e));
    keyed = λ i k e. absurd (none-Held k (by_id i e));
  };
  rising = omega arith;
  below = λ k e. absurd (none-Held k e);
  unused = tt;
}

-- Whatever devices come and go, and in whichever order the tasks end, as long as each round leaves the
-- counter of ids below 2^64: each serial leads to one connection with that serial, which is found by
-- its id too; what is found by an id has this id; every connection that a serial or an id leads to has
-- an id below the counter; and each task has an id of its own, which none of these connections has.
pub Reach-IsSound : {C : Type 0} (cfg : UsbConfig) (d : Devices) → Reach C cfg d → IsSound d
Reach-IsSound cfg _ at_start = start-IsSound
Reach-IsSound cfg d' (later {d = d} r step) = Step-IsSound cfg d d' (Reach-IsSound cfg d r) step
