-- ===== src/Daemon/Manager/Index.antt =====
-- The two indices of the manager agree, and cleaning up does not show.
use adb_daemon_rs.Base.{
  ℕ, ◌≡◌, ◌≢◌, refl, sym, ap, ◌∙◌, Bool, true, false, not, List, [], ◌∷◌, ◌++◌, Bytes, All, Option,
  none, some, ◌==◌, ==_iff, ==_refl, nat_eq, bytes_eq, if◌then◌else◌, if_cases, Bool-cases, inl,
  inr, map, arith,
}
use mathlib.Core.Bool.{false≢true}
use adb_daemon_rs.Base.Map.{
  Map, lookup, insert, remove, retain, keep_if, keep_if-if, IsDistinct, lookup-insert,
  lookup-remove, lookup-retain, retain-IsDistinct, insert-IsDistinct,
}
use adb_daemon_rs.Daemon.Manager.{
  Connection, ConnectionMgr, added, removed, connection_filter, get, iter, open_values,
  new_connection, closed_values, drop_ids, remove_closed_connections,
}

-- Each serial leads to one connection with that serial, which is found by its id too; and what is found
-- by an id has this id.
pub record IsIndexed (m : ConnectionMgr) : Type 0 where
  pub distinct : IsDistinct m.by_serial
  pub named : (s : Bytes) (c : Connection) → lookup s m.by_serial ≡ some c → c.serial ≡ s
  pub by_id :
      (s : Bytes) (c : Connection) → lookup s m.by_serial ≡ some c → lookup c.id m.by_id ≡ some c
  pub keyed : (i : ℕ) (c : Connection) → lookup i m.by_id ≡ some c → c.id ≡ i

-- The id of a new connection is none of those that are there.
abbrev pub IsUnused : ℕ → ConnectionMgr → Type 0
IsUnused id m = (s : Bytes) (c : Connection) → lookup s m.by_serial ≡ some c → c.id ≢ id

new_connection-named :
    (m : ConnectionMgr) (c d : Connection) (s : Bytes)
    → IsIndexed m
    → lookup s (insert c.serial c m.by_serial) ≡ some d
    → d.serial ≡ s
new_connection-named m c d s v found = elim (Bool-cases (c.serial == s)) [
  | inl e ↦
      let same : c ≡ d = ground (arith, lookup-insert c.serial s c m.by_serial) in
      ap (λ x. x.serial) (sym same) ∙ (==_iff c.serial s).0 e
  | inr e ↦ v.named s d (ground (arith, lookup-insert c.serial s c m.by_serial))
]

new_connection-by_id :
    (m : ConnectionMgr) (c d : Connection) (s : Bytes)
    → IsIndexed m
    → IsUnused c.id m
    → lookup s (insert c.serial c m.by_serial) ≡ some d
    → lookup d.id (insert c.id c m.by_id) ≡ some d
new_connection-by_id m c d s v unused found = elim (Bool-cases (c.serial == s)) [
  | inl e ↦
      let same : c ≡ d = ground (arith, lookup-insert c.serial s c m.by_serial) in
      lookup-insert c.id d.id c m.by_id ∙ rw (sym same, ==_refl c.id)
  | inr e ↦
      let before : lookup s m.by_serial ≡ some d =
        ground (arith, lookup-insert c.serial s c m.by_serial) in
      lookup-insert c.id d.id c m.by_id
      ∙ ground (arith, v.by_id s d before, unused s d before, ==_iff c.id d.id)
]

new_connection-keyed :
    (m : ConnectionMgr) (c d : Connection) (i : ℕ)
    → IsIndexed m
    → lookup i (insert c.id c m.by_id) ≡ some d
    → d.id ≡ i
new_connection-keyed m c d i v found = elim (Bool-cases (c.id == i)) [
  | inl e ↦
      let same : c ≡ d = ground (arith, lookup-insert c.id i c m.by_id) in
      ap (λ (x : Connection). x.id) (sym same) ∙ (==_iff c.id i).0 e
  | inr e ↦ v.keyed i d (ground (arith, lookup-insert c.id i c m.by_id))
]

-- A new connection with an id that no connection has keeps the indices in agreement. From then on its
-- serial leads to it, as long as it is open, and every other serial to what it led to before; and the
-- subscribers are told.
pub new_connection_lem :
    (closed : ℕ → Bool) (m : ConnectionMgr) (c : Connection)
    → IsIndexed m
    → IsUnused c.id m
    → IsIndexed (new_connection m c)
      × ((s : Bytes)
          → get closed (new_connection m c) s ≡ (
              if c.serial == s
              then keep_if (connection_filter closed) (some c)
              else get closed m s))
      × ((new_connection m c).updates ≡ m.updates ++ added c ∷ [])
unfolding new_connection get
new_connection_lem closed m c v unused = (
  record {
    distinct = insert-IsDistinct c.serial c m.by_serial v.distinct;
    named = λ s d found. new_connection-named m c d s v found;
    by_id = λ s d found. new_connection-by_id m c d s v unused found;
    keyed = λ i d found. new_connection-keyed m c d i v found;
  },
  (λ s.
      ap (keep_if (connection_filter closed)) (lookup-insert c.serial s c m.by_serial)
      ∙ keep_if-if (connection_filter closed) (c.serial == s) (some c) (lookup s m.by_serial)),
  refl,
)

closed_values-All :
    (closed : ℕ → Bool) (m : Map Bytes Connection)
    → All (λ c. closed c.id ≡ true) (closed_values closed m)
unfolding closed_values
closed_values-All closed [] = tt
closed_values-All closed ((s, c) ∷ m) =
    if_cases (All (λ c. closed c.id ≡ true)) (closed c.id) (c ∷ closed_values closed m)
      (closed_values closed m) (λ e. (e, closed_values-All closed m))
      (λ e. closed_values-All closed m)

closed_differs :
    (closed : ℕ → Bool) (i j : ℕ) → closed i ≡ true → closed j ≡ false → (i == j) ≡ false
closed_differs closed i j hi hj = elim (Bool-cases (i == j)) [
  | inl e ↦ absurd (false≢true (sym hj ∙ ap closed (sym ((==_iff i j).0 e)) ∙ hi))
  | inr e ↦ e
]

lookup-drop_ids :
    (closed : ℕ → Bool) (cs : List Connection) (i : ℕ) (m : Map ℕ Connection)
    → All (λ c. closed c.id ≡ true) cs
    → closed i ≡ false
    → lookup i (drop_ids cs m) ≡ lookup i m
unfolding drop_ids
lookup-drop_ids closed [] i m h o = refl
lookup-drop_ids closed (c ∷ cs) i m (hc, h) o =
    lookup-drop_ids closed cs i (remove c.id m) h o
    ∙ lookup-remove c.id i m
    ∙ ap (λ b. if b then none else lookup i m) (closed_differs closed c.id i hc o)

-- An id that is gone stays gone, and what is left was there.
drop_ids-none :
    (cs : List Connection) (i : ℕ) (m : Map ℕ Connection)
    → lookup i m ≡ none
    → lookup i (drop_ids cs m) ≡ none
unfolding drop_ids
drop_ids-none [] i m h = h
drop_ids-none (c ∷ cs) i m h =
    drop_ids-none cs i (remove c.id m) (ground (arith, lookup-remove c.id i m, h))

pub drop_ids-some :
    (cs : List Connection) (i : ℕ) (m : Map ℕ Connection) (d : Connection)
    → lookup i (drop_ids cs m) ≡ some d
    → lookup i m ≡ some d
unfolding drop_ids
drop_ids-some [] i m d h = h
drop_ids-some (c ∷ cs) i m d h =
    let before = drop_ids-some cs i (remove c.id m) d h in
    ground (arith, lookup-remove c.id i m, before)

drop_ids-gone :
    (closed : ℕ → Bool) (serials : Map Bytes Connection) (s : Bytes) (c : Connection)
    (m : Map ℕ Connection)
    → lookup s serials ≡ some c
    → closed c.id ≡ true
    → lookup c.id (drop_ids (closed_values closed serials) m) ≡ none
unfolding lookup closed_values drop_ids
drop_ids-gone closed [] s c m found gone = absurd (cc)
drop_ids-gone closed ((t, d) ∷ serials) s c m found gone = elim (Bool-cases (t == s)) [
  | inl e ↦
      let same : d ≡ c = ground arith in
      let shut : closed d.id ≡ true = ap (λ (k : Connection). closed k.id) same ∙ gone in
      let hit : (d.id == c.id) ≡ true = (==_iff d.id c.id).1 (ap (λ (k : Connection). k.id) same) in
      if_cases (λ cs. lookup c.id (drop_ids cs m) ≡ none) (closed d.id)
        (d ∷ closed_values closed serials) (closed_values closed serials)
        (λ _.
          drop_ids-none (closed_values closed serials) c.id (remove d.id m)
            (lookup-remove d.id c.id m ∙ ap (λ b. if b then none else lookup c.id m) hit))
        (λ open_. absurd (false≢true (sym open_ ∙ shut)))
  | inr e ↦
      let rest : lookup s serials ≡ some c = ground arith in
      if_cases (λ cs. lookup c.id (drop_ids cs m) ≡ none) (closed d.id)
        (d ∷ closed_values closed serials) (closed_values closed serials)
        (λ _. drop_ids-gone closed serials s c (remove d.id m) rest gone)
        (λ _. drop_ids-gone closed serials s c m rest gone)
]

keep_if-some :
    {V : Type 0} (p : V → Bool) (o : Option V) (v : V)
    → keep_if p o ≡ some v
    → (o ≡ some v) × (p v ≡ true)
keep_if-some p none v e = cc
keep_if-some p (some w) v e = elim (Bool-cases (p w)) [
  | inl t ↦ let same : w ≡ v = ground (arith) in (ap some same, ap p (sym same) ∙ t)
  | inr f ↦ ground arith
]

open_values-retain :
    (closed : ℕ → Bool) (m : Map Bytes Connection)
    → open_values closed (retain (λ _ c. not (closed c.id)) m) ≡ open_values closed m
unfolding open_values retain
open_values-retain closed [] = refl
open_values-retain closed ((s, c) ∷ m) = ground (arith, open_values-retain closed m)

keep_if-keep_if : {V : Type 0} (p : V → Bool) (o : Option V) → keep_if p (keep_if p o) ≡ keep_if p o
keep_if-keep_if p none = refl
keep_if-keep_if p (some v) = ground arith

pub remains :
    (closed : ℕ → Bool) (m : ConnectionMgr) (s : Bytes) (c : Connection)
    → IsIndexed m
    → lookup s (retain (λ _ c. not (closed c.id)) m.by_serial) ≡ some c
    → (lookup s m.by_serial ≡ some c) × (closed c.id ≡ false)
remains closed m s c v found =
    let (before, open_) =
      keep_if-some (λ d. not (closed d.id)) (lookup s m.by_serial) c
        (sym (lookup-retain (λ _ d. not (closed d.id)) s m.by_serial v.distinct) ∙ found) in
    (before, ground arith)

-- In a manager in which each serial leads to a connection with that serial, which is found by its id
-- too, and in which what is found by an id has this id, removing the closed connections keeps this so.
-- What `get` and `iter` answer stays, since they pass over closed connections anyway; a serial is taken
-- if and only if it leads to an open connection; nothing changes in the map of ids at the id of an open
-- connection; the id of a closed connection that a serial led to is taken out of the map of ids; and the
-- subscribers are told of the closed connections, which were in the map, and of no other.
pub remove_closed_connections_lem :
    (closed : ℕ → Bool) (m : ConnectionMgr)
    → IsIndexed m
    → let u = remove_closed_connections closed m in
      IsIndexed u
      × ((s : Bytes) → get closed u s ≡ get closed m s)
      × (iter closed u ≡ iter closed m)
      × ((s : Bytes) → lookup s u.by_serial ≡ get closed m s)
      × ((i : ℕ) → closed i ≡ false → lookup i u.by_id ≡ lookup i m.by_id)
      × ((s : Bytes) (c : Connection)
          → lookup s m.by_serial ≡ some c
          → closed c.id ≡ true
          → lookup c.id u.by_id ≡ none)
      × (u.updates ≡ m.updates ++ map removed (closed_values closed m.by_serial))
unfolding remove_closed_connections get iter
remove_closed_connections_lem closed m v =
    let keeps = λ (_ : Bytes) (c : Connection). not (closed c.id) in
    let filtered : (s : Bytes)
        → lookup s (retain keeps m.by_serial)
          ≡ keep_if (connection_filter closed) (lookup s m.by_serial) =
      λ s. lookup-retain keeps s m.by_serial v.distinct in
    let kept : (i : ℕ)
        → closed i ≡ false
        → lookup i (drop_ids (closed_values closed m.by_serial) m.by_id) ≡ lookup i m.by_id =
      λ i o.
        lookup-drop_ids closed (closed_values closed m.by_serial) i m.by_id
          (closed_values-All closed m.by_serial) o in
    (
      record {
        distinct = retain-IsDistinct _ m.by_serial v.distinct;
        named = λ s c found. v.named s c (remains closed m s c v found).0;
        keyed = λ i c found.
            v.keyed i c (drop_ids-some (closed_values closed m.by_serial) i m.by_id c found);
        by_id = λ s c found.
            let (before, o) = remains closed m s c v found in kept c.id o ∙ v.by_id s c before;
      },
      (λ s.
          ap (keep_if (connection_filter closed)) (filtered s)
          ∙ keep_if-keep_if (connection_filter closed) (lookup s m.by_serial)),
      open_values-retain closed m.by_serial,
      filtered,
      kept,
      (λ s c found gone. drop_ids-gone closed m.by_serial s c m.by_id found gone),
      refl,
    )
