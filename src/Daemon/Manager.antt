-- ===== src/Daemon/Manager.antt =====
-- `ConnectionMgr` of src/connection/manager.rs: the connections by serial and by id. Whether the
-- transport of a connection is closed is a parameter, by the connection's id. The messages that go
-- to the subscribers of `device_updates` are the list `updates`.
pub mod Index
use adb_daemon_rs.Base.{
  ℕ, ◌+◌, ◌%◌, ◌^◌, Bool, true, false, not, List, [], ◌∷◌, ◌++◌, Bytes, Option, none, some, map,
  nat_eq, bytes_eq, if◌then◌else◌,
}
use adb_daemon_rs.Base.Map.{Map, lookup, insert, remove, retain, keep_if}
use adb_daemon_rs.Transport.Banner.{Banner}
use adb_daemon_rs.Words.{usize_mod}

-- `MaybeConnection` and `WeakConnection`. The reverse forwards of a connection are kept elsewhere, by
-- its id.
pub record MaybeConnection : Type 0 where
  pub id : ℕ
  pub serial : Bytes

pub record Connection : Type 0 where
  pub id : ℕ
  pub serial : Bytes
  pub banner : Banner

pub data DeviceUpdate : Type 0 where
  added removed : Connection → DeviceUpdate

pub record ConnectionMgr : Type 0 where
  pub by_serial : Map Bytes Connection
  pub by_id : Map ℕ Connection
  pub updates : List DeviceUpdate

-- `MaybeConnection::alloc` at the counter `next`: the connection, and the counter behind it.
abbrev pub alloc : ℕ → Bytes → MaybeConnection × ℕ
alloc next serial = (record { id = next; serial = serial }, (next + 1) % usize_mod)

-- `MaybeConnection::create`, for a backend with that banner.
abbrev pub create : MaybeConnection → Banner → Connection
create m banner = record { id = m.id; serial = m.serial; banner = banner }

-- `connection_filter`.
abbrev pub connection_filter : (ℕ → Bool) → Connection → Bool
connection_filter closed c = not (closed c.id)

unfoldable pub get : (ℕ → Bool) → ConnectionMgr → Bytes → Option Connection
unfolding lookup
get closed m serial = keep_if (connection_filter closed) (lookup serial m.by_serial)

-- The connections that pass the filter, in the order of the map.
unfoldable pub open_values : (ℕ → Bool) → Map Bytes Connection → List Connection
open_values closed [] = []
open_values closed ((serial, c) ∷ m) =
    let rest = open_values closed m in if connection_filter closed c then c ∷ rest else rest

unfoldable pub iter : (ℕ → Bool) → ConnectionMgr → List Connection
unfolding open_values
iter closed m = open_values closed m.by_serial

-- `new_connection`, for the connection that `create` gives.
unfoldable pub new_connection : ConnectionMgr → Connection → ConnectionMgr
unfolding insert
new_connection m c = record {
  by_serial = insert c.serial c m.by_serial;
  by_id = insert c.id c m.by_id;
  updates = m.updates ++ added c ∷ [];
}

-- The vector `removed`.
unfoldable pub closed_values : (ℕ → Bool) → Map Bytes Connection → List Connection
closed_values closed [] = []
closed_values closed ((serial, c) ∷ m) =
    let rest = closed_values closed m in if closed c.id then c ∷ rest else rest

unfoldable pub drop_ids : List Connection → Map ℕ Connection → Map ℕ Connection
unfolding remove
drop_ids [] m = m
drop_ids (c ∷ cs) m = drop_ids cs (remove c.id m)

unfoldable pub remove_closed_connections : (ℕ → Bool) → ConnectionMgr → ConnectionMgr
unfolding closed_values drop_ids retain
remove_closed_connections closed m =
    let gone = closed_values closed m.by_serial in
    record {
      by_serial = retain (λ _ c. not (closed c.id)) m.by_serial;
      by_id = drop_ids gone m.by_id;
      updates = m.updates ++ map removed gone;
    }
