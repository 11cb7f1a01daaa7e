-- ===== src/Tests/Manager.antt =====
-- Runs of the connection manager.
use adb_daemon_rs.Base.{
  ℕ, ◌≡◌, [], ◌++◌, Bytes, Bool, map, some, none, true, ◌==◌, nat_eq, bytes_eq, false,
}
use adb_daemon_rs.Base.Map.{lookup}
use adb_daemon_rs.Text.{codes}
use adb_daemon_rs.Tests.Setup.{no_banner}
use adb_daemon_rs.Daemon.Manager.{
  Connection, create, ConnectionMgr, removed, get, iter, new_connection, closed_values,
  remove_closed_connections,
}
use adb_daemon_rs.Daemon.Manager.Index.{
  IsIndexed, new_connection_lem, remove_closed_connections_lem,
}

abbrev pub no_connections : ConnectionMgr
no_connections = record { by_serial = []; by_id = []; updates = [] }

abbrev pub pixel : Connection
pixel = create (record { id = 1; serial = codes "pixel" }) no_banner

abbrev only_first : ℕ → Bool
only_first id = id == 1

no_connections-IsIndexed : IsIndexed no_connections
unfolding lookup
no_connections-IsIndexed = record {
  distinct = tt;
  named = λ s c e. cc;
  by_id = λ s c e. cc;
  keyed = λ i c e. cc;
}

abbrev pub one_connection : ConnectionMgr
one_connection = new_connection no_connections pixel

one_connection-IsIndexed : IsIndexed one_connection
unfolding lookup
one_connection-IsIndexed =
    (new_connection_lem only_first no_connections pixel no_connections-IsIndexed (λ s c e. cc)).0

remove_closed_connections_lem_example :
    let u = remove_closed_connections only_first one_connection in
    IsIndexed u
    × ((s : Bytes) → get only_first u s ≡ get only_first one_connection s)
    × (iter only_first u ≡ iter only_first one_connection)
    × ((s : Bytes) → lookup s u.by_serial ≡ get only_first one_connection s)
    × ((i : ℕ) → only_first i ≡ false → lookup i u.by_id ≡ lookup i one_connection.by_id)
    × ((s : Bytes) (c : Connection)
        → lookup s one_connection.by_serial ≡ some c
        → only_first c.id ≡ true
        → lookup c.id u.by_id ≡ none)
    × (u.updates
        ≡ one_connection.updates ++ map removed (closed_values only_first one_connection.by_serial))
remove_closed_connections_lem_example =
    remove_closed_connections_lem only_first one_connection one_connection-IsIndexed
