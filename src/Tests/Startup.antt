-- ===== src/Tests/Startup.antt =====
-- A start that finds another server.
use adb_daemon_rs.Base.{◌≡◌, refl, List, [], ◌∷◌, Bytes, ok, err, nat_eq, bytes_eq}
use adb_daemon_rs.Text.{codes}
use adb_daemon_rs.Daemon.Startup.{
  connection_refused, unexpected_eof, addr_in_use, Session, run_service, Round, check_adb_server,
  bound, bind_smartsocket,
}
use adb_daemon_rs.Daemon.Startup.Binding.{Explains, bind_smartsocket_lem}

abbrev pub answering : Bytes → Session
answering status = record {
  connect = ok tt;
  write_all = λ request. ok tt;
  status = ok status;
  last_byte = err unexpected_eof;
}

abbrev pub nobody : Session
nobody = record (answering []) { connect = err connection_refused }

abbrev attempts : List Round
attempts =
    record {
      probe = answering (codes "FAIL");
      kill = answering (codes "OKAY");
      bind = err addr_in_use;
    }
    ∷ record { probe = nobody; kill = nobody; bind = ok tt }
    ∷ []

attempts_bind : bind_smartsocket attempts ≡ bound
unfolding bind_smartsocket check_adb_server run_service
attempts_bind = refl

bind_smartsocket_lem_example : Explains attempts (bind_smartsocket attempts)
bind_smartsocket_lem_example = bind_smartsocket_lem attempts
