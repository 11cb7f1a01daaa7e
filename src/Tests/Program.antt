-- ===== src/Tests/Program.antt =====
-- A process that is started as `adb` while a daemon runs, and one that gets its socket.
use adb_daemon_rs.Base.{◌≡◌, refl, [], ◌∷◌, ◌==◌, bytes_eq, if◌then◌else◌, none, some, ok, true}
use adb_daemon_rs.Text.{codes}
use adb_daemon_rs.Daemon.Startup.{bind_smartsocket, check_adb_server, run_service}
use adb_daemon_rs.Daemon.Program.{
  child, System, replaced, adb_shim, print_fd, real_server, c_string,
}
use adb_daemon_rs.Daemon.Program.Shim.{LinkEnds, adb_shim-LinkEnds}
use adb_daemon_rs.Tests.Startup.{nobody}

abbrev forked_child : System
forked_child = record {
  load_config = ok tt;
  current_exe = ok (codes "/bin/adb");
  file_name = λ path. some (if path == codes "/bin/adb" then codes "adb" else codes "daemon");
  read_link = λ path. some (codes "/opt/daemon");
  rounds = record { probe = nobody; kill = nobody; bind = ok tt } ∷ [];
  raw_fd = 3;
  fcntl = λ fd flag. ok tt;
  fork = ok child;
  which_all = ok (codes "/bin/adb" ∷ codes "/usr/bin/adb" ∷ []);
  args = codes "adb" ∷ codes "shell" ∷ [];
  execv = λ bin args. none;
  parse = λ args. some (some (record { fd = some 3; daemon = true }));
  stdio = λ call. ok tt;
}

child_is_server :
    adb_shim forked_child
    ≡ replaced
        (codes "/opt/daemon")
        (codes "/opt/daemon" ∷ codes "server" ∷ codes "--daemon" ∷ codes "--fd" ∷ codes "3" ∷ [])
unfolding adb_shim bind_smartsocket check_adb_server run_service real_server c_string print_fd
child_is_server = refl

adb_shim-LinkEnds_example :
    LinkEnds forked_child (codes "/bin/adb") (codes "/opt/daemon") (adb_shim forked_child)
adb_shim-LinkEnds_example =
    adb_shim-LinkEnds forked_child (codes "/bin/adb") (codes "/opt/daemon") refl refl refl

abbrev started_server : System
started_server = record forked_child { current_exe = ok (codes "/opt/daemon") }
