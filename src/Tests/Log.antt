-- ===== src/Tests/Log.antt =====
-- A log directory with more files than are kept.
use adb_daemon_rs.Base.{◌≡◌, refl, ap, [], ◌∷◌, some, ok, true, false}
use adb_daemon_rs.Text.{codes}
use adb_daemon_rs.Daemon.Log.{
  Directory, System, RollingWriter, Rolled, roll, leave_full, make_dir, old_files, remove_files,
  is_log, sort, rev,
}
use adb_daemon_rs.Daemon.Log.Rolling.{Rolls, roll_lem}

abbrev old : Directory
old = record {
  exists = true;
  names = codes "2.log" ∷ codes "notes.txt" ∷ codes "1.log" ∷ codes "3.log" ∷ [];
}

abbrev system : System
system = record { call_fails = λ call. false; position = 9; now = 1000; timestamp = codes "4" }

abbrev writer : RollingWriter
writer = record { cutoff = 8; count = 2; error_timeout = 0; file = some (codes "3.log") }

rolled : roll system old writer ≡ (
  ok tt,
  record {
    exists = true;
    names = codes "4.log" ∷ codes "2.log" ∷ codes "notes.txt" ∷ codes "3.log" ∷ [];
  },
  record writer { file = some (codes "4.log") },
)
unfolding roll leave_full make_dir old_files remove_files is_log sort rev
rolled = refl

roll_lem_example : Rolls system old writer (roll system old writer).1 (roll system old writer).2
roll_lem_example = roll_lem system old writer (ap (λ (r : Rolled). r.0) rolled)
