-- ===== src/Daemon/Startup.antt =====
-- The start of src/daemon.rs: `check_adb_server` and `bind_smartsocket`. What the other server and the
-- system answer in each round is a parameter.
pub mod Binding
use adb_daemon_rs.Base.{
  ℕ, ◌+◌, ◌≡◌, refl, ◌⊎◌, inl, inr, Bool, true, false, List, [], ◌∷◌, ◌++◌, Bytes, Option, none,
  some, Result, ok, err, nat_eq, bytes_eq, ◌==◌, if◌then◌else◌, ◌>>=◌, Bool-cases, length,
}
use adb_daemon_rs.Text.{codes}
use adb_daemon_rs.Daemon.ProtocolString.{format_length}

pub data IoError : Type 0 where
  connection_refused unexpected_eof addr_in_use other_io : IoError

-- A connection to the server: each call of the system, and the status that is read.
pub record Session : Type 0 where
  pub connect : Result IoError (Unit {0})
  pub write_all : Bytes → Result IoError (Unit {0})
  pub status : Result IoError Bytes
  pub last_byte : Result IoError (Unit {0})

-- The end of the stream instead of another byte is no error.
abbrev eof_is_ok : Result IoError (Unit {0}) → Result IoError (Unit {0})
eof_is_ok (err unexpected_eof) = ok tt
eof_is_ok r = r

-- `run_service`.
unfoldable pub run_service : Session → Bytes → Result IoError Bool
unfolding format_length
run_service s svc = s.connect >>= λ _. s.write_all (format_length (length svc) ++ svc) >>= λ _.
    s.status >>= λ status. eof_is_ok s.last_byte >>= λ _. ok (status == codes "OKAY")

-- A round of the loop: the server at the probe, and if it is to be killed, and the call of `bind`.
pub record Round : Type 0 where
  pub probe : Session
  pub kill : Session
  pub bind : Result IoError (Unit {0})

pub data StartError : Type 0 where
  io : IoError → StartError
  kill_failed not_killed bind_failed : StartError

killed : Result IoError Bool → Result StartError Bool
killed (err e) = err kill_failed
killed (ok true) = ok false
killed (ok false) = err not_killed

probed : Session → Result IoError Bool → Result StartError Bool
unfolding killed run_service
probed kill (ok true) = ok true
probed kill (ok false) = killed (run_service kill (codes "host:kill"))
probed kill (err connection_refused) = ok false
probed kill (err e) = err (io e)

-- `check_adb_server`.
unfoldable pub check_adb_server : Session → Session → Result StartError Bool
unfolding probed run_service
check_adb_server probe kill = probed kill (run_service probe (codes "host:is-adb-daemon-rs"))

-- How the start ends: with a socket, with a daemon that runs already, with an error, or not yet.
pub data Started : Type 0 where
  bound already_running looping : Started
  failed : StartError → Started

bind_ends : Result IoError (Unit {0}) → Started → Started
bind_ends (ok _) rest = bound
bind_ends (err addr_in_use) rest = rest
bind_ends (err e) rest = failed bind_failed

round_ends : Result StartError Bool → Result IoError (Unit {0}) → Started → Started
unfolding bind_ends
round_ends (err e) bind rest = failed e
round_ends (ok true) bind rest = already_running
round_ends (ok false) bind rest = bind_ends bind rest

-- `bind_smartsocket`.
unfoldable pub bind_smartsocket : List Round → Started
unfolding round_ends check_adb_server
bind_smartsocket [] = looping
bind_smartsocket (r ∷ rs) =
    round_ends (check_adb_server r.probe r.kill) r.bind (bind_smartsocket rs)
