-- ===== src/Tests/Daemon.antt =====
-- Runs of the daemon's parts.
use adb_daemon_rs.Base.{
  ℕ, zero, suc, ap, length, replicate, ◌≢◌, List, ◌++◌, Bytes, ◌≡◌, refl, [], ◌∷◌, true, false, ok,
  arith, some, none,
}
use adb_daemon_rs.Text.{codes, strip_prefix}
use adb_daemon_rs.Daemon.Proto.{tcp, other, ForwardCommand, add, parse_command}
use adb_daemon_rs.Daemon.Proto.RoundTrip.{written, IsCommand, tcp-IsFirst, parse_command-written}
use adb_daemon_rs.Daemon.Forward.{
  admit_socket, Surroundings, Listeners, clean_forwards, run_command,
}
use adb_daemon_rs.Text.Utf8.{is_utf8}
use adb_daemon_rs.Daemon.ProtocolString.{write_protocol_string, read_protocol_string}
use adb_daemon_rs.Daemon.ProtocolString.Bounds.{long_text_misread}
use adb_daemon_rs.Daemon.ProtocolString.RoundTrip.{read_protocol_string-write}
use adb_daemon_rs.Daemon.Forward.Admission.{handle_all}
use adb_daemon_rs.Daemon.Forward.Listeners.{AddEnds, add_ends}

abbrev forward_shell : ForwardCommand
forward_shell = add (tcp 8000) (other (codes "localabstract:x")) true

forward_shell-IsCommand : IsCommand forward_shell
unfolding strip_prefix
forward_shell-IsCommand = (tcp-IsFirst 8000 (omega arith), refl)

parse_command-written_example : parse_command (written forward_shell) ≡ ok (some forward_shell)
parse_command-written_example = parse_command-written forward_shell forward_shell-IsCommand

abbrev quiet : Surroundings
quiet = record {
  conn_closed = λ _. false;
  task_finished = λ _. false;
  picked = ok 1;
  bind = λ port. ok port;
  serial = λ _. none;
}

abbrev listening : Listeners
listening = (tcp 8000, record { conn = 1; remote = tcp 1 }) ∷ []

add_ends_example :
    AddEnds quiet
      (clean_forwards quiet listening)
      8000
      (tcp 2)
      true
      (run_command quiet listening (add (tcp 8000) (tcp 2) true))
add_ends_example = add_ends quiet listening 8000 (tcp 2) true

abbrev asked : List Bytes
asked = codes "reverse:forward:tcp:7;tcp:80" ∷ []

asked_admits : admit_socket (handle_all [] asked) (codes "tcp:80") ≡ ok 80
unfolding admit_socket handle_all
asked_admits = refl

read_protocol_string-write_example :
    read_protocol_string (write_protocol_string (codes "host:version") ++ codes "000c")
    ≡ ok (codes "host:version", codes "000c")
unfolding is_utf8
read_protocol_string-write_example =
    read_protocol_string-write (codes "host:version") (codes "000c") (omega arith) refl

abbrev long_text : Bytes
long_text = replicate 65536 65

length-replicate : (n b : ℕ) → length (replicate n b) ≡ n
length-replicate zero b = refl
length-replicate (suc n) b = ap suc (length-replicate n b)

long_text_misread_example :
    read_protocol_string (write_protocol_string long_text ++ []) ≢ ok (long_text, [])
long_text_misread_example =
    long_text_misread long_text [] (omega (arith, length-replicate 65536 65))
