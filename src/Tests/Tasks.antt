-- ===== src/Tests/Tasks.antt =====
-- Sockets of a device, and clients of a forwarded port.
use adb_daemon_rs.Base.{
  ◌≡◌, refl, List, [], ◌∷◌, Bytes, ◌==◌, nat_eq, if◌then◌else◌, none, some, ok, true, false,
  bytes_eq,
}
use adb_daemon_rs.Base.Map.{lookup}
use adb_daemon_rs.Text.{codes}
use adb_daemon_rs.Daemon.Proto.{proto_eq, tcp, print, add}
use adb_daemon_rs.Daemon.Forward.{
  Surroundings, clean_forwards, run_command, replies, leads_to, admit_socket,
}
use adb_daemon_rs.Daemon.Forward.Admission.{handle_all}
use adb_daemon_rs.Daemon.Forward.Tasks.{
  Round, relays, closes, Arrival, relayed, forward_task, handle_socket, accept_sockets_task,
}
use adb_daemon_rs.Daemon.Forward.Tasks.Answers.{IsTask, accept_sockets_task-IsTask}
use adb_daemon_rs.Daemon.Forward.Stays.{request_all, added_relays}

abbrev asking : List Bytes
asking = codes "reverse:forward:tcp:7;tcp:80" ∷ []

abbrev opening : Bytes → Round
opening service = record {
  asked = [];
  upgraded = true;
  socket = ok service;
  connect = λ port. ok tt;
  accept = ok tt;
}

abbrev rounds : List Round
rounds = opening (codes "tcp:80") ∷ opening (codes "tcp:81") ∷ []

rounds_answered :
    accept_sockets_task (handle_all [] asking) rounds ≡ relays 80 ∷ closes (codes "denied") ∷ []
unfolding accept_sockets_task handle_all handle_socket admit_socket leads_to
rounds_answered = refl

accept_sockets_task-IsTask_example :
    IsTask asking rounds (accept_sockets_task (handle_all [] asking) rounds)
accept_sockets_task-IsTask_example = accept_sockets_task-IsTask asking rounds

abbrev calm : Surroundings
calm = record {
  conn_closed = λ _. false;
  task_finished = λ _. false;
  picked = ok 1;
  bind = λ port. ok (if port == 0 then 40000 else port);
  serial = λ _. none;
}

abbrev arriving : Arrival
arriving = record {
  accepted = true;
  target = record { conn = 1; remote = tcp 9 };
  upgraded = λ conn. true;
  open_socket = λ conn service. ok tt;
}

added : (run_command calm [] (add (tcp 0) (tcp 9) false)).0 ≡ ok (replies (some 40000))
unfolding run_command
added = refl

found :
    lookup (tcp 40000) (request_all (run_command calm [] (add (tcp 0) (tcp 9) false)).1 [])
    ≡ some arriving.target
unfolding run_command request_all lookup
found = refl

added_relays_example :
    (replies (some 40000) ≡ replies (some 40000))
    × (forward_task (arriving ∷ []) ≡ relayed 1 (print (tcp 9)) ∷ [])
unfolding lookup clean_forwards
added_relays_example =
    added_relays calm [] 0 (tcp 9) false (replies (some 40000)) 1 40000 [] arriving tt added refl
      refl tt found refl refl refl
