-- ===== src/Tests/Handshake.antt =====
-- Runs of the handshake.
use adb_daemon_rs.Base.{◌≡◌, refl, List, [], ◌∷◌, none, some, Result, ok}
use adb_daemon_rs.Text.{codes}
use adb_daemon_rs.Transport.Error.{Error}
use adb_daemon_rs.Transport.Message.{AdbMessage, auth, cnxn, new_message}
use adb_daemon_rs.Transport.Handshake.{Peer, existing, rejected, authenticate, answer}
use adb_daemon_rs.Transport.Handshake.Answers.{AuthEnds, authenticate_lem}
use adb_daemon_rs.Tests.Setup.{idle_usb, some_bytes}

abbrev pub peer : Peer
peer = record {
  signature = λ token. some (1 ∷ token);
  public_key = ok some_bytes;
  write = λ m. ok tt;
}

abbrev pub first_token : AdbMessage
first_token = new_message auth 1 0 (5 ∷ [])

abbrev second_token : AdbMessage
second_token = new_message auth 1 0 (6 ∷ [])

abbrev pub connected : AdbMessage
connected = new_message cnxn 0 0 (codes "device::a=b;features=delayed_ack")

abbrev tokens : List (Result Error AdbMessage)
tokens = ok first_token ∷ ok second_token ∷ []

authenticate_lem_example :
    AuthEnds peer idle_usb
      (some existing)
      (ok first_token ∷ ok connected ∷ [])
      (authenticate peer idle_usb none (ok first_token ∷ ok connected ∷ []) existing)
authenticate_lem_example =
    authenticate_lem peer idle_usb none (ok first_token ∷ ok connected ∷ []) existing

rejecting : (authenticate peer idle_usb none tokens existing).ends ≡ rejected second_token
unfolding authenticate answer
rejecting = refl
