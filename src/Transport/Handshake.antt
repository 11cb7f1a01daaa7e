-- ===== src/Transport/Handshake.antt =====
-- `AuthTransport` of packages/transport/src/transport.rs. A run has the messages that it reads, in
-- order, and what each write gives, as parameters, and so what the key makes of a token and of itself.
pub mod Answers
pub mod Ending
use adb_daemon_rs.Base.{
  ℕ, List, [], ◌∷◌, ◌++◌, Bool, true, false, Bytes, Option, none, some, Result, ok, err,
  if◌then◌else◌, map_err, ◌>>=◌, ◌>>◌,
}
use adb_daemon_rs.Text.{codes}
use adb_daemon_rs.Text.Utf8.{is_utf8}
use adb_daemon_rs.Transport.Error.{
  Error, of_kind, new, invalid_data, delayed_ack_not_available, sign, msg, text, foreign, caused_by,
}
use adb_daemon_rs.Transport.Message.{
  AdbMessage, AdbCommand, sync, cnxn, open_, okay, wrte, clse, auth, stls, new_message,
}
use adb_daemon_rs.Transport.Banner.{Banner, from_str, contains}
use adb_daemon_rs.Transport.Backend.{TransportBackend, max_payload}

abbrev pub version : ℕ
version = 0x01000001

abbrev pub auth_type_signature : ℕ
auth_type_signature = 2

abbrev pub auth_type_publickey : ℕ
auth_type_publickey = 3

unfoldable pub conn_str : Bytes
conn_str =
    codes
      "host::features=shell_v2,cmd,stat_v2,ls_v2,fixed_push_mkdir,apex,abb,fixed_push_symlink_timestamp,abb_exec,remount_shell,track_app,sendrecv_v2,sendrecv_v2_brotli,sendrecv_v2_lz4,sendrecv_v2_zstd,sendrecv_v2_dry_run_send,openscreen_mdns,devicetracker_proto_format,delayed_ack"

-- What `AuthTransport::new` writes.
unfoldable pub hello : AdbMessage
unfolding conn_str
hello = new_message cnxn version max_payload conn_str

pub data AuthMode : Type 0 where
  new_key existing : AuthMode

-- The surroundings of a run.
pub record Peer : Type 0 where
  -- The key's signature of a token, if signing succeeds, and `encode_public_key` of the key.
  pub signature : Bytes → Option Bytes
  pub public_key : Result Error Bytes
  pub write : AdbMessage → Result Error (Unit {0})

-- How `auth` ends: with a transport, with `last_auth` unanswered, with an error, or not at all yet.
pub data AuthEnd (C : Type 0) : Type 0 where
  accepted : TransportBackend C → AuthEnd C
  rejected : AdbMessage → AuthEnd C
  failed : Error → AuthEnd C
  waits : AuthEnd C

-- A run: what was written, how it ended, and the messages that were not read.
pub record AuthRun (C : Type 0) : Type 0 where
  pub sent : List AdbMessage
  pub ends : AuthEnd C
  pub unread : List (Result Error AdbMessage)

-- The answer to an `AUTH` message.
unfoldable pub answer : Peer → AuthMode → AdbMessage → Result Error AdbMessage
answer w existing m = elim (w.signature m.payload) [
  | none ↦ err (new sign foreign)
  | some s ↦ ok (new_message auth auth_type_signature 0 s)
]
answer w new_key m = elim w.public_key [
  | err e ↦ err e
  | ok k ↦ ok (new_message auth auth_type_publickey 0 k)
]

pub parse_banner : Bytes → Result Error Banner
unfolding from_str
parse_banner s = map_err (λ e. new (msg (codes "parse banner")) (caused_by e)) (from_str s)

module _ {C : Type 0} where
  -- The transport at its start.
  abbrev pub new_backend : C → Banner → TransportBackend C
  new_backend c banner = record {
    connection = some (record { inner = c; write_wakers = [] });
    last_id = 1;
    error = none;
    sockets = [];
    banner = banner;
    heap = [];
    notices = [];
  }

  with_banner : C → Result Error Banner → AuthEnd C
  unfolding contains
  with_banner c (err e) = failed e
  with_banner c (ok banner) =
      if contains (codes "delayed_ack") banner.features
      then accepted (new_backend c banner)
      else failed (of_kind delayed_ack_not_available)

  -- `handle_cnxn`.
  unfoldable pub handle_cnxn : C → AdbMessage → AuthEnd C
  unfolding with_banner parse_banner
  handle_cnxn c m =
      if is_utf8 m.payload
      then with_banner c (parse_banner m.payload)
      else failed (new invalid_data (text (codes "malformed conn str")))

  written :
      AuthRun C → AdbMessage → List (Result Error AdbMessage) → Result Error (Unit {0}) → AuthRun C
  written rest a unread (err e) = record { sent = a ∷ []; ends = failed e; unread = unread }
  written rest a unread (ok _) = record rest { sent = a ∷ rest.sent }

  answered : Peer → AuthRun C → List (Result Error AdbMessage) → Result Error AdbMessage → AuthRun C
  unfolding written
  answered w rest unread (err e) = record { sent = []; ends = failed e; unread = unread }
  answered w rest unread (ok a) = written rest a unread (w.write a)

  by_key :
      Peer
      → Option AuthMode
      → (Option AuthMode → AuthRun C)
      → List (Result Error AdbMessage)
      → AdbMessage
      → AuthRun C
  unfolding answered answer
  by_key w none rest unread m = record { sent = []; ends = rejected m; unread = unread }
  by_key w (some key) rest unread m = answered w (rest none) unread (answer w key m)

  -- One round of the loop, with the rounds that follow it.
  round :
      Peer
      → C
      → Option AuthMode
      → (Option AuthMode → AuthRun C)
      → List (Result Error AdbMessage)
      → AdbMessage
      → AdbCommand
      → AuthRun C
  unfolding by_key handle_cnxn
  round w c key rest unread m auth = by_key w key rest unread m
  round w c key rest unread m cnxn = record { sent = []; ends = handle_cnxn c m; unread = unread }
  round w c key rest unread m _ = rest key

  auth_loop : Peer → C → List (Result Error AdbMessage) → Option AuthMode → AuthRun C
  unfolding round
  auth_loop w c [] key = record { sent = []; ends = waits; unread = [] }
  auth_loop w c (err e ∷ ms) key = record { sent = []; ends = failed e; unread = ms }
  auth_loop w c (ok m ∷ ms) key = round w c key (auth_loop w c ms) ms m m.header.command

  -- `auth`. The message in `last_auth` is taken before any that is read.
  unfoldable pub authenticate :
      Peer → C → Option AdbMessage → List (Result Error AdbMessage) → AuthMode → AuthRun C
  unfolding auth_loop
  authenticate w c none ms key = auth_loop w c ms (some key)
  authenticate w c (some m) ms key = auth_loop w c (ok m ∷ ms) (some key)
