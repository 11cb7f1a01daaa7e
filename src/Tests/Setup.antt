-- ===== src/Tests/Setup.antt =====
-- An endpoint that answers from a script, and a transport and sockets over it.
use adb_daemon_rs.Base.{
  ◌≡◌, refl, ap, subst, List, [], ◌∷◌, ◌++◌, Bytes, All, false, none, some, Result, ok, Poll,
  pending, ready,
}
use adb_daemon_rs.Words.{IsByte}
use adb_daemon_rs.Transport.Error.{TransferError}
use adb_daemon_rs.Transport.Connection.{Connection}
use adb_daemon_rs.Transport.Endpoint.{Endpoint, Buffer}
use adb_daemon_rs.Transport.Usb.{Usb}
use adb_daemon_rs.Transport.Usb.Writing.{usb_connection}
use adb_daemon_rs.Transport.Backend.{SocketBackend, Backend}
use adb_daemon_rs.Transport.Banner.{Banner, device}

pub record Packet : Type 0 where
  pub bytes : Bytes
  pub valid : All IsByte bytes

-- The transfers that wait, and the packets with which they will complete.
pub record Script : Type 0 where
  pub waiting : List Buffer
  pub packets : List Packet

abbrev pub Completion : Type 0
Completion = Poll (Result TransferError Buffer) × Script

abbrev pub complete : List Buffer → List Packet → Completion
complete [] ps = (pending, record { waiting = []; packets = ps })
complete (b ∷ bs) [] = (pending, record { waiting = b ∷ bs; packets = [] })
complete (b ∷ bs) (p ∷ ps) = (
  ready (ok (record { requested = b.requested; bytes = p.bytes })),
  record { waiting = bs; packets = ps },
)

pub complete_waits :
    (bs : List Buffer) (ps : List Packet) (t : Script)
    → complete bs ps ≡ (pending, t)
    → t.waiting ≡ bs
complete_waits [] ps t e = cc
complete_waits (b ∷ bs) [] t e = cc
complete_waits (b ∷ bs) (p ∷ ps) t e = cc

pub complete_completes :
    (bs : List Buffer) (ps : List Packet) (t : Script) (r : Result TransferError Buffer)
    → complete bs ps ≡ (ready r, t)
    → (b : Buffer) × (bs ≡ b ∷ t.waiting)
complete_completes [] ps t r e = cc
complete_completes (b ∷ bs) [] t r e = cc
complete_completes (b ∷ bs) (p ∷ ps) t r e = (b, ap (λ (c : Completion). b ∷ c.1.waiting) e)

pub complete_keeps_length :
    (bs : List Buffer) (ps : List Packet) (t : Script) (b c : Buffer)
    → complete bs ps ≡ (ready (ok c), t)
    → bs ≡ b ∷ t.waiting
    → c.requested ≡ b.requested
complete_keeps_length [] ps t b c e q = cc
complete_keeps_length (b' ∷ bs) [] t b c e q = cc
complete_keeps_length (b' ∷ bs) (p ∷ ps) t b c e q = cc

pub complete_bytes :
    (bs : List Buffer) (ps : List Packet) (t : Script) (c : Buffer)
    → complete bs ps ≡ (ready (ok c), t)
    → All IsByte c.bytes
complete_bytes [] ps t c e = cc
complete_bytes (b ∷ bs) [] t c e = cc
complete_bytes (b ∷ bs) (p ∷ ps) t c e =
    let same : p.bytes ≡ c.bytes = cc in subst (All IsByte) same p.valid

abbrev pub scripted : Endpoint
scripted = record {
  State = Script;
  submit = λ s b. record s { waiting = s.waiting ++ b ∷ [] };
  queue = λ s. s.waiting;
  poll_next_complete = λ s. complete s.waiting s.packets;
  queue-submit = λ s b. refl;
  poll_waits = λ s t e. complete_waits s.waiting s.packets t e;
  poll_completes = λ s t r e. complete_completes s.waiting s.packets t r e;
  poll_keeps_length = λ s t b c e q. complete_keeps_length s.waiting s.packets t b c e q;
  poll_bytes = λ s t c e. complete_bytes s.waiting s.packets t c e;
}

abbrev pub idle : Script
idle = record { waiting = []; packets = [] }

abbrev pub idle_usb : Usb scripted scripted
idle_usb = record { in_endpoint = idle; out_endpoint = idle; packet_size = 512; in_header = none }

abbrev pub over_usb : Connection
over_usb = usb_connection scripted scripted

abbrev pub no_banner : Banner
no_banner = record { device_type = device; properties = []; features = [] }

abbrev pub open_transport : Usb scripted scripted → Backend over_usb
open_transport u = record {
  connection = some (record { inner = u; write_wakers = [] });
  last_id = 1;
  error = none;
  sockets = [];
  banner = no_banner;
  heap = [];
  notices = [];
}

-- A socket that has ten bytes of credit and three bytes to read.
abbrev pub busy_socket : SocketBackend
busy_socket = record {
  local_id = 4;
  state = record {
    remote_id = 9;
    is_closed = false;
    read_buffer = (1 ∷ 2 ∷ []) ∷ (3 ∷ []) ∷ [];
    initial_acknowledgment = 12;
    acknowledged = 10;
  };
}

abbrev pub some_bytes : Bytes
some_bytes = 7 ∷ 8 ∷ 9 ∷ []
