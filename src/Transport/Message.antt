-- ===== src/Transport/Message.antt =====
-- packages/transport/src/message.rs: commands, headers and their bytes.
pub mod Codec
use Prim.Native.Nat.{bit_xor}
use adb_daemon_rs.Base.{
  ℕ, ◌%◌, ◌<◌, ◌≡◌, Bool, true, false, Bytes, [], ◌∷◌, ◌++◌, length, Option, none, some, Result, ok,
  err, Run, done, panicked, ltb, if◌then◌else◌, ◌==◌, nat_eq, map_err, ok_or,
}
use adb_daemon_rs.Base.Runs.{◌>>=◌}
use adb_daemon_rs.Words.{u32_mod, to_le_bytes, get_u32_le}
use adb_daemon_rs.Text.{codes}
use adb_daemon_rs.Transport.Error.{Error, new, invalid_data, Source, text}

pub data AdbCommand : Type 0 where
  sync cnxn open_ okay clse wrte auth stls : AdbCommand

-- `command as u32`.
abbrev pub code_of : AdbCommand → ℕ
code_of sync = 0x434e5953
code_of cnxn = 0x4e584e43
code_of open_ = 0x4e45504f
code_of okay = 0x59414b4f
code_of clse = 0x45534c43
code_of wrte = 0x45545257
code_of auth = 0x48545541
code_of stls = 0x534c5453

-- `AdbCommand::try_from`, derived from the representation.
unfoldable pub command_of : ℕ → Option AdbCommand
command_of n =
    if n == code_of sync
    then some sync
    else if n == code_of cnxn
    then some cnxn
    else if n == code_of open_
    then some open_
    else if n == code_of okay
    then some okay
    else if n == code_of clse
    then some clse
    else if n == code_of wrte
    then some wrte
    else if n == code_of auth
    then some auth
    else if n == code_of stls
    then some stls
    else none

pub record AdbMessageHeader : Type 0 where
  pub command : AdbCommand
  pub arg0 : ℕ
  pub arg1 : ℕ
  pub data_length : ℕ
  pub crc32 : ℕ
  pub magic : ℕ

-- `AdbMessageHeader::LENGTH`.
abbrev pub header_length : ℕ
header_length = 24

-- The fields are read in the order of the bytes; the command is checked before the others are read.
read_fields : AdbCommand → Bytes → Run (Result Error AdbMessageHeader)
read_fields command buf = do
  (arg0, buf) ← get_u32_le buf
  (arg1, buf) ← get_u32_le buf
  (data_length, buf) ← get_u32_le buf
  (crc32, buf) ← get_u32_le buf
  (magic, buf) ← get_u32_le buf
  done (
      ok (record {
        command = command;
        arg0 = arg0;
        arg1 = arg1;
        data_length = data_length;
        crc32 = crc32;
        magic = magic;
      }))

read_command : Option AdbCommand → Bytes → Run (Result Error AdbMessageHeader)
unfolding read_fields
read_command none buf = done (err (new invalid_data (text (codes "unknown command"))))
read_command (some command) buf = read_fields command buf

-- `AdbMessageHeader::read`.
unfoldable pub read : Bytes → Run (Result Error AdbMessageHeader)
unfolding read_command
read buf =
    if ltb (length buf) header_length
    then done (err (new invalid_data (text (codes "header too short"))))
    else (do (word, rest) ← get_u32_le buf; read_command (command_of word) rest)

-- `AdbMessageHeader::write` into an empty vector, which is `to_vec`.
unfoldable pub to_vec : AdbMessageHeader → Bytes
to_vec h =
    to_le_bytes (code_of h.command)
    ++ (to_le_bytes h.arg0
        ++ (to_le_bytes h.arg1
            ++ (to_le_bytes h.data_length ++ (to_le_bytes h.crc32 ++ to_le_bytes h.magic))))

pub record AdbMessage : Type 0 where
  pub header : AdbMessageHeader
  pub payload : Bytes

-- `AdbMessage::new`.
abbrev pub new_message : AdbCommand → ℕ → ℕ → Bytes → AdbMessage
new_message command arg0 arg1 payload = record {
  header = record {
    command = command;
    arg0 = arg0;
    arg1 = arg1;
    data_length = length payload % u32_mod;
    crc32 = 0;
    magic = bit_xor (code_of command) 0xffffffff;
  };
  payload = payload;
}

-- The values that a `u32` can hold.
pub record IsHeader (h : AdbMessageHeader) : Type 0 where
  pub arg0_fits : h.arg0 < u32_mod
  pub arg1_fits : h.arg1 < u32_mod
  pub data_length_fits : h.data_length < u32_mod
  pub crc32_fits : h.crc32 < u32_mod
  pub magic_fits : h.magic < u32_mod
