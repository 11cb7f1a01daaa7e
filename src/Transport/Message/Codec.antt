-- ===== src/Transport/Message/Codec.antt =====
-- Reading and writing message headers.
use adb_daemon_rs.Base.{
  ℕ, ◌≤◌, ◌<◌, ◌≡◌, refl, sym, ◌⊎◌, inl, inr, Bytes, ◌++◌, append_assoc, length, length-append,
  take, take-append, All, All-append, some, ok, err, done, arith, Option-cases, ◌∙◌,
}
use Prim.Native.Nat.{bit_xor, ◌-◌}
use native.Mathlib.Nat.{mod-eq_of_lt}
use native.Mathlib.Decide.{dec_le}
use adb_daemon_rs.Base.Runs.{◌>>=◌}
use adb_daemon_rs.Words.{
  u32_mod, IsByte, to_le_bytes, get_u32_le, get_u32_le-to_le_bytes, to_le_bytes-All, Word,
  take_word,
}
use adb_daemon_rs.Transport.Error.{Error, new, invalid_data, text}
use adb_daemon_rs.Text.{codes}
use adb_daemon_rs.Transport.Message.{
  AdbCommand, sync, code_of, command_of, AdbMessageHeader, IsHeader, read, read_fields,
  read_command, to_vec, new_message, header_length,
}

code_lt : (c : AdbCommand) → code_of c < u32_mod
code_lt sync = omega arith
code_lt _ = omega arith

magic_eq : (c : AdbCommand) → bit_xor (code_of c) 0xffffffff ≡ 0xffffffff - code_of c
magic_eq sync = refl
magic_eq _ = refl

command_of-code_of : (c : AdbCommand) → command_of (code_of c) ≡ some c
unfolding command_of
command_of-code_of sync = refl
command_of-code_of _ = refl

code_of-command_of : (n : ℕ) (c : AdbCommand) → command_of n ≡ some c → n ≡ code_of c
unfolding command_of
code_of-command_of n c h = ground arith

read_fields-to_le_bytes :
    (h : AdbMessageHeader) (rest : Bytes)
    → IsHeader h
    → read_fields h.command (
        to_le_bytes h.arg0
        ++ (to_le_bytes h.arg1
            ++ (to_le_bytes h.data_length
                ++ (to_le_bytes h.crc32 ++ (to_le_bytes h.magic ++ rest)))))
      ≡ done (ok h)
unfolding read_fields
read_fields-to_le_bytes h rest v = rw (
  get_u32_le-to_le_bytes h.arg0 _ v.arg0_fits,
  get_u32_le-to_le_bytes h.arg1 _ v.arg1_fits,
  get_u32_le-to_le_bytes h.data_length _ v.data_length_fits,
  get_u32_le-to_le_bytes h.crc32 _ v.crc32_fits,
  get_u32_le-to_le_bytes h.magic _ v.magic_fits,
)

to_vec-append :
    (h : AdbMessageHeader) (rest : Bytes)
    → to_vec h ++ rest
      ≡ to_le_bytes (code_of h.command)
        ++ (to_le_bytes h.arg0
            ++ (to_le_bytes h.arg1
                ++ (to_le_bytes h.data_length
                    ++ (to_le_bytes h.crc32 ++ (to_le_bytes h.magic ++ rest)))))
unfolding to_vec
to_vec-append h rest = simp append_assoc

pub length-to_vec : (h : AdbMessageHeader) → length (to_vec h) ≡ header_length
unfolding to_vec to_le_bytes
length-to_vec h = refl

read_long :
    (buf : Bytes)
    → header_length ≤ length buf
    → read buf ≡ (get_u32_le buf >>= λ p. read_command (command_of p.0) p.1)
unfolding read
read_long buf h = ground arith

pub to_vec-All : (h : AdbMessageHeader) → All IsByte (to_vec h)
unfolding to_vec
to_vec-All h = All-append IsByte _ _ (to_le_bytes-All (code_of h.command)) (
    All-append IsByte _ _ (to_le_bytes-All h.arg0) (
      All-append IsByte _ _ (to_le_bytes-All h.arg1) (
        All-append IsByte _ _ (to_le_bytes-All h.data_length)
          (All-append IsByte _ _ (to_le_bytes-All h.crc32) (to_le_bytes-All h.magic)))))

-- Every header is read back from its bytes, whatever bytes follow.
pub read-to_vec :
    (h : AdbMessageHeader) (rest : Bytes) → IsHeader h → read (to_vec h ++ rest) ≡ done (ok h)
unfolding read_command
read-to_vec h rest v =
    rw
      (
        read_long (to_vec h ++ rest)
            (omega (arith, length-append {0} (to_vec h) rest, length-to_vec h)),
        to_vec-append h rest,
        get_u32_le-to_le_bytes (code_of h.command) _ (code_lt h.command),
        command_of-code_of h.command,
      )
      (read_fields-to_le_bytes h rest v)

-- Reading goes on with the command word and the buffer behind it.
module _ (buf : Bytes) (long : header_length ≤ length buf) (valid : All IsByte buf) where
  w0 : Word buf
  w0 = take_word buf valid (omega arith)

  w1 : Word w0.rest
  w1 = take_word w0.rest w0.bytes (omega (arith, w0.size))

  w2 : Word w1.rest
  w2 = take_word w1.rest w1.bytes (omega (arith, w0.size, w1.size))

  w3 : Word w2.rest
  w3 = take_word w2.rest w2.bytes (omega (arith, w0.size, w1.size, w2.size))

  w4 : Word w3.rest
  w4 = take_word w3.rest w3.bytes (omega (arith, w0.size, w1.size, w2.size, w3.size))

  w5 : Word w4.rest
  w5 = take_word w4.rest w4.bytes (omega (arith, w0.size, w1.size, w2.size, w3.size, w4.size))

  header_at : AdbCommand → AdbMessageHeader
  header_at c = record {
    command = c;
    arg0 = w1.value;
    arg1 = w2.value;
    data_length = w3.value;
    crc32 = w4.value;
    magic = w5.value;
  }

  header_at-IsHeader : (c : AdbCommand) → IsHeader (header_at c)
  unfolding header_at
  header_at-IsHeader c = record {
    arg0_fits = w1.fits;
    arg1_fits = w2.fits;
    data_length_fits = w3.fits;
    crc32_fits = w4.fits;
    magic_fits = w5.fits;
  }

  read_eq : read buf ≡ read_command (command_of w0.value) w0.rest
  read_eq = rw (read_long buf long, w0.got)

  read_fields_eq : (c : AdbCommand) → read_fields c w0.rest ≡ done (ok (header_at c))
  unfolding read_fields header_at
  read_fields_eq c = rw (w1.got, w2.got, w3.got, w4.got, w5.got)

  spelt : (c : AdbCommand) → w0.value ≡ code_of c → buf ≡ to_vec (header_at c) ++ w5.rest
  unfolding header_at
  spelt c e =
      w0.spelt
      ∙ rw
          (to_vec-append (header_at c) w5.rest, e, w1.spelt, w2.spelt, w3.spelt, w4.spelt, w5.spelt)

abbrev ReadsOrFails : Bytes → Type 0
ReadsOrFails buf =
    ((e : Error) × (read buf ≡ done (err e)))
    ⊎ ((h : AdbMessageHeader) × (read buf ≡ done (ok h))
        × IsHeader h
        × (to_vec h ≡ take header_length buf))

to_vec-take :
    (buf rest : Bytes) (h : AdbMessageHeader)
    → buf ≡ to_vec h ++ rest
    → to_vec h ≡ take header_length buf
to_vec-take buf rest h e = rw e (sym (take-append {0} (to_vec h) rest) ∙ rw length-to_vec)

abbrev unknown_command : Error
unknown_command = new invalid_data (text (codes "unknown command"))

abbrev header_too_short : Error
header_too_short = new invalid_data (text (codes "header too short"))

read_short : (buf : Bytes) → length buf < header_length → read buf ≡ done (err header_too_short)
unfolding read
read_short buf h = ground arith

read_sound_long : (buf : Bytes) → header_length ≤ length buf → All IsByte buf → ReadsOrFails buf
unfolding read_command
read_sound_long buf long valid = elim (Option-cases (command_of (w0 buf long valid).value)) [
  | inl e ↦ inl (unknown_command, read_eq buf long valid ∙ rw e)
  | inr (c, e) ↦ inr (
    header_at buf long valid c,
    read_eq buf long valid ∙ rw e (read_fields_eq buf long valid c),
    header_at-IsHeader buf long valid c,
    to_vec-take buf _ _ (spelt buf long valid c (code_of-command_of _ c e)),
  )
]

-- Reading never panics. It fails, or it returns a header of 32-bit values whose bytes are the
-- first 24 of the buffer.
pub read_sound :
    (buf : Bytes)
    → All IsByte buf
    → ((e : Error) × (read buf ≡ done (err e)))
      ⊎ ((h : AdbMessageHeader) × (read buf ≡ done (ok h))
          × IsHeader h
          × (to_vec h ≡ take header_length buf))
read_sound buf h = elim (dec_le header_length (length buf)) [
  | yes long ↦ read_sound_long buf long h
  | no short ↦ inl (header_too_short, read_short buf (omega arith))
]

-- A new message has a header that the other side reads back: the command and the arguments that were
-- given, the length of the payload, and the magic number, which is the bitwise complement of the
-- command.
pub new_message-read :
    (c : AdbCommand) (arg0 arg1 : ℕ) (payload rest : Bytes)
    → arg0 < u32_mod
    → arg1 < u32_mod
    → length payload < u32_mod
    → read (to_vec (new_message c arg0 arg1 payload).header ++ rest)
      ≡ done (
          ok (record {
            command = c;
            arg0 = arg0;
            arg1 = arg1;
            data_length = length payload;
            crc32 = 0;
            magic = 0xffffffff - code_of c;
          }))
new_message-read c arg0 arg1 payload rest h0 h1 hp =
    rw (mod-eq_of_lt hp, magic_eq c)
      (read-to_vec _ rest (record {
        arg0_fits = h0;
        arg1_fits = h1;
        data_length_fits = hp;
        crc32_fits = omega arith;
        magic_fits = omega arith;
      }))
