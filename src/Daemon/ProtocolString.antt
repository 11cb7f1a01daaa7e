-- ===== src/Daemon/ProtocolString.antt =====
-- src/util.rs: strings behind their length in hexadecimal digits. A reader is the bytes that it will
-- give before it ends.
pub mod RoundTrip
pub mod Bounds
use adb_daemon_rs.Base.{
  ℕ, zero, suc, ◌+◌, ◌-◌, ◌*◌, ◌/◌, ◌%◌, Bool, ◌&&◌, [], ◌∷◌, ◌++◌, Bytes, Option, none, some,
  Result, ok, err, ltb, leb, length, take, drop, replicate, if◌then◌else◌, ok_or, ◌>>=◌, ◌==◌,
  nat_eq,
}
use adb_daemon_rs.Text.{codes}
use adb_daemon_rs.Text.Utf8.{is_utf8}
use adb_daemon_rs.Daemon.Proto.{Report}

unfoldable pub hex_digit : ℕ → ℕ
hex_digit k = if ltb k 10 then b'0' + k else b'a' + (k - 10)

-- The hexadecimal digits of a number below `16 ^ fuel`.
unfoldable pub hex : ℕ → ℕ → Bytes
unfolding hex_digit
hex zero n = []
hex (suc fuel) n =
    let rest = hex fuel (n / 16) in
    if ltb n 16 then hex_digit n ∷ [] else rest ++ hex_digit (n % 16) ∷ []

-- `format!("{:04x}", n)` at a `usize`, which has sixteen digits at most.
unfoldable pub format_length : ℕ → Bytes
unfolding hex
format_length n = let digits = hex 16 n in replicate (4 - length digits) b'0' ++ digits

-- `write_protocol_string`: all that it writes.
unfoldable pub write_protocol_string : Bytes → Bytes
unfolding format_length
write_protocol_string s = format_length (length s) ++ s

-- A reader that ends early is told from a text that is not what it should be.
pub data ReadError : Type 0 where
  early_eof : ReadError
  malformed : Report → ReadError

-- The value of a digit, of either case.
unfoldable pub digit_value : ℕ → Option ℕ
digit_value c =
    if leb b'0' c && leb c b'9'
    then some (c - b'0')
    else if leb b'a' c && leb c b'f'
    then some (c - b'a' + 10)
    else if leb b'A' c && leb c b'F'
    then some (c - b'A' + 10)
    else none

hex_step : Option ℕ → (ℕ → Option ℕ) → Option ℕ
hex_step none rest = none
hex_step (some d) rest = rest d

-- Digits behind the value `n`; a run of four does not overflow.
hex_scan : Bytes → ℕ → Option ℕ
unfolding digit_value hex_step
hex_scan [] n = some n
hex_scan (c ∷ s) n = hex_step (digit_value c) (λ d. hex_scan s (n * 16 + d))

-- `usize::from_str_radix(s, 16)` at a text that is not empty: an optional sign `+`, and then digits.
hex_value : Bytes → Option ℕ
unfolding hex_scan
hex_value (c ∷ d ∷ s) = if c == b'+' then hex_scan (d ∷ s) 0 else hex_scan (c ∷ d ∷ s) 0
hex_value s = hex_scan s 0

read_text : ℕ → Bytes → Result ReadError (Bytes × Bytes)
read_text len s =
    if ltb (length s) len
    then err early_eof
    else if is_utf8 (take len s)
    then ok (take len s, drop len s)
    else err (malformed (codes "service"))

-- `read_protocol_string`: the text, and the bytes that are left.
unfoldable pub read_protocol_string : Bytes → Result ReadError (Bytes × Bytes)
unfolding hex_value read_text
read_protocol_string (a ∷ b ∷ c ∷ d ∷ s) = do
  buf ←
      if is_utf8 (a ∷ b ∷ c ∷ d ∷ [])
      then ok (a ∷ b ∷ c ∷ d ∷ [])
      else err (malformed (codes "utf8"))
  len ← ok_or (hex_value buf) (malformed (codes "len"))
  read_text len s
read_protocol_string s = err early_eof
