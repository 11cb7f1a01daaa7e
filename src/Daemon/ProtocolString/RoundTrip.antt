-- ===== src/Daemon/ProtocolString/RoundTrip.antt =====
-- Protocol strings are read back as they were written, up to the length that four digits can hold.
use native.Mathlib.Decide.{dec_le}
use adb_daemon_rs.Base.{
  ℕ, suc, ◌+◌, ◌*◌, ◌/◌, ◌%◌, ◌≤◌, ◌<◌, ◌≡◌, ◌∙◌, ap, true, false, [], ◌∷◌, ◌++◌, Bytes, some, ok,
  ltb, length, drop, arith, if◌then◌else◌, ◌==◌, nat_eq, take-append, drop-append, length-append,
}
use adb_daemon_rs.Text.Utf8.{is_utf8, is_utf8_ascii}
use adb_daemon_rs.Daemon.ProtocolString.{
  hex_digit, hex, format_length, write_protocol_string, digit_value, hex_scan, hex_step, hex_value,
  read_text, read_protocol_string,
}

digit_value-hex_digit : (k : ℕ) → k < 16 → digit_value (hex_digit k) ≡ some k
unfolding digit_value hex_digit
digit_value-hex_digit k h = ground arith

hex_digit_lt : (k : ℕ) → k < 16 → (hex_digit k < 128) × (b'0' ≤ hex_digit k)
unfolding hex_digit
hex_digit_lt k h = ground arith

hex_short : (fuel n : ℕ) → n < 16 → hex (suc fuel) n ≡ hex_digit n ∷ []
unfolding hex
hex_short fuel n h = ground arith

hex_long : (fuel n : ℕ) → 16 ≤ n → hex (suc fuel) n ≡ hex fuel (n / 16) ++ hex_digit (n % 16) ∷ []
unfolding hex
hex_long fuel n h = ground arith

-- The four digits of a length.
abbrev four_digits : ℕ → Bytes
four_digits n =
    hex_digit (n / 4096)
    ∷ hex_digit (n / 256 % 16)
    ∷ hex_digit (n / 16 % 16)
    ∷ hex_digit (n % 16)
    ∷ []

one_digit : (n : ℕ) → n < 16 → format_length n ≡ four_digits n
unfolding format_length hex_digit
one_digit n h =
    let a : n / 4096 ≡ 0 = omega arith in
    let b : n / 256 ≡ 0 = omega arith in
    let c : n / 16 ≡ 0 = omega arith in
    let d : n % 16 ≡ n = omega arith in rw (hex_short 15 n h, a, b, c, d)

two_digits : (n : ℕ) → 16 ≤ n → n < 256 → format_length n ≡ four_digits n
unfolding format_length hex_digit
two_digits n g h =
    let a : n / 4096 ≡ 0 = omega arith in
    let b : n / 256 ≡ 0 = omega arith in
    let c : n / 16 % 16 ≡ n / 16 = omega arith in
    rw (hex_long 15 n g, hex_short 14 (n / 16) (omega arith), a, b, c)

three_digits : (n : ℕ) → 256 ≤ n → n < 4096 → format_length n ≡ four_digits n
unfolding format_length hex_digit
three_digits n g h =
    let a : n / 4096 ≡ 0 = omega arith in
    let b : n / 256 % 16 ≡ n / 16 / 16 = omega arith in
    rw (
      hex_long 15 n (omega arith),
      hex_long 14 (n / 16) (omega arith),
      hex_short 13 (n / 16 / 16) (omega arith),
      a,
      b,
    )

all_digits : (n : ℕ) → 4096 ≤ n → n < 65536 → format_length n ≡ four_digits n
unfolding format_length
all_digits n g h =
    let a : n / 4096 ≡ n / 16 / 16 / 16 = omega arith in
    let b : n / 256 ≡ n / 16 / 16 = omega arith in
    rw (
      hex_long 15 n (omega arith),
      hex_long 14 (n / 16) (omega arith),
      hex_long 13 (n / 16 / 16) (omega arith),
      hex_short 12 (n / 16 / 16 / 16) (omega arith),
      a,
      b,
    )

format_length-four_digits : (n : ℕ) → n < 65536 → format_length n ≡ four_digits n
format_length-four_digits n h = elim (dec_le 16 n) [
  | no a ↦ one_digit n (omega arith)
  | yes a ↦ elim (dec_le 256 n) [
    | no b ↦ two_digits n a (omega arith)
    | yes b ↦ elim (dec_le 4096 n) [
      | no c ↦ three_digits n b (omega arith)
      | yes c ↦ all_digits n c h
    ]
  ]
]

not_plus : (k : ℕ) → k < 16 → (hex_digit k == b'+') ≡ false
not_plus k h = ground (arith, hex_digit_lt k h)

hex_scan-hex_digit :
    (k n : ℕ) (s : Bytes) → k < 16 → hex_scan (hex_digit k ∷ s) n ≡ hex_scan s (n * 16 + k)
unfolding hex_scan hex_step
hex_scan-hex_digit k n s h =
    ap (λ o. hex_step o (λ d. hex_scan s (n * 16 + d))) (digit_value-hex_digit k h)

hex_value-four_digits : (n : ℕ) → n < 65536 → hex_value (four_digits n) ≡ some n
unfolding hex_value hex_scan
hex_value-four_digits n h =
    let p : n / 4096 < 16 = omega arith in
    let q : n / 256 % 16 < 16 = omega arith in
    let r : n / 16 % 16 < 16 = omega arith in
    let s : n % 16 < 16 = omega arith in
    let whole : (((0 * 16 + n / 4096) * 16 + n / 256 % 16) * 16 + n / 16 % 16) * 16 + n % 16 ≡ n =
      omega arith in
    ap (λ t. if t then hex_scan (drop 1 (four_digits n)) 0 else hex_scan (four_digits n) 0)
      (not_plus (n / 4096) p)
    ∙ hex_scan-hex_digit (n / 4096) 0 (drop 1 (four_digits n)) p
    ∙ hex_scan-hex_digit (n / 256 % 16) (0 * 16 + n / 4096) (drop 2 (four_digits n)) q
    ∙ hex_scan-hex_digit (n / 16 % 16) ((0 * 16 + n / 4096) * 16 + n / 256 % 16)
        (drop 3 (four_digits n)) r
    ∙ hex_scan-hex_digit (n % 16) (((0 * 16 + n / 4096) * 16 + n / 256 % 16) * 16 + n / 16 % 16) []
        s
    ∙ ap some whole

is_utf8-four_digits : (n : ℕ) → n < 65536 → is_utf8 (four_digits n) ≡ true
is_utf8-four_digits n h = is_utf8_ascii (four_digits n) (
  (hex_digit_lt (n / 4096) (omega arith)).0,
  (
    (hex_digit_lt (n / 256 % 16) (omega arith)).0,
    ((hex_digit_lt (n / 16 % 16) (omega arith)).0, ((hex_digit_lt (n % 16) (omega arith)).0, tt)),
  ),
)

read_text-append :
    (s rest : Bytes) → is_utf8 s ≡ true → read_text (length s) (s ++ rest) ≡ ok (s, rest)
unfolding read_text
read_text-append s rest h =
    let e : ltb (length (s ++ rest)) (length s) ≡ false = ground (arith, length-append s rest) in
    rw (e, take-append s rest, h, drop-append s rest)

-- A text of fewer than 65536 bytes that was written as a protocol string is read back, and the bytes
-- behind it are left to the next read.
pub read_protocol_string-write :
    (s rest : Bytes)
    → length s < 65536
    → is_utf8 s ≡ true
    → read_protocol_string (write_protocol_string s ++ rest) ≡ ok (s, rest)
unfolding read_protocol_string write_protocol_string
read_protocol_string-write s rest short valid =
    rw
      (
        format_length-four_digits (length s) short,
        is_utf8-four_digits (length s) short,
        hex_value-four_digits (length s) short,
      )
      (read_text-append s rest valid)
