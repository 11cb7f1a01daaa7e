-- ===== src/Daemon/ProtocolString/Bounds.antt =====
-- How long a text can be that is read.
use adb_daemon_rs.Base.{
  ℕ, ◌+◌, ◌*◌, ◌≤◌, ◌<◌, ◌≡◌, ◌≢◌, refl, ap, ◌∙◌, Bool, true, false, [], ◌∷◌, ◌++◌, Bytes, Option,
  none, some, Result, ok, err, ltb, length, take, drop, length-take, if◌then◌else◌, if_cases, ok_or,
  bind_ok, ◌==◌, nat_eq, arith,
}
use adb_daemon_rs.Text.{codes}
use adb_daemon_rs.Text.Utf8.{is_utf8}
use adb_daemon_rs.Daemon.ProtocolString.{
  write_protocol_string, ReadError, malformed, digit_value, hex_step, hex_scan, hex_value,
  read_text, read_protocol_string,
}

digit_value_lt : (c d : ℕ) → digit_value c ≡ some d → d < 16
unfolding digit_value
digit_value_lt c d h = ground (arith, h)

-- What a number below `b` can become when digits follow it.
abbrev scale : ℕ → Bytes → ℕ
scale b [] = b
scale b (c ∷ s) = scale (b * 16) s

hex_scan_lt : (s : Bytes) (n v b : ℕ) → hex_scan s n ≡ some v → n < b → v < scale b s
unfolding hex_scan hex_step
hex_scan_lt [] n v b h l = ground (arith, h, l)
hex_scan_lt (c ∷ s) n v b h l =
    next (digit_value c) (λ d e. digit_value_lt c d e) h
      (λ d e lt. hex_scan_lt s (n * 16 + d) v (b * 16) e lt)
  where
    next :
        (o : Option ℕ)
        → ((d : ℕ) → o ≡ some d → d < 16)
        → hex_step o (λ d. hex_scan s (n * 16 + d)) ≡ some v
        → ((d : ℕ) → hex_scan s (n * 16 + d) ≡ some v → n * 16 + d < b * 16 → v < scale (b * 16) s)
        → v < scale (b * 16) s
    next none small e rec = cc
    next (some d) small e rec = rec d e (omega (arith, small d refl, l))

hex_value_lt : (a b c d v : ℕ) → hex_value (a ∷ b ∷ c ∷ d ∷ []) ≡ some v → v < 65536
unfolding hex_value
hex_value_lt a b c d v =
    if_cases (λ o. o ≡ some v → v < 65536) (a == b'+') _ _
      (λ plus h. omega (arith, hex_scan_lt (b ∷ c ∷ d ∷ []) 0 v 1 h (omega arith)))
      (λ digit h. hex_scan_lt (a ∷ b ∷ c ∷ d ∷ []) 0 v 1 h (omega arith))

read_text-length : (len : ℕ) (s t rest : Bytes) → read_text len s ≡ ok (t, rest) → length t ≤ len
unfolding read_text
read_text-length len s t rest =
    if_cases (λ (r : Result ReadError (Bytes × Bytes)). r ≡ ok (t, rest) → length t ≤ len)
      (ltb (length s) len) _ _ (λ short h. cc)
      (λ enough.
        if_cases (λ (r : Result ReadError (Bytes × Bytes)). r ≡ ok (t, rest) → length t ≤ len)
          (is_utf8 (take len s)) _ _ (λ valid h. taken (ok (take len s, drop len s)) refl h)
          (λ invalid h. cc))
  where
    taken :
        (r : Result ReadError (Bytes × Bytes))
        → r ≡ ok (take len s, drop len s)
        → r ≡ ok (t, rest)
        → length t ≤ len
    taken r e h = let same : take len s ≡ t = cc in omega (arith, length-take len s, ap length same)

checked :
    (b : Bool) (s t : Bytes) (e : ReadError)
    → Path (Result ReadError Bytes) (if b then ok s else err e) (ok t)
    → s ≡ t
checked true s t e h = cc
checked false s t e h = cc

present : (o : Option ℕ) (n : ℕ) (e : ReadError) → ok_or o e ≡ ok n → o ≡ some n
present none n e h = cc
present (some m) n e h = cc

-- A text that is read has fewer than 65536 bytes.
read_protocol_string_short :
    (s t rest : Bytes) → read_protocol_string s ≡ ok (t, rest) → length t < 65536
unfolding read_protocol_string
read_protocol_string_short (a ∷ b ∷ c ∷ d ∷ s) t rest h =
    let (buf, four, h₁) =
      bind_ok
        (if is_utf8 (a ∷ b ∷ c ∷ d ∷ [])
          then ok (a ∷ b ∷ c ∷ d ∷ [])
          else err (malformed (codes "utf8")))
        _ (t, rest) h in
    let (len, value, h₂) =
      bind_ok (ok_or (hex_value buf) (malformed (codes "len"))) _ (t, rest) h₁ in
    let text =
      checked (is_utf8 (a ∷ b ∷ c ∷ d ∷ [])) (a ∷ b ∷ c ∷ d ∷ []) buf (malformed (codes "utf8"))
        four in
    let small =
      hex_value_lt a b c d len
        (ap hex_value text ∙ present (hex_value buf) len (malformed (codes "len")) value) in
    omega (arith, small, read_text-length len s t rest h₂)
read_protocol_string_short [] t rest h = cc
read_protocol_string_short (a ∷ []) t rest h = cc
read_protocol_string_short (a ∷ b ∷ []) t rest h = cc
read_protocol_string_short (a ∷ b ∷ c ∷ []) t rest h = cc

-- A text of 65536 bytes or more that was written as a protocol string is not read back as what it
-- was, whatever bytes follow it.
pub long_text_misread :
    (s rest : Bytes)
    → 65536 ≤ length s
    → read_protocol_string (write_protocol_string s ++ rest) ≢ ok (s, rest)
long_text_misread s rest long h =
    absurd
      (omega (arith, long, read_protocol_string_short (write_protocol_string s ++ rest) s rest h))
