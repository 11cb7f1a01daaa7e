-- ===== src/Text/Utf8.antt =====
-- `String::from_utf8`: the test that bytes are well-formed UTF-8.
use adb_daemon_rs.Base.{
  ℕ, zero, suc, ◌<◌, ◌≡◌, refl, Bool, true, false, ◌&&◌, [], ◌∷◌, Bytes, Option, none, some, ltb,
  leb, ◌==◌, nat_eq, if◌then◌else◌, All, arith,
}

-- The continuation bytes that are still to come, and the range of the next one.
pub record Expected : Type 0 where
  pub count : ℕ
  pub low : ℕ
  pub high : ℕ

abbrev expect : ℕ → ℕ → ℕ → Expected
expect n low high = record { count = n; low = low; high = high }

abbrev within : ℕ → ℕ → ℕ → Bool
within low high c = leb low c && leb c high

-- The first byte of a character.
first_byte : ℕ → Option Expected
first_byte c =
    if ltb c 0x80
    then some (expect 0 0x80 0xbf)
    else if within 0xc2 0xdf c
    then some (expect 1 0x80 0xbf)
    else if c == 0xe0
    then some (expect 2 0xa0 0xbf)
    else if c == 0xed
    then some (expect 2 0x80 0x9f)
    else if within 0xe1 0xef c
    then some (expect 2 0x80 0xbf)
    else if c == 0xf0
    then some (expect 3 0x90 0xbf)
    else if within 0xf1 0xf3 c
    then some (expect 3 0x80 0xbf)
    else if c == 0xf4
    then some (expect 3 0x80 0x8f)
    else none

next_byte : ℕ → ℕ → ℕ → ℕ → Option Expected
unfolding first_byte
next_byte zero low high c = first_byte c
next_byte (suc n) low high c = if within low high c then some (expect n 0x80 0xbf) else none

abbrev and_then : Option Expected → (Expected → Bool) → Bool
and_then none k = false
and_then (some e) k = k e

well_formed : Bytes → Expected → Bool
unfolding next_byte
well_formed [] e = e.count == 0
well_formed (c ∷ s) e = and_then (next_byte e.count e.low e.high c) (well_formed s)

unfoldable pub is_utf8 : Bytes → Bool
unfolding well_formed
is_utf8 s = well_formed s (expect 0 0x80 0xbf)

abbrev pub IsAscii : ℕ → Type 0
IsAscii c = c < 128

first_byte_ascii : (c : ℕ) → IsAscii c → first_byte c ≡ some (expect 0 0x80 0xbf)
unfolding first_byte
first_byte_ascii c h = ground arith

-- Plain ASCII is UTF-8.
pub is_utf8_ascii : (s : Bytes) → All IsAscii s → is_utf8 s ≡ true
unfolding is_utf8
is_utf8_ascii [] h = refl
is_utf8_ascii (c ∷ s) (hc, hs) = rw (first_byte_ascii c hc) (is_utf8_ascii s hs)
