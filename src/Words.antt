-- ===== src/Words.antt =====
-- `u32`, `u64` and `usize` values as numbers below a power of two, and their little-endian bytes:
-- `u32::to_le_bytes`, `u32::from_le_bytes` and `bytes::Buf::get_u32_le`.
use adb_daemon_rs.Base.{
  ℕ, ◌+◌, ◌*◌, ◌/◌, ◌%◌, ◌^◌, ◌<◌, ◌≤◌, ◌≡◌, refl, Bytes, [], ◌∷◌, ◌++◌, length, All, Run, done,
  panicked, arith,
}

abbrev pub u32_mod : ℕ
u32_mod = 2 ^ 32

abbrev pub usize_mod : ℕ
usize_mod = 2 ^ 64

abbrev pub IsByte : ℕ → Type 0
IsByte b = b < 256

unfoldable pub to_le_bytes : ℕ → Bytes
to_le_bytes n = n % 256 ∷ (n / 256) % 256 ∷ (n / 65536) % 256 ∷ (n / 16777216) % 256 ∷ []

unfoldable pub of_le_bytes : ℕ → ℕ → ℕ → ℕ → ℕ
of_le_bytes a b c d = a + 256 * b + 65536 * c + 16777216 * d

-- Reads past the end of the buffer panic.
unfoldable pub get_u32_le : Bytes → Run (ℕ × Bytes)
unfolding of_le_bytes
get_u32_le (a ∷ b ∷ c ∷ d ∷ rest) = done (of_le_bytes a b c d, rest)
get_u32_le _ = panicked

pub of_le_bytes_lt :
    (a b c d : ℕ) → IsByte a → IsByte b → IsByte c → IsByte d → of_le_bytes a b c d < u32_mod
unfolding of_le_bytes
of_le_bytes_lt a b c d ha hb hc hd = omega arith

pub to_le_bytes-of_le_bytes :
    (a b c d : ℕ)
    → IsByte a
    → IsByte b
    → IsByte c
    → IsByte d
    → to_le_bytes (of_le_bytes a b c d) ≡ a ∷ b ∷ c ∷ d ∷ []
unfolding to_le_bytes of_le_bytes
to_le_bytes-of_le_bytes a b c d ha hb hc hd = ground arith

pub get_u32_le-to_le_bytes :
    (n : ℕ) (rest : Bytes) → n < u32_mod → get_u32_le (to_le_bytes n ++ rest) ≡ done (n, rest)
unfolding get_u32_le to_le_bytes
get_u32_le-to_le_bytes n rest h = ground arith

pub to_le_bytes-All : (n : ℕ) → All IsByte (to_le_bytes n)
unfolding to_le_bytes
to_le_bytes-All n = omega arith

pub length-to_le_bytes : (n : ℕ) → length (to_le_bytes n) ≡ 4
unfolding to_le_bytes
length-to_le_bytes n = refl

-- What four bytes of a buffer say.
pub record Word (buf : Bytes) : Type 0 where
  pub value : ℕ
  pub rest : Bytes
  pub got : get_u32_le buf ≡ done (value, rest)
  pub fits : value < u32_mod
  pub spelt : buf ≡ to_le_bytes value ++ rest
  pub bytes : All IsByte rest
  pub size : length buf ≡ 4 + length rest

pub take_word : (buf : Bytes) → All IsByte buf → 4 ≤ length buf → Word buf
unfolding get_u32_le
take_word [] v h = absurd (omega arith)
take_word (a ∷ []) v h = absurd (omega arith)
take_word (a ∷ b ∷ []) v h = absurd (omega arith)
take_word (a ∷ b ∷ c ∷ []) v h = absurd (omega arith)
take_word (a ∷ b ∷ c ∷ d ∷ rest) (ha, (hb, (hc, (hd, hr)))) h = record {
  value = of_le_bytes a b c d;
  rest = rest;
  got = refl;
  fits = of_le_bytes_lt a b c d ha hb hc hd;
  spelt = rw (to_le_bytes-of_le_bytes a b c d ha hb hc hd);
  bytes = hr;
  size = omega arith;
}
