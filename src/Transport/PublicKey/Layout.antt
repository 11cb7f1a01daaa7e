-- ===== src/Transport/PublicKey/Layout.antt =====
-- What an encoded key says.
use adb_daemon_rs.Base.{
  ℕ, zero, suc, ◌+◌, ◌*◌, ◌%◌, ◌^◌, ◌≤◌, ◌<◌, ◌≡◌, [], ◌∷◌, ◌++◌, Bytes, length, some, nat_eq,
}
use adb_daemon_rs.Words.{u32_mod, to_le_bytes}
use adb_daemon_rs.Transport.Error.{Error}
use adb_daemon_rs.Transport.PublicKey.{plus, RsaPublicKey, Libraries}

-- The number that bytes stand for, the lowest first.
abbrev pub value : Bytes → ℕ
value [] = 0
value (b ∷ bs) = b + 256 * value bs

-- The numbers that so many bytes can stand for.
bound : ℕ → ℕ
bound zero = 1
bound (suc k) = 256 * bound k

-- What `mod_inverse` promises.
abbrev pub Inverts : Libraries → Type 0
Inverts libraries =
    (a i : ℕ)
    → libraries.mod_inverse a u32_mod ≡ some (plus i)
    → (a * i % u32_mod ≡ 1) × (i ≤ u32_mod)

-- An encoded key.
pub record Encodes (key : RsaPublicKey) (buf : Bytes) : Type 0 where
  pub ninv : ℕ
  pub modulus : Bytes
  pub rr : Bytes
  pub spelt : buf ≡ to_le_bytes 64 ++ (to_le_bytes ninv ++ (modulus ++ (rr ++ to_le_bytes key.e)))
  pub ninv_fits : ninv < u32_mod
  pub ninv_inverts : (key.n * ninv + 1) % u32_mod ≡ 0
  pub modulus_size : length modulus ≡ 256
  pub modulus_value : value modulus ≡ key.n
  pub rr_size : length rr ≤ 256
  pub rr_value : value rr ≡ (2 ^ 2048) ^ 2 % key.n
  pub exponent_fits : key.e < u32_mod
