-- ===== src/Transport/PublicKey.antt =====
-- `encode_public_key` of packages/transport/src/auth.rs: the key as Android reads it. The inverse and
-- the base64 text are what the `num-bigint-dig` and `base64` libraries answer.
pub mod Layout
use adb_daemon_rs.Base.{
  ℕ, zero, suc, ◌+◌, ◌-◌, ◌*◌, ◌/◌, ◌%◌, ◌^◌, Bool, true, false, List, [], ◌∷◌, ◌++◌, Bytes, length,
  Option, none, some, Result, ok, err, ltb, leb, nat_eq, ◌==◌, if◌then◌else◌, ◌>>=◌, ok_or, map_err,
}
use adb_daemon_rs.Words.{u32_mod, to_le_bytes}
use adb_daemon_rs.Text.{codes}
use adb_daemon_rs.Transport.Error.{Error, error, invalid_key, text}

-- `ANDROID_KEY_SIZE`.
abbrev pub android_key_size : ℕ
android_key_size = 256

-- A `BigUint` as its bytes: at least one, and at most as many as the fuel.
unfoldable pub biguint_bytes : ℕ → ℕ → Bytes
biguint_bytes zero n = []
biguint_bytes (suc fuel) n =
    let rest = biguint_bytes fuel (n / 256) in if ltb n 256 then n ∷ [] else n % 256 ∷ rest

-- One byte more than a key may have, so a key that is too large is seen.
abbrev pub key_fuel : ℕ
key_fuel = 257

-- `to_bytes_le`, for the numbers that a key has.
abbrev pub to_bytes_le : ℕ → Bytes
to_bytes_le n = biguint_bytes key_fuel n

-- `PublicKeyParts::size`, of a number but zero.
abbrev pub size : ℕ → ℕ
size n = length (to_bytes_le n)

-- A `BigInt`; zero is `plus 0`.
pub data BigInt : Type 0 where
  plus minus : ℕ → BigInt

pub record RsaPublicKey : Type 0 where
  pub n : ℕ
  pub e : ℕ

-- The two libraries.
pub record Libraries : Type 0 where
  pub mod_inverse : ℕ → ℕ → Option BigInt
  pub encode : Bytes → Bytes

abbrev bad_key {ℓ} : {A : Type ℓ} → Bytes → Result Error A
bad_key message = err (error invalid_key (text message))

abbrev sized : ℕ → Result Error (Unit {0})
sized n = if n == android_key_size then ok tt else bad_key (codes "wrong key size")

abbrev to_biguint : BigInt → Result Error ℕ
to_biguint (plus n) = ok n
to_biguint (minus n) = bad_key (codes "to_biguint")

abbrev to_u32 : Bytes → ℕ → Result Error ℕ
to_u32 message n = if ltb n u32_mod then ok n else bad_key message

abbrev inverse : Option BigInt → Result Error ℕ
inverse none = bad_key (codes "mod_inverse")
inverse (some i) = to_biguint i

-- The number `rr`.
abbrev pub square : RsaPublicKey → ℕ
square key = (2 ^ 2048) ^ 2 % key.n

-- The buffer before it is made text.
unfoldable pub key_bytes : Libraries → RsaPublicKey → Result Error Bytes
key_bytes libraries key = sized (size key.n) >>= λ _.
    inverse (libraries.mod_inverse (key.n % u32_mod) u32_mod) >>= λ i.
    to_u32 (codes "ninv.to_u32") (u32_mod - i) >>= λ ninv. to_u32 (codes "e.to_u32") key.e >>= λ e.
    ok (
      to_le_bytes (android_key_size / 4)
      ++ (to_le_bytes ninv ++ (to_bytes_le key.n ++ (to_bytes_le (square key) ++ to_le_bytes e))))

-- `encode_public_key`.
unfoldable pub encode_public_key : Libraries → RsaPublicKey → Result Error Bytes
unfolding key_bytes
encode_public_key libraries key = key_bytes libraries key >>= λ buf. ok (libraries.encode buf)
