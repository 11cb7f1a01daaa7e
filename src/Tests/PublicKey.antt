-- ===== src/Tests/PublicKey.antt =====
-- A key of which the square is one byte.
use adb_daemon_rs.Base.{
  ◌-◌, ◌*◌, ◌%◌, ◌^◌, ◌≡◌, refl, Bytes, ◌++◌, length, none, some, nat_eq, ◌==◌, if◌then◌else◌,
}
use adb_daemon_rs.Words.{to_le_bytes}
use adb_daemon_rs.Transport.PublicKey.{
  plus, RsaPublicKey, Libraries, biguint_bytes, to_bytes_le, square,
}

abbrev key : RsaPublicKey
key = record { n = 2 ^ 2048 - 1; e = 65537 }

-- The inverse is found for the key's low word only.
abbrev libraries : Libraries
libraries = record {
  mod_inverse = λ a m. if a * 4294967295 % m == 1 then some (plus 4294967295) else none;
  encode = λ buf. buf;
}

abbrev encoded : Bytes
encoded =
    to_le_bytes 64
    ++ (to_le_bytes 1 ++ (to_bytes_le key.n ++ (to_bytes_le (square key) ++ to_le_bytes 65537)))

square_is_short : length (to_bytes_le (square key)) ≡ 1
unfolding biguint_bytes
square_is_short = refl
