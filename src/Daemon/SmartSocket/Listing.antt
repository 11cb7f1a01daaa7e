-- ===== src/Daemon/SmartSocket/Listing.antt =====
-- `list_devices` of src/smart_socket/devices.rs.
pub mod Lines
use adb_daemon_rs.Base.{
  ℕ, ◌+◌, ◌-◌, Bool, ◌&&◌, ◌||◌, List, [], ◌∷◌, ◌++◌, Bytes, Option, none, some, leb, if◌then◌else◌,
  replicate, bytes_eq,
}
use adb_daemon_rs.Text.{codes}
use adb_daemon_rs.Text.Decimal.{decimal}
use adb_daemon_rs.Transport.Banner.{DeviceType, getprop}
use adb_daemon_rs.Daemon.Manager.{Connection}

-- `u64::to_string`, of twenty digits at most.
unfoldable pub print_u64 : ℕ → Bytes
unfolding decimal
print_u64 n = decimal 20 n

-- A byte that continues a character of UTF-8.
abbrev pub is_continuation : ℕ → Bool
is_continuation c = leb 0x80 c && leb c 0xbf

-- The characters of a text.
unfoldable pub char_count : Bytes → ℕ
char_count [] = 0
char_count (c ∷ s) = (if is_continuation c then 0 else 1) + char_count s

-- `{:22}`: spaces up to 22 characters.
unfoldable pub padded : Bytes → Bytes
unfolding char_count
padded s = s ++ replicate (22 - char_count s) b' '

abbrev pub is_alphanumeric : ℕ → Bool
is_alphanumeric c =
    (leb b'0' c && leb c b'9') || ((leb b'A' c && leb c b'Z') || (leb b'a' c && leb c b'z'))

-- Each character that is not an ASCII letter or digit becomes `_`.
unfoldable pub sanitized : Bytes → Bytes
sanitized [] = []
sanitized (c ∷ s) =
    let rest = sanitized s in
    if is_alphanumeric c then c ∷ rest else if is_continuation c then rest else b'_' ∷ rest

abbrev or_unknown : Option Bytes → Bytes
or_unknown none = codes "Unknown"
or_unknown (some v) = v

-- One of the properties that a long line shows.
unfoldable pub shown_property : Connection → Bytes → Bytes → Bytes
unfolding sanitized getprop
shown_property c name key = b' ' ∷ (name ++ (b':' ∷ sanitized (or_unknown (getprop c.banner key))))

-- How a device type is shown is code that the `strum` library derives, and is the parameter `show`.
module _ (show : DeviceType → Bytes) where
  unfoldable pub short_line : Connection → Bytes
  short_line c = c.serial ++ (0x09 ∷ (show c.banner.device_type ++ 0x0a ∷ []))

  unfoldable pub long_line : Connection → Bytes
  unfolding padded print_u64 shown_property
  long_line c =
      padded c.serial
      ++ (0x09
          ∷ (show c.banner.device_type
              ++ (b' '
                  ∷ (print_u64 c.id
                      ++ (shown_property c (codes "product") (codes "ro.product.name")
                          ++ (shown_property c (codes "model") (codes "ro.product.model")
                              ++ (shown_property c (codes "device") (codes "ro.product.device")
                                  ++ (codes " transport_id:"
                                      ++ (print_u64 c.id ++ 0x0a ∷ [])))))))))

  unfoldable pub list_devices : Bool → List Connection → Bytes
  unfolding short_line long_line
  list_devices long [] = []
  list_devices long (c ∷ cs) = (if long then long_line c else short_line c) ++ list_devices long cs
