-- ===== src/Transport/Banner.antt =====
-- packages/transport/src/banner.rs: the properties that a device announces.
use adb_daemon_rs.Base.{
  List, [], ◌∷◌, ◌++◌, Option, none, some, Result, ok, ◌>>=◌, ok_or, Bytes, bytes_eq, ◌==◌, Bool,
  false, ◌||◌, if◌then◌else◌,
}
use adb_daemon_rs.Base.Map.{Map, lookup, insert, remove}
use adb_daemon_rs.Text.{codes, split_once, split}
use adb_daemon_rs.Transport.Error.{Error, of_kind, invalid_data}

pub data DeviceType : Type 0 where
  device : DeviceType
  other_type : Bytes → DeviceType

-- A `HashSet` is a list with no entry twice.
pub record Banner : Type 0 where
  pub device_type : DeviceType
  pub properties : Map Bytes Bytes
  pub features : List Bytes

unfoldable pub contains : Bytes → List Bytes → Bool
contains k [] = false
contains k (x ∷ xs) = x == k || contains k xs

add_feature : Bytes → List Bytes → List Bytes
unfolding contains
add_feature x xs = if contains x xs then xs else x ∷ xs

unfoldable pub to_set : List Bytes → List Bytes
unfolding add_feature
to_set [] = []
to_set (x ∷ xs) = add_feature x (to_set xs)

-- `r#type.parse()`, which never fails: any word but `device` is `Other`.
unfoldable pub parse_type : Bytes → DeviceType
parse_type s = if s == codes "device" then device else other_type s

-- The properties in the order of the text; a later one replaces an earlier one of the same name.
unfoldable pub parse_properties : List Bytes → Map Bytes Bytes → Result Error (Map Bytes Bytes)
unfolding split_once insert
parse_properties [] m = ok m
parse_properties (p ∷ ps) m = do
  kv ← ok_or (split_once (codes "=") p) (of_kind invalid_data)
  parse_properties ps (insert kv.0 kv.1 m)

abbrev pub or_default : Option Bytes → Bytes
or_default none = []
or_default (some s) = s

-- `Banner::from_str`.
unfoldable pub from_str : Bytes → Result Error Banner
unfolding parse_properties parse_type to_set split_once split lookup remove
from_str s = do
  parts ← ok_or (split_once (codes "::") s) (of_kind invalid_data)
  properties ← parse_properties (split b';' parts.1) []
  ok (record {
    device_type = parse_type parts.0;
    properties = remove (codes "features") properties;
    features = to_set (split b',' (or_default (lookup (codes "features") properties)));
  })

-- `Banner::getprop`.
unfoldable pub getprop : Banner → Bytes → Option Bytes
unfolding lookup
getprop b key = lookup key b.properties

-- The text less its last byte, which is `pop` at a text that ends with an ASCII character.
unfoldable pub pop_last : Bytes → Bytes
pop_last [] = []
pop_last (c ∷ []) = []
pop_last (c ∷ d ∷ s) = c ∷ pop_last (d ∷ s)

unfoldable pub with_commas : List Bytes → Bytes
with_commas [] = []
with_commas (f ∷ fs) = f ++ (b',' ∷ with_commas fs)

-- `Banner::features_str`.
unfoldable pub features_str : Banner → Bytes
unfolding pop_last with_commas
features_str b = pop_last (with_commas b.features)
