-- ===== src/Daemon/Config.antt =====
-- src/config.rs: the settings and their defaults. Texts of the file are parsed by the `toml` library,
-- whose answer is a parameter.
use adb_daemon_rs.Base.{
  ℕ, Bool, true, false, not, ◌&&◌, ◌||◌, List, [], ◌∷◌, ◌++◌, Bytes, Option, none, some, Result, ok,
  err, ◌>>=◌, ok_or,
}
use adb_daemon_rs.Text.{codes}
use adb_daemon_rs.Transport.Banner.{contains}
use adb_daemon_rs.Daemon.Proto.{Report}

-- A set of serials is a list of them.
pub record UsbConfig : Type 0 where
  pub enabled : Option Bool
  pub include : List Bytes
  pub exclude : List Bytes

abbrev pub unwrap_or {ℓ} : {A : Type ℓ} → Option A → A → A
unwrap_or none a = a
unwrap_or (some b) a = b

-- `UsbConfig::enabled`.
abbrev pub usb_enabled : UsbConfig → Bool
usb_enabled c = unwrap_or c.enabled true

abbrev pub is_empty {ℓ} : {A : Type ℓ} → List A → Bool
is_empty [] = true
is_empty (x ∷ xs) = false

unfoldable pub is_whitelisted : UsbConfig → Bytes → Bool
unfolding contains
is_whitelisted c serial =
    (is_empty c.include || contains serial c.include) && not (contains serial c.exclude)

-- An address is its four bytes and its port.
abbrev pub SocketAddr : Type 0
SocketAddr = Bytes × ℕ

pub record Config : Type 0 where
  pub listen_address : Option SocketAddr
  pub usb : UsbConfig
  pub transport_log : Option Bytes
  pub private_key : Option Bytes

-- `Config::listen_address`.
abbrev pub listen_address : Config → SocketAddr
listen_address c = unwrap_or c.listen_address (0 ∷ 0 ∷ 0 ∷ 0 ∷ [], 5037)

-- `Utf8PathBuf::join`, for a name that is no absolute path.
abbrev pub join : Bytes → Bytes → Bytes
join dir name = dir ++ (b'/' ∷ name)

-- `config_dir`, for the home directory, if there is one.
abbrev pub config_dir : Option Bytes → Result Report Bytes
config_dir home = ok_or home (codes "no home dir") >>= λ h. ok (join h (codes ".android"))

-- `Config::private_key`.
unfoldable pub private_key : Option Bytes → Config → Result Report Bytes
private_key home c = elim c.private_key [
  | some path ↦ ok path
  | none ↦ config_dir home >>= λ dir. ok (join dir (codes "adbkey"))
]

-- Why a file cannot be read.
pub data ReadFileError : Type 0 where
  not_found other_error : ReadFileError

-- The text of the settings: a file that is missing is empty.
abbrev file_text : Result ReadFileError Bytes → Result Report Bytes
file_text (ok text) = ok text
file_text (err not_found) = ok []
file_text (err other_error) = err (codes "parse config file")

-- The path of the settings.
abbrev config_path : Option Bytes → Option Bytes → Result Report Bytes
config_path (some path) home = ok path
config_path none home = config_dir home >>= λ dir. ok (join dir (codes "adb-daemon.toml"))

-- `load_config`, for the variable `ADB_DAEMON_CONFIG`, the home directory, the files, and what the
-- text says.
unfoldable pub load_config :
    Option Bytes
    → Option Bytes
    → (Bytes → Result ReadFileError Bytes)
    → (Bytes → Option Config)
    → Result Report Config
load_config variable home read_to_string from_str = config_path variable home >>= λ path.
    file_text (read_to_string path) >>= λ text. ok_or (from_str text) (codes "parse config file")
