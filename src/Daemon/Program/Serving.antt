-- ===== src/Daemon/Program/Serving.antt =====
-- Which socket the program serves.
use adb_daemon_rs.Base.{
  ℕ, ◌≡◌, refl, Bool, true, false, Option, none, some, Result, ok, nat_eq, bytes_eq,
}
use adb_daemon_rs.Daemon.Proto.{Report}
use adb_daemon_rs.Daemon.Startup.{bound, bind_smartsocket}
use adb_daemon_rs.Daemon.Program.{
  ServerArgs, cloexec, System, returns, adb_shim, close_stdio, detached, default_args,
}

abbrev pub unwrap_args : Option ServerArgs → ServerArgs
unwrap_args none = default_args
unwrap_args (some args) = args

-- The socket is that of the descriptor in the arguments, or else the one that was bound.
abbrev pub IsSource : System → Option ℕ → Option ℕ → Type 0
IsSource sys (some fd) s = (s ≡ some fd) × (sys.fcntl fd cloexec ≡ ok tt)
IsSource sys none s = (s ≡ none) × (bind_smartsocket sys.rounds ≡ bound)

abbrev pub IsDetached : System → Bool → Type 0
IsDetached sys false = Unit
IsDetached sys true = close_stdio sys ≡ ok tt

-- A process that serves.
pub record IsServing (sys : System) (s : Option ℕ) : Type 0 where
  pub given : Option ServerArgs
  pub is_given : sys.parse sys.args ≡ some given
  pub configured : sys.load_config ≡ ok tt
  pub no_shim : adb_shim sys ≡ returns
  pub source : IsSource sys (unwrap_args given).fd s
  pub detached : IsDetached sys (unwrap_args given).daemon

any_unit : (u : Unit {0}) → ◌≡◌ {A = Result Report (Unit {0})} (ok u) (ok tt)
any_unit u = refl
