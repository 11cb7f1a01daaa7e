-- ===== src/Daemon/Program.antt =====
-- `main` of src/main.rs and src/sys/unix.rs: the program at its start, as `adb` in front of another
-- one, and with a socket that it inherits. A run is that of one process; the calls of the system and of
-- the `which` and `clap` libraries are parameters. A path is its bytes.
pub mod Commands
pub mod Shim
pub mod Serving
use adb_daemon_rs.Base.{
  ℕ, Bool, true, false, List, [], ◌∷◌, ◌++◌, drop, Bytes, Option, none, some, Result, ok, err,
  ◌>>=◌, ◌>>◌, ok_or, nat_eq, bytes_eq, ◌==◌, if◌then◌else◌, map_err,
}
use adb_daemon_rs.Text.{codes}
use adb_daemon_rs.Text.Decimal.{decimal}
use adb_daemon_rs.Daemon.Proto.{Report}
use adb_daemon_rs.Daemon.Startup.{
  Started, bound, already_running, looping, failed, Round, bind_smartsocket,
}

pub data ForkResult : Type 0 where
  parent child : ForkResult

-- The flags of a descriptor that `fcntl` sets: none, or that it is closed on `exec`.
pub data FdFlag : Type 0 where
  empty cloexec : FdFlag

-- The calls of `close_stdio`.
pub data StdioCall : Type 0 where
  open_null dup2_stdin dup2_stdout dup2_stderr close_null : StdioCall

pub record ServerArgs : Type 0 where
  pub fd : Option ℕ
  pub daemon : Bool

-- What the process is told.
pub record System : Type 0 where
  pub load_config : Result Report (Unit {0})
  pub current_exe : Result Report Bytes
  pub file_name : Bytes → Option Bytes
  pub read_link : Bytes → Option Bytes
  -- The rounds of `bind_smartsocket`, and the descriptor of the socket that it makes.
  pub rounds : List Round
  pub raw_fd : ℕ
  pub fcntl : ℕ → FdFlag → Result Report (Unit {0})
  pub fork : Result Report ForkResult
  pub which_all : Result Report (List Bytes)
  -- `env::args`.
  pub args : List Bytes
  -- `execv`, which returns only if it fails.
  pub execv : Bytes → List Bytes → Option Report
  -- `Cli::parse`, which returns only if the arguments are as they should be.
  pub parse : List Bytes → Option (Option ServerArgs)
  pub stdio : StdioCall → Result Report (Unit {0})

-- How the shim ends: it returns, the process runs another program, or it fails; or it still binds.
pub data ShimEnd : Type 0 where
  returns binds : ShimEnd
  replaced : Bytes → List Bytes → ShimEnd
  fails : Report → ShimEnd

abbrev pub is_adb : Option Bytes → Bool
is_adb none = false
is_adb (some name) = name == codes "adb"

abbrev pub has_zero : Bytes → Bool
has_zero [] = false
has_zero (c ∷ s) = let rest = has_zero s in if c == 0 then true else rest

-- `CString::new`.
unfoldable pub c_string : Bytes → Result Report Bytes
c_string s = if has_zero s then err (codes "nul byte found in provided data") else ok s

unfoldable pub c_strings : List Bytes → Result Report (List Bytes)
unfolding c_string
c_strings [] = ok []
c_strings (s ∷ ss) = c_string s >>= λ c. c_strings ss >>= λ cs. ok (c ∷ cs)

-- The first path that is not this program's.
unfoldable pub find_other : Bytes → List Bytes → Option Bytes
find_other exe [] = none
find_other exe (p ∷ ps) = let rest = find_other exe ps in if p == exe then rest else some p

-- `execv(..)?`, and `execv(..).context("exec adb")?`.
abbrev pub as_it_is : Report → Report
as_it_is e = e

abbrev pub exec_adb : Report → Report
exec_adb e = codes "exec adb"

abbrev exec_failed : (Report → Report) → Bytes → List Bytes → Option Report → ShimEnd
exec_failed context bin args none = replaced bin args
exec_failed context bin args (some e) = fails (context e)

-- A program and its arguments, which then replace this one.
exec : System → (Report → Report) → Result Report (Bytes × List Bytes) → ShimEnd
exec sys context (err e) = fails e
exec sys context (ok (bin, args)) = exec_failed context bin args (sys.execv bin args)

-- The other `adb`, with the arguments of this program.
unfoldable pub real_adb : System → Bytes → Result Report (Bytes × List Bytes)
unfolding c_string c_strings find_other
real_adb sys exe = map_err (λ e. codes "find adb") sys.which_all >>= λ paths.
    ok_or (find_other exe paths) (codes "adb not found") >>= λ p.
    c_string p >>= λ bin. c_strings (drop 1 sys.args) >>= λ args. ok (bin, bin ∷ args)

unfoldable pub print_fd : ℕ → Bytes
unfolding decimal
print_fd fd = decimal 10 fd

-- The arguments of a daemon that gets the socket.
abbrev pub server_args : Bytes → Bytes → List Bytes
server_args bin port = bin ∷ codes "server" ∷ codes "--daemon" ∷ codes "--fd" ∷ port ∷ []

unfoldable pub real_server : System → Bytes → Result Report (Bytes × List Bytes)
unfolding c_string print_fd
real_server sys real = c_string real >>= λ bin.
    c_string (print_fd sys.raw_fd) >>= λ port. ok (bin, server_args bin port)

forked : System → Bytes → Bytes → Result Report ForkResult → ShimEnd
unfolding exec real_adb real_server
forked sys exe real (err e) = fails (codes "fork")
forked sys exe real (ok parent) = exec sys exec_adb (real_adb sys exe)
forked sys exe real (ok child) = exec sys as_it_is (real_server sys real)

cleared : System → Bytes → Bytes → Result Report (Unit {0}) → ShimEnd
unfolding forked
cleared sys exe real (err e) = fails (codes "clear cloexec")
cleared sys exe real (ok _) = forked sys exe real sys.fork

started : System → Bytes → Bytes → Started → ShimEnd
unfolding cleared exec real_adb
started sys exe real (failed e) = fails (codes "bind smartsocket")
started sys exe real looping = binds
started sys exe real already_running = exec sys exec_adb (real_adb sys exe)
started sys exe real bound = cleared sys exe real (sys.fcntl sys.raw_fd empty)

linked : System → Bytes → Option Bytes → ShimEnd
unfolding started bind_smartsocket
linked sys exe none = fails (codes "must be a link for adb shim to work")
linked sys exe (some real) = started sys exe real (bind_smartsocket sys.rounds)

by_exe : System → Result Report Bytes → ShimEnd
unfolding linked
by_exe sys (err e) = fails e
by_exe sys (ok exe) =
    if is_adb (sys.file_name exe) then linked sys exe (sys.read_link exe) else returns

-- `adb_shim`.
unfoldable pub adb_shim : System → ShimEnd
unfolding by_exe
adb_shim sys = by_exe sys sys.current_exe

-- `socket_from_fd`.
abbrev pub socket_from_fd : System → ℕ → Result Report ℕ
socket_from_fd sys fd = map_err (λ e. codes "set cloexec") (sys.fcntl fd cloexec) >>= λ _. ok fd

abbrev context : Report → Result Report (Unit {0}) → Result Report (Unit {0})
context c r = map_err (λ e. c) r

unfoldable pub close_stdio : System → Result Report (Unit {0})
close_stdio sys =
    context (codes "open /dev/null") (sys.stdio open_null)
    >> (context (codes "dup2 stdin") (sys.stdio dup2_stdin)
        >> (context (codes "dup2 stdout") (sys.stdio dup2_stdout)
            >> (context (codes "dup2 stderr") (sys.stdio dup2_stderr) >> sys.stdio close_null)))

-- How `main` ends, up to `start_daemon`, which gets a socket: the one of a descriptor, or the one that
-- was bound.
pub data MainEnd : Type 0 where
  serves : Option ℕ → MainEnd
  becomes : Bytes → List Bytes → MainEnd
  exits : Report → MainEnd
  shows_usage main_binds : MainEnd

detached : Option ℕ → Result Report (Unit {0}) → MainEnd
detached socket (err e) = exits (codes "close stdio")
detached socket (ok _) = serves socket

with_socket : System → Bool → Option ℕ → MainEnd
unfolding detached close_stdio
with_socket sys false socket = serves socket
with_socket sys true socket = detached socket (close_stdio sys)

own_socket : System → Bool → Started → MainEnd
unfolding with_socket
own_socket sys daemon bound = with_socket sys daemon none
own_socket sys daemon already_running = exits (codes "already running")
own_socket sys daemon looping = main_binds
own_socket sys daemon (failed e) = exits (codes "bind smartsocket")

inherited : System → Bool → Result Report ℕ → MainEnd
unfolding with_socket
inherited sys daemon (err e) = exits e
inherited sys daemon (ok fd) = with_socket sys daemon (some fd)

server : System → Bool → Option ℕ → MainEnd
unfolding own_socket inherited bind_smartsocket
server sys daemon (some fd) = inherited sys daemon (socket_from_fd sys fd)
server sys daemon none = own_socket sys daemon (bind_smartsocket sys.rounds)

abbrev pub default_args : ServerArgs
default_args = record { fd = none; daemon = false }

parsed : System → Option (Option ServerArgs) → MainEnd
unfolding server
parsed sys none = shows_usage
parsed sys (some none) = server sys default_args.daemon default_args.fd
parsed sys (some (some args)) = server sys args.daemon args.fd

after_shim : System → ShimEnd → MainEnd
unfolding parsed
after_shim sys returns = parsed sys (sys.parse sys.args)
after_shim sys binds = main_binds
after_shim sys (replaced bin args) = becomes bin args
after_shim sys (fails e) = exits e

loaded : System → Result Report (Unit {0}) → MainEnd
unfolding after_shim adb_shim
loaded sys (err e) = exits (codes "load config")
loaded sys (ok _) = after_shim sys (adb_shim sys)

unfoldable pub main : System → MainEnd
unfolding loaded
main sys = loaded sys sys.load_config
