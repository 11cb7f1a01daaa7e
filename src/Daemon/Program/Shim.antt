-- ===== src/Daemon/Program/Shim.antt =====
-- What becomes of a process that is started as `adb`.
use adb_daemon_rs.Base.{
  ◌≡◌, ◌≢◌, refl, List, [], ◌∷◌, drop, Bytes, Option, none, some, Result, ok, err, nat_eq, bytes_eq,
}
use adb_daemon_rs.Text.{codes}
use adb_daemon_rs.Daemon.Proto.{Report}
use adb_daemon_rs.Daemon.Startup.{
  StartError, Started, bound, already_running, looping, failed, bind_smartsocket,
}
use adb_daemon_rs.Daemon.Program.{
  ForkResult, parent, child, empty, as_it_is, exec_adb, System, ShimEnd, binds, replaced, fails,
  exec_failed, exec, real_adb, server_args, print_fd, real_server, forked, cleared, started, linked,
  by_exe, adb_shim,
}
use adb_daemon_rs.Daemon.Program.Commands.{
  In, SomeZero, NoAdb, real_adb-IsOther, real_server-ok, real_adb-NoAdb, real_server-err,
}

-- Why the process itself becomes another `adb`: a daemon runs, or its child will be one.
pub data BecomesAdb (sys : System) : Type 0 where
  daemon_runs : bind_smartsocket sys.rounds ≡ already_running → BecomesAdb sys
  is_parent :
      bind_smartsocket sys.rounds ≡ bound
      → sys.fcntl sys.raw_fd empty ≡ ok tt
      → sys.fork ≡ ok parent
      → BecomesAdb sys

-- The child of a process that bound the socket, whose descriptor stays open on `exec`.
pub record IsChild (sys : System) : Type 0 where
  pub binds_first : bind_smartsocket sys.rounds ≡ bound
  pub stays_open : sys.fcntl sys.raw_fd empty ≡ ok tt
  pub is_child : sys.fork ≡ ok child

-- What the process runs, and what becomes of an error of `execv`.
pub data Runs (sys : System) (exe real : Bytes)
    : Bytes → List Bytes → (Report → Report) → Type 0 where
  -- The child serves the socket.
  serves : IsChild sys → Runs sys exe real real (server_args real (print_fd sys.raw_fd)) as_it_is
  runs_adb :
      (bin : Bytes) (paths : List Bytes)
      → BecomesAdb sys
      → sys.which_all ≡ ok paths
      → In bin paths
      → bin ≢ exe
      → Runs sys exe real bin (bin ∷ drop 1 sys.args) exec_adb

-- How the shim of the program `exe` ends, which is a link to `real`.
pub data LinkEnds (sys : System) (exe real : Bytes) : ShimEnd → Type 0 where
  still_binds : bind_smartsocket sys.rounds ≡ looping → LinkEnds sys exe real binds
  replaces :
      (bin : Bytes) (args : List Bytes) (context : Report → Report)
      → Runs sys exe real bin args context
      → sys.execv bin args ≡ none
      → LinkEnds sys exe real (replaced bin args)
  exec_fails :
      (bin : Bytes) (args : List Bytes) (context : Report → Report) (e : Report)
      → Runs sys exe real bin args context
      → sys.execv bin args ≡ some e
      → LinkEnds sys exe real (fails (context e))
  cannot_bind :
      (e : StartError)
      → bind_smartsocket sys.rounds ≡ failed e
      → LinkEnds sys exe real (fails (codes "bind smartsocket"))
  cannot_clear :
      (e : Report)
      → bind_smartsocket sys.rounds ≡ bound
      → sys.fcntl sys.raw_fd empty ≡ err e
      → LinkEnds sys exe real (fails (codes "clear cloexec"))
  cannot_fork :
      (e : Report)
      → bind_smartsocket sys.rounds ≡ bound
      → sys.fcntl sys.raw_fd empty ≡ ok tt
      → sys.fork ≡ err e
      → LinkEnds sys exe real (fails (codes "fork"))
  no_adb : (e : Report) → BecomesAdb sys → NoAdb sys exe → LinkEnds sys exe real (fails e)
  no_server :
      (e : Report)
      → IsChild sys
      → SomeZero (real ∷ print_fd sys.raw_fd ∷ [])
      → LinkEnds sys exe real (fails e)

module _ (sys : System) (exe real : Bytes) where
  -- A command that is run, and one that cannot be made.
  exec-LinkEnds :
      (context : Report → Report) (r c : Result Report (Bytes × List Bytes))
      → r ≡ c
      → ((bin : Bytes) (args : List Bytes)
          → r ≡ ok (bin, args)
          → Runs sys exe real bin args context)
      → ((e : Report) → r ≡ err e → LinkEnds sys exe real (fails e))
      → LinkEnds sys exe real (exec sys context c)
  unfolding exec
  exec-LinkEnds context r (err e) is h none_ = none_ e is
  exec-LinkEnds context r (ok (bin, args)) is h none_ = by_result (sys.execv bin args) refl
    where
      by_result :
          (o : Option Report)
          → sys.execv bin args ≡ o
          → LinkEnds sys exe real (exec_failed context bin args o)
      by_result none e = replaces bin args context (h bin args is) e
      by_result (some d) e = exec_fails bin args context d (h bin args is) e

  real_adb-LinkEnds : BecomesAdb sys → LinkEnds sys exe real (exec sys exec_adb (real_adb sys exe))
  real_adb-LinkEnds why =
      exec-LinkEnds exec_adb (real_adb sys exe) (real_adb sys exe) refl
        (λ bin args h.
          let c = real_adb-IsOther sys exe (bin, args) h in
          rw (c.args) (runs_adb bin c.paths why c.found c.among c.other))
        (λ e h. no_adb e why (real_adb-NoAdb sys exe e h))

  forked-LinkEnds :
      (f : Result Report ForkResult)
      → bind_smartsocket sys.rounds ≡ bound
      → sys.fcntl sys.raw_fd empty ≡ ok tt
      → sys.fork ≡ f
      → LinkEnds sys exe real (forked sys exe real f)
  unfolding forked
  forked-LinkEnds (err e) b c h = cannot_fork e b c h
  forked-LinkEnds (ok parent) b c h = real_adb-LinkEnds (is_parent b c h)
  forked-LinkEnds (ok child) b c h =
      let why : IsChild sys = record { binds_first = b; stays_open = c; is_child = h } in
      exec-LinkEnds as_it_is (real_server sys real) (real_server sys real) refl
        (λ bin args is.
          let (same, same_args) = real_server-ok sys real bin args is in
          rw (same, same_args) (serves why))
        (λ e is. no_server e why (real_server-err sys real e is))

  started-LinkEnds :
      (s : Started)
      → bind_smartsocket sys.rounds ≡ s
      → LinkEnds sys exe real (started sys exe real s)
  unfolding started
  started-LinkEnds (failed e) h = cannot_bind e h
  started-LinkEnds looping h = still_binds h
  started-LinkEnds already_running h = real_adb-LinkEnds (daemon_runs h)
  started-LinkEnds bound h = by_clear (sys.fcntl sys.raw_fd empty) refl
    where
      by_clear :
          (c : Result Report (Unit {0}))
          → sys.fcntl sys.raw_fd empty ≡ c
          → LinkEnds sys exe real (cleared sys exe real c)
      by_clear (err e) is = cannot_clear e h is
      by_clear (ok _) is = unfold cleared in forked-LinkEnds sys.fork h is refl

  linked-LinkEnds : (o : Option Bytes) → o ≡ some real → LinkEnds sys exe real (linked sys exe o)
  unfolding linked
  linked-LinkEnds none h = absurd (cc)
  linked-LinkEnds (some r) h =
      let same : r ≡ real = cc in rw same (started-LinkEnds (bind_smartsocket sys.rounds) refl)

-- A process that is started as `adb`, by a link, never goes on as this program: it is replaced, it fails,
-- or it still looks for the address. It runs the program that the link leads to, as a server with the
-- socket, if it is the child of a process that bound the socket and cleared the flag which closes its
-- descriptor on `exec`; and if a daemon runs, or it is the parent of that child, another `adb` of those
-- that are found, with the arguments of this process. It fails only if the address cannot be bound, the
-- flag cannot be cleared, the process cannot fork, `execv` of that very program fails, no other `adb` is
-- found, or a text that `execv` needs has a zero byte in it.
pub adb_shim-LinkEnds :
    (sys : System) (exe real : Bytes)
    → sys.current_exe ≡ ok exe
    → sys.file_name exe ≡ some (codes "adb")
    → sys.read_link exe ≡ some real
    → LinkEnds sys exe real (adb_shim sys)
unfolding adb_shim by_exe
adb_shim-LinkEnds sys exe real at name link =
    simp (at, name) (linked-LinkEnds sys exe real (sys.read_link exe) link)
