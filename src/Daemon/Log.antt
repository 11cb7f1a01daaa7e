-- ===== src/Daemon/Log.antt =====
-- `RollingWriter` of src/log.rs: the log file that is written, and the old ones that are removed.
-- The log directory is its names; which calls of the system fail is a parameter.
pub mod Remaining
pub mod Rolling
pub mod Devices
use adb_daemon_rs.Base.{
  ℕ, ◌+◌, ◌-◌, Bool, true, false, not, ◌&&◌, ◌||◌, List, [], ◌∷◌, ◌++◌, Bytes, Option, none, some,
  Result, ok, err, ltb, drop, nat_beq, bytes_eq, ◌==◌, if◌then◌else◌, ◌>>=◌,
}
use adb_daemon_rs.Text.{codes}
use adb_daemon_rs.Daemon.Proto.{Report}

-- The directory, if it exists, and the names in it that are UTF-8.
pub record Directory : Type 0 where
  pub exists : Bool
  pub names : List Bytes

pub data Call : Type 0 where
  stream_position create_dir_all read_dir : Call
  remove_file create_file : Bytes → Call

-- The system's answers while a file is written: the calls that fail, the position in the file that is
-- open, the clock in seconds, and the clock as it is written in a name.
pub record System : Type 0 where
  pub call_fails : Call → Bool
  pub position : ℕ
  pub now : ℕ
  pub timestamp : Bytes

pub record RollingWriter : Type 0 where
  pub cutoff : ℕ
  pub count : ℕ
  pub error_timeout : ℕ
  pub file : Option Bytes

-- `RollingWriter::new`.
abbrev pub new : ℕ → ℕ → ℕ → RollingWriter
new now cutoff count = record {
  cutoff = cutoff;
  count = count;
  error_timeout = now - 120;
  file = none;
}

-- A call with its context.
abbrev pub attempt : System → Call → Report → Result Report (Unit {0})
attempt sys call context = if sys.call_fails call then err context else ok tt

abbrev pub filter : (Bytes → Bool) → List Bytes → List Bytes
filter p [] = []
filter p (x ∷ xs) = let rest = filter p xs in if p x then x ∷ rest else rest

-- `str::cmp`.
abbrev pub name_leb : Bytes → Bytes → Bool
name_leb [] t = true
name_leb (c ∷ s) [] = false
name_leb (c ∷ s) (d ∷ t) = ltb c d || (nat_beq c d && name_leb s t)

abbrev pub insert_name : Bytes → List Bytes → List Bytes
insert_name x [] = x ∷ []
insert_name x (y ∷ ys) =
    let rest = insert_name x ys in if name_leb x y then x ∷ y ∷ ys else y ∷ rest

unfoldable pub sort : List Bytes → List Bytes
sort [] = []
sort (x ∷ xs) = insert_name x (sort xs)

unfoldable pub rev : List Bytes → List Bytes
rev [] = []
rev (x ∷ xs) = rev xs ++ x ∷ []

-- `name.ends_with(".log")`.
unfoldable pub is_log : Bytes → Bool
is_log [] = false
is_log (c ∷ s) = (c ∷ s) == codes ".log" || is_log s

-- The log files but the newest `count`.
unfoldable pub old_files : ℕ → List Bytes → List Bytes
unfolding sort rev is_log
old_files count names = drop count (rev (sort (filter is_log names)))

abbrev pub without : Bytes → List Bytes → List Bytes
without x = filter (λ y. not (y == x))

-- The loop of `fs::remove_file`, which stops at the first failure.
unfoldable pub remove_files :
    System → List Bytes → List Bytes → Result Report (Unit {0}) × List Bytes
remove_files sys [] names = (ok tt, names)
remove_files sys (x ∷ xs) names =
    let rest = remove_files sys xs (without x names) in
    if sys.call_fails (remove_file x) then (err (codes "remove old log file"), names) else rest

-- A file at its cutoff is left.
unfoldable pub leave_full : System → RollingWriter → Option Bytes → Result Report RollingWriter
leave_full sys w none = ok w
leave_full sys w (some name) =
    if sys.call_fails stream_position
    then err (codes "stream position")
    else ok (if ltb w.cutoff sys.position then record w { file = none } else w)

unfoldable pub make_dir : System → Directory → Result Report Directory
make_dir sys d =
    if d.exists
    then ok d
    else if sys.call_fails create_dir_all
    then err (codes "create log dir")
    else ok (record { exists = true; names = [] })

-- The name of a new file.
abbrev pub new_name : System → Bytes
new_name sys = sys.timestamp ++ codes ".log"

abbrev pub Rolled : Type 0
Rolled = Result Report (Unit {0}) × Directory × RollingWriter

create_new : System → Directory → RollingWriter → Result Report (Unit {0}) × List Bytes → Rolled
create_new sys d w (err e, names) = (err e, record d { names = names }, w)
create_new sys d w (ok _, names) =
    if sys.call_fails (create_file (new_name sys))
    then (err (codes "create log file"), record d { names = names }, w)
    else (
      ok tt,
      record d { names = new_name sys ∷ without (new_name sys) names },
      record w { file = some (new_name sys) },
    )

open_new : System → Directory → RollingWriter → Result Report Directory → Rolled
unfolding create_new remove_files old_files
open_new sys before w (err e) = (err e, before, w)
open_new sys before w (ok d) =
    if sys.call_fails read_dir
    then (err (codes "read log dir"), d, w)
    else create_new sys d w (remove_files sys (old_files w.count d.names) d.names)

use_file : System → Directory → RollingWriter → Option Bytes → Rolled
unfolding open_new make_dir
use_file sys d w (some name) = (ok tt, d, w)
use_file sys d w none = open_new sys d w (make_dir sys d)

roll_left : System → Directory → RollingWriter → Result Report RollingWriter → Rolled
unfolding use_file
roll_left sys d w (err e) = (err e, d, w)
roll_left sys d w (ok w') = use_file sys d w' w'.file

-- `roll`.
unfoldable pub roll : System → Directory → RollingWriter → Rolled
unfolding roll_left leave_full
roll sys d w = roll_left sys d w (leave_full sys w w.file)

-- `write`: the file that is written to, or the error; an error is reported at most once a minute.
written : System → Rolled → Result Report (Option Bytes) × Bool × Directory × RollingWriter
written sys (ok _, d, w) = (ok w.file, false, d, w)
written sys (err e, d, w) =
    let due = ltb 60 (sys.now - w.error_timeout) in
    (err e, due, d, if due then record w { error_timeout = sys.now } else w)

unfoldable pub write :
    System
    → Directory
    → RollingWriter
    → Result Report (Option Bytes) × Bool × Directory × RollingWriter
unfolding written roll
write sys d w = written sys (roll sys d w)
