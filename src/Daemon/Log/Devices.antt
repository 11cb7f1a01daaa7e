-- ===== src/Daemon/Log/Devices.antt =====
-- The logs of the devices in src/log.rs: `DeviceSerial` and `DeviceSerialFilter`, which find the serial
-- of an event, and `PerDeviceWriter`, which writes it to the files of this serial. The spans around an
-- event, from the root, and the filters beside this one are those of the `tracing` library, and so
-- parameters. The operations are those of one thread.
pub mod Serials
pub mod Validity
pub mod Writers
use adb_daemon_rs.Base.{
  ℕ, suc, ◌*◌, Bool, true, false, List, [], ◌∷◌, Bytes, Option, none, some, Run, done, panicked,
  ◌==◌, bytes_eq, nat_eq, if◌then◌else◌,
}
use adb_daemon_rs.Base.Map.{Map, lookup, insert}
use adb_daemon_rs.Text.{codes}
use adb_daemon_rs.Daemon.Log.{RollingWriter, new}

-- A field's value, as the library hands it out.
pub data Value : Type 0 where
  str : Bytes → Value
  debug : Value

abbrev pub Fields : Type 0
Fields = List (Bytes × Value)

-- `DeviceSerial::record_str` and `record_debug`, for the fields in order.
unfoldable pub record_fields : Option Bytes → Fields → Option Bytes
record_fields serial [] = serial
record_fields serial ((name, str value) ∷ fs) =
    record_fields (if name == codes "serial" then some value else serial) fs
record_fields serial ((name, debug) ∷ fs) = record_fields serial fs

-- The spans' extensions.
abbrev pub Spans : Type 0
Spans = Map ℕ (Option Bytes)

unfoldable pub on_new_span : Spans → ℕ → Fields → Spans
unfolding record_fields insert
on_new_span spans id attrs = insert id (record_fields none attrs) spans

recorded : Spans → ℕ → Fields → Option (Option Bytes) → Run Spans
unfolding record_fields insert
recorded spans id values none = panicked
recorded spans id values (some serial) = done (insert id (record_fields serial values) spans)

unfoldable pub on_record : Spans → ℕ → Fields → Run Spans
unfolding recorded lookup
on_record spans id values = recorded spans id values (lookup id spans)

unfoldable pub or_else : Option (Option Bytes) → Option Bytes → Option Bytes
or_else (some (some serial)) rest = some serial
or_else _ rest = rest

-- The first span, from the root, that has a serial.
unfoldable pub scope_serial : Spans → List ℕ → Option Bytes
unfolding or_else lookup
scope_serial spans [] = none
scope_serial spans (id ∷ ids) = or_else (lookup id spans) (scope_serial spans ids)

-- What `event_enabled` puts into `SERIAL`.
unfoldable pub event_serial : Spans → List ℕ → Fields → Option Bytes
unfolding or_else record_fields scope_serial
event_serial spans scope fields =
    or_else (some (record_fields none fields)) (scope_serial spans scope)

-- The log directory, or its directory for a serial.
pub data Dir : Type 0 where
  base : Dir
  join : Bytes → Dir

-- A writer that was made: how many were made before it, its directory, and its `RollingWriter`.
pub record Appender : Type 0 where
  pub number : ℕ
  pub dir : Dir
  pub writer : RollingWriter

-- The thread's `SERIAL`, the spans, the writers, and how many were made.
pub record Logs : Type 0 where
  pub serial : Option Bytes
  pub spans : Spans
  pub writers : Map Bytes Appender
  pub made : ℕ

abbrev pub unwrap_or_default : Option Bytes → Bytes
unwrap_or_default none = []
unwrap_or_default (some s) = s

abbrev pub cutoff_for : Bytes → ℕ
cutoff_for [] = 10 * 1024 * 1024
cutoff_for (c ∷ s) = 20 * 1024 * 1024

abbrev pub dir_for : Bytes → Dir
dir_for [] = base
dir_for (c ∷ s) = join (c ∷ s)

-- A new writer for a serial.
abbrev make : Logs → ℕ → Bytes → Appender
make l now serial = record {
  number = l.made;
  dir = dir_for serial;
  writer = new now (cutoff_for serial) 5;
}

obtained : Logs → ℕ → Bytes → Option Appender → Appender × Logs
unfolding insert
obtained l now serial (some a) = (a, l)
obtained l now serial none =
    let a = make l now serial in
    (a, record l { writers = insert serial a l.writers; made = suc l.made })

-- `make_writer`, at the time `now`.
unfoldable pub make_writer : Logs → ℕ → Appender × Logs
unfolding obtained lookup
make_writer l now =
    let serial = unwrap_or_default l.serial in
    obtained (record l { serial = none }) now serial (lookup serial l.writers)

-- What the program does on the thread: a new span, more values of a span, or an event with the spans
-- around it, which another filter may keep from the writer.
pub data Operation : Type 0 where
  new_span records : ℕ → Fields → Operation
  event : List ℕ → Fields → Bool → ℕ → Operation

-- A write: the event, with the spans as they were and the scope around it, and the writer that it
-- went to.
pub record Written : Type 0 where
  pub spans : Spans
  pub scope : List ℕ
  pub fields : Fields
  pub to : Appender

abbrev pub Trace : Type 0
Trace = List Written

pub noted : Spans → List ℕ → Fields → Appender × Logs → Trace × Logs
noted spans scope fields (a, l) =
    (record { spans = spans; scope = scope; fields = fields; to = a } ∷ [], l)

after_record : Logs → Run Spans → Option (Trace × Logs)
after_record l panicked = none
after_record l (done spans) = some ([], record l { spans = spans })

-- An operation: what it wrote, and the state behind it, or `none` if it panics.
unfoldable pub operate : Logs → Operation → Option (Trace × Logs)
unfolding noted after_record on_new_span on_record event_serial make_writer
operate l (new_span id attrs) = some ([], record l { spans = on_new_span l.spans id attrs })
operate l (records id values) = after_record l (on_record l.spans id values)
operate l (event scope fields passes now) =
    let serial = event_serial l.spans scope fields in
    let l' = record l { serial = serial } in
    some (if passes then noted l.spans scope fields (make_writer l' now) else ([], l'))
