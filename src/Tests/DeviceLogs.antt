-- ===== src/Tests/DeviceLogs.antt =====
-- Events of a device and of none.
use adb_daemon_rs.Base.{
  ◌≡◌, refl, inl, inr, List, [], ◌∷◌, none, some, true, Bytes, nat_eq, bytes_eq,
}
use adb_daemon_rs.Base.Map.{lookup, insert, remove}
use adb_daemon_rs.Text.{codes}
use adb_daemon_rs.Daemon.Log.Devices.{
  str, Spans, Written, Appender, Logs, Operation, new_span, event, Trace, record_fields,
  on_new_span, scope_serial, event_serial, make_writer, operate, dir_for,
}
use adb_daemon_rs.Daemon.Log.Devices.Writers.{quiet, operate_all, Sorted, operate_all_lem}

abbrev operations : List Operation
operations =
    new_span 1 ((codes "serial", str (codes "pixel")) ∷ [])
    ∷ event (1 ∷ []) [] true 500
    ∷ event [] [] true 501
    ∷ event [] ((codes "serial", str (codes "pixel")) ∷ []) true 502
    ∷ []

abbrev pixel_log : Appender
pixel_log = record {
  number = 0;
  dir = dir_for (codes "pixel");
  writer = record { cutoff = 20971520; count = 5; error_timeout = 380; file = none };
}

abbrev main_log : Appender
main_log = record {
  number = 1;
  dir = dir_for [];
  writer = record { cutoff = 10485760; count = 5; error_timeout = 381; file = none };
}

abbrev spans : Spans
spans = (1, some (codes "pixel")) ∷ []

-- An event in the span of a device, one outside of any, and one with a serial of its own.
abbrev in_span : Written
in_span = record { spans = spans; scope = 1 ∷ []; fields = []; to = pixel_log }

abbrev plain : Written
plain = record { spans = spans; scope = []; fields = []; to = main_log }

abbrev named : Written
named = record {
  spans = spans;
  scope = [];
  fields = (codes "serial", str (codes "pixel")) ∷ [];
  to = pixel_log;
}

abbrev trace : Trace
trace = in_span ∷ plain ∷ named ∷ []

abbrev logs : Logs
logs = record {
  serial = none;
  spans = (1, some (codes "pixel")) ∷ [];
  writers = ([], main_log) ∷ (codes "pixel", pixel_log) ∷ [];
  made = 2;
}

logged : operate_all [] quiet operations ≡ some (trace, logs)
unfolding operate_all operate on_new_span record_fields event_serial scope_serial make_writer lookup
    insert remove
logged = refl

operate_all_lem_example : (s : Bytes) × (t : Bytes) × Sorted in_span named s t
operate_all_lem_example =
    operate_all_lem operations trace logs in_span named logged (inl refl) (inr (inr (inl refl)))
