-- ===== src/Daemon/Log/Devices/Writers.antt =====
-- One writer for each serial.
use adb_daemon_rs.Base.{
  subst, ◌≡◌, refl, sym, ◌∙◌, ◌⊎◌, inl, inr, List, [], ◌∷◌, ◌++◌, Bytes, Option, none, some, Run,
  done, panicked, bytes_eq, All, All-append,
}
use adb_daemon_rs.Base.Map.{lookup}
use adb_daemon_rs.Daemon.Log.Devices.Validity.{
  IsFor, IsValid, Kept, Extends, Keeps, still-Keeps, event-Keeps,
}
use adb_daemon_rs.Daemon.Log.Devices.Serials.{IsSerial, serial_of, serial_of-IsSerial}
use adb_daemon_rs.Daemon.Log.Devices.{
  Written, Spans, Appender, Logs, on_record, on_new_span, Operation, new_span, records, event,
  Trace, after_record, operate,
}

abbrev pub quiet : Logs
quiet = record { serial = none; spans = []; writers = []; made = 0 }

-- The operations in order, behind what was written before.
unfoldable pub operate_all : Trace → Logs → List Operation → Option (Trace × Logs)
unfolding operate
operate_all trace l [] = some (trace, l)
operate_all trace l (o ∷ os) = elim (operate l o) [
  | none ↦ none
  | some (written, l') ↦ operate_all (trace ++ written) l' os
]

operate-Keeps :
    (l : Logs) (o : Operation) (r : Trace × Logs)
    → operate l o ≡ some r
    → IsValid l
    → Keeps l r.0 r.1
unfolding operate
operate-Keeps l (new_span id attrs) r e v =
    let spans = on_new_span l.spans id attrs in
    let is : ([], record l { spans = spans }) ≡ r = cc in
    rw⁻¹ is (still-Keeps l (record l { spans = spans }) refl refl v)
operate-Keeps l (records id values) r e v = by_spans (on_record l.spans id values) e
  where
    by_spans : (s : Run Spans) → after_record l s ≡ some r → Keeps l r.0 r.1
    by_spans panicked h = absurd (unfold after_record in cc)
    by_spans (done spans) h =
        let is : ([], record l { spans = spans }) ≡ r = unfold after_record in cc in
        rw⁻¹ is (still-Keeps l (record l { spans = spans }) refl refl v)
operate-Keeps l (event scope fields passes now) r e v =
    event-Keeps l scope fields passes now r (cc) v

All-kept : (l l' : Logs) (trace : Trace) → Extends l l' → All (Kept l) trace → All (Kept l') trace
All-kept l l' [] ext h = tt
All-kept l l' (w ∷ trace) ext (h, hs) =
    (ext (serial_of w.spans w.scope w.fields) w.to h, All-kept l l' trace ext hs)

first_step :
    (x : Option (Trace × Logs)) (trace : Trace) (os : List Operation) (r : Trace × Logs)
    → (elim x [ none ↦ none | some (written, l') ↦ operate_all (trace ++ written) l' os ]) ≡ some r
    → (step : Trace × Logs) × (x ≡ some step) × (operate_all (trace ++ step.0) step.1 os ≡ some r)
first_step none trace os r h = absurd (cc)
first_step (some (written, l')) trace os r h = ((written, l'), refl, h)

operate_all-Keeps :
    (os : List Operation) (trace : Trace) (l : Logs) (r : Trace × Logs)
    → operate_all trace l os ≡ some r
    → IsValid l
    → All (Kept l) trace
    → IsValid r.1 × All (Kept r.1) r.0
unfolding operate_all
operate_all-Keeps [] trace l r e v h = let is : (trace, l) ≡ r = cc in rw⁻¹ is (v, h)
operate_all-Keeps (o ∷ os) trace l r e v h =
    let (step, is, later) = first_step (operate l o) trace os r e in
    let keeps = operate-Keeps l o step is v in
    operate_all-Keeps os (trace ++ step.0) step.1 r later keeps.valid
      (All-append (Kept step.1) trace step.0 (All-kept l step.1 trace keeps.extends h) keeps.kept)

-- The write is in the trace.
abbrev pub In : Written → Trace → Type 0
In w [] = ⊥
In w (x ∷ trace) = (x ≡ w) ⊎ In w trace

In-Kept : (l : Logs) (w : Written) (trace : Trace) → All (Kept l) trace → In w trace → Kept l w
In-Kept l w [] h i = elim i [ ]
In-Kept l w (x ∷ trace) (h, hs) (inl e) = subst (Kept l) e h
In-Kept l w (x ∷ trace) (h, hs) (inr i) = In-Kept l w trace hs i

quiet-IsValid : IsValid quiet
unfolding lookup
quiet-IsValid = record {
  config = λ s a h. absurd (cc);
  fresh = λ s a h. absurd (cc);
  injective = λ s t a b h k same. absurd (cc);
}

same_writer : (a b : Appender) → ◌≡◌ {A = Option Appender} (some a) (some b) → a.number ≡ b.number
same_writer a b h = cc

-- The event of the first write has the serial `s`, that of the second `t`; the first goes to a writer
-- for `s`; and they go to the same writer exactly if `s` and `t` are the same.
pub record Sorted (w x : Written) (s t : Bytes) : Type 0 where
  pub first : IsSerial w.spans w.scope w.fields s
  pub second : IsSerial x.spans x.scope x.fields t
  pub is_for : IsFor s w.to
  pub one_serial : w.to.number ≡ x.to.number → s ≡ t
  pub one_writer : s ≡ t → w.to.number ≡ x.to.number

-- Whatever spans, values and events a thread has had: an event that is written has a serial, the last of
-- its own fields, else the one that was recorded for the first span around it, from the root, that has
-- one, else the empty one. It goes to the writer of this serial, with its directory, a cutoff of 20 MiB
-- and five old files, or, if the serial is empty, to that of the log directory itself, with a cutoff of
-- 10 MiB. Two events go to the same writer exactly if they have the same serial.
pub operate_all_lem :
    (os : List Operation) (trace : Trace) (l : Logs) (w x : Written)
    → operate_all [] quiet os ≡ some (trace, l)
    → In w trace
    → In x trace
    → (s : Bytes) × (t : Bytes) × Sorted w x s t
operate_all_lem os trace l w x run i j =
    let (v, kept) = operate_all-Keeps os [] quiet (trace, l) run quiet-IsValid tt in
    let s = serial_of w.spans w.scope w.fields in
    let t = serial_of x.spans x.scope x.fields in
    let h : lookup s l.writers ≡ some w.to = In-Kept l w trace kept i in
    let k : lookup t l.writers ≡ some x.to = In-Kept l x trace kept j in
    (
      s,
      t,
      record {
        first = serial_of-IsSerial w.spans w.scope w.fields;
        second = serial_of-IsSerial x.spans x.scope x.fields;
        is_for = v.config s w.to h;
        one_serial = v.injective s t w.to x.to h k;
        one_writer = λ same. same_writer w.to x.to (sym h ∙ rw same k);
      },
    )
