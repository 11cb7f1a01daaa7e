-- ===== src/Daemon/Log/Devices/Validity.antt =====
-- What the writers of the devices satisfy, and what an operation keeps of it.
use adb_daemon_rs.Base.{
  ℕ, suc, subst, ◌<◌, ◌≡◌, refl, sym, ap, ◌∙◌, ◌⊎◌, inl, inr, Bool, true, false, [], Bytes, Option,
  none, some, ◌==◌, ==_iff, ==_refl, bytes_eq, if◌then◌else◌, Bool-cases, All, arith, List,
}
use adb_daemon_rs.Base.Map.{lookup, insert, lookup-insert}
use adb_daemon_rs.Daemon.Log.Devices.{
  Spans, Fields, Written, event_serial, Appender, Logs, cutoff_for, dir_for, make, obtained,
  make_writer, Trace, noted,
}
use adb_daemon_rs.Daemon.Log.Devices.Serials.{serial_of}

-- The writer is one for the serial.
pub record IsFor (serial : Bytes) (a : Appender) : Type 0 where
  pub at : a.dir ≡ dir_for serial
  pub cutoff : a.writer.cutoff ≡ cutoff_for serial
  pub count : a.writer.count ≡ 5

pub record IsValid (l : Logs) : Type 0 where
  pub config : (s : Bytes) (a : Appender) → lookup s l.writers ≡ some a → IsFor s a
  pub fresh : (s : Bytes) (a : Appender) → lookup s l.writers ≡ some a → a.number < l.made
  pub injective :
      (s t : Bytes) (a b : Appender)
      → lookup s l.writers ≡ some a
      → lookup t l.writers ≡ some b
      → a.number ≡ b.number
      → s ≡ t

-- A write went to the writer of the event's serial, which is still there.
abbrev pub Kept : Logs → Written → Type 0
Kept l w = lookup (serial_of w.spans w.scope w.fields) l.writers ≡ some w.to

abbrev pub Extends : Logs → Logs → Type 0
Extends l l' =
    (s : Bytes) (a : Appender) → lookup s l.writers ≡ some a → lookup s l'.writers ≡ some a

-- What a step keeps.
pub record Keeps (l : Logs) (written : Trace) (l' : Logs) : Type 0 where
  pub valid : IsValid l'
  pub extends : Extends l l'
  pub kept : All (Kept l') written

-- A writer that is looked up behind the one for `serial` was made.
made_IsFor :
    (l : Logs) (now : ℕ) (serial : Bytes) (a : Appender)
    → some (make l now serial) ≡ some a
    → IsFor serial a × (a.number ≡ l.made)
made_IsFor l now serial a h =
    let is : make l now serial ≡ a = cc in
    (
      subst (IsFor serial) is (record { at = refl; cutoff = refl; count = refl }),
      sym (ap (λ (x : Appender). x.number) is),
    )

found_cases :
    (l : Logs) (now : ℕ) (serial s : Bytes) (a : Appender)
    → lookup s (insert serial (make l now serial) l.writers) ≡ some a
    → ((serial ≡ s) × IsFor s a × (a.number ≡ l.made)) ⊎ (lookup s l.writers ≡ some a)
found_cases l now serial s a h =
    let found = sym (lookup-insert serial s (make l now serial) l.writers) ∙ h in
    elim (Bool-cases (serial == s)) [
      | inl e ↦
          let same = (==_iff serial s).0 e in
          let (is_for, number) = made_IsFor l now serial a (ground (arith, found, e)) in
          inl (same, rw⁻¹ same is_for, number)
      | inr e ↦ inr (ground (arith, found, e))
    ]

new-IsValid :
    (l : Logs) (now : ℕ) (serial : Bytes)
    → IsValid l
    → IsValid
        (record l { writers = insert serial (make l now serial) l.writers; made = suc l.made })
new-IsValid l now serial v = record {
  config = λ s a h. elim (found_cases l now serial s a h) [
    | inl (e, is_for, number) ↦ is_for
    | inr old ↦ v.config s a old
  ];
  fresh = λ s a h. elim (found_cases l now serial s a h) [
    | inl (e, is_for, number) ↦ omega (arith, number)
    | inr old ↦ omega (arith, v.fresh s a old)
  ];
  injective = λ s t a b h k same. elim (found_cases l now serial s a h) [
    | inl (e, is_for, number) ↦ elim (found_cases l now serial t b k) [
      | inl (e', is_for', number') ↦ sym e ∙ e'
      | inr old ↦ absurd (omega (arith, number, same, v.fresh t b old))
    ]
    | inr old ↦ elim (found_cases l now serial t b k) [
      | inl (e', is_for', number') ↦ absurd (omega (arith, number', same, v.fresh s a old))
      | inr old' ↦ v.injective s t a b old old' same
    ]
  ];
}

new-Extends :
    (l : Logs) (now : ℕ) (serial : Bytes)
    → lookup serial l.writers ≡ none
    → (s : Bytes) (a : Appender) → lookup s l.writers ≡ some a
    → lookup s (insert serial (make l now serial) l.writers) ≡ some a
new-Extends l now serial absent s a h =
    ground (arith, lookup-insert serial s (make l now serial) l.writers, ==_iff serial s, absent, h)

obtained-Keeps :
    (l : Logs) (now : ℕ) (spans : Spans) (scope : List ℕ) (fields : Fields) (o : Option Appender)
    → lookup (serial_of spans scope fields) l.writers ≡ o
    → IsValid l
    → let r = noted spans scope fields (obtained l now (serial_of spans scope fields) o) in
      Keeps l r.0 r.1
unfolding noted obtained
obtained-Keeps l now spans scope fields (some a) h v = record {
  valid = v;
  extends = λ s b k. k;
  kept = (h, tt);
}
obtained-Keeps l now spans scope fields none h v =
    let serial = serial_of spans scope fields in
    record {
      valid = new-IsValid l now serial v;
      extends = new-Extends l now serial h;
      kept = (
        lookup-insert serial serial (make l now serial) l.writers ∙ rw (==_refl serial) refl,
        tt,
      );
    }

-- A step that writes nothing and leaves the writers.
pub still-Keeps :
    (l l' : Logs) → l'.writers ≡ l.writers → l'.made ≡ l.made → IsValid l → Keeps l [] l'
still-Keeps l l' writers made v = record {
  valid = record {
    config = rw writers v.config;
    fresh = rw (writers, made) v.fresh;
    injective = rw writers v.injective;
  };
  extends = λ s a h. rw writers h;
  kept = tt;
}

pub event-Keeps :
    (l : Logs) (scope : List ℕ) (fields : Fields) (passes : Bool) (now : ℕ) (r : Trace × Logs)
    → let serial = event_serial l.spans scope fields in
      (if passes
          then noted l.spans scope fields (make_writer (record l { serial = serial }) now)
          else ([], record l { serial = serial }))
        ≡ r
      → IsValid l
      → Keeps l r.0 r.1
unfolding make_writer
event-Keeps l scope fields true now r e v =
    let w =
      obtained-Keeps (record l { serial = none }) now l.spans scope fields _ refl
        (still-Keeps l (record l { serial = none }) refl refl v).valid in
    rw⁻¹ e (record { valid = w.valid; extends = w.extends; kept = w.kept })
event-Keeps l scope fields false now r e v =
    let serial = event_serial l.spans scope fields in
    rw⁻¹ e (still-Keeps l (record l { serial = serial }) refl refl v)
