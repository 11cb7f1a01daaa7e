-- ===== src/Daemon/Log/Devices/Serials.antt =====
-- Which serial an event has.
use adb_daemon_rs.Base.{
  ℕ, ◌≡◌, ◌≢◌, refl, ◌⊎◌, inl, inr, List, [], ◌∷◌, Bytes, Option, none, some, ◌==◌, ==_iff,
  bytes_eq, nat_eq, Bool-cases, All,
}
use adb_daemon_rs.Base.Map.{lookup}
use adb_daemon_rs.Text.{codes}
use adb_daemon_rs.Daemon.Log.Devices.{
  Value, str, debug, Fields, Spans, record_fields, or_else, scope_serial, event_serial,
  unwrap_or_default,
}

-- The fields have no text by the name of `serial`.
abbrev pub NoSerial : Fields → Type 0
NoSerial = All (λ (f : Bytes × Value). (v : Bytes) → f ≢ (codes "serial", str v))

-- The last such text.
abbrev pub LastSerial : Fields → Bytes → Type 0
LastSerial [] v = ⊥
LastSerial (f ∷ fs) v = LastSerial fs v ⊎ ((f ≡ (codes "serial", str v)) × NoSerial fs)

-- No serial was recorded for the span.
abbrev pub Unmarked : Spans → ℕ → Type 0
Unmarked spans id = (v : Bytes) → lookup id spans ≢ some (some v)

-- The serial of the first span that has one.
abbrev pub FirstSerial : Spans → List ℕ → Bytes → Type 0
FirstSerial spans [] v = ⊥
FirstSerial spans (id ∷ ids) v =
    (lookup id spans ≡ some (some v)) ⊎ (Unmarked spans id × FirstSerial spans ids v)

-- The serial of an event: its own, or that of the spans around it, or else the empty one.
pub data IsSerial (spans : Spans) (scope : List ℕ) (fields : Fields) (s : Bytes) : Type 0 where
  its_own : LastSerial fields s → IsSerial spans scope fields s
  of_span : NoSerial fields → FirstSerial spans scope s → IsSerial spans scope fields s
  of_none : NoSerial fields → All (Unmarked spans) scope → s ≡ [] → IsSerial spans scope fields s

record_fields-cases :
    (fs : Fields) (before : Option Bytes)
    → ((v : Bytes) × LastSerial fs v × (record_fields before fs ≡ some v))
      ⊎ (NoSerial fs × (record_fields before fs ≡ before))
unfolding record_fields
record_fields-cases [] before = inr (tt, refl)
record_fields-cases ((name, debug) ∷ fs) before = elim (record_fields-cases fs before) [
  | inl (v, last, is) ↦ inl (v, inl last, is)
  | inr (lacks, is) ↦ inr (((λ v e. cc), lacks), is)
]
record_fields-cases ((name, str value) ∷ fs) before = elim (Bool-cases (name == codes "serial")) [
  | inl e ↦
      let same : name ≡ codes "serial" = (==_iff name (codes "serial")).0 e in
      elim (record_fields-cases fs (some value)) [
        | inl (v, last, is) ↦ inl (v, inl last, rw e is)
        | inr (lacks, is) ↦ inl (value, inr (cc, lacks), rw e is)
      ]
  | inr e ↦ elim (record_fields-cases fs before) [
    | inl (v, last, is) ↦ inl (v, inl last, rw e is)
    | inr (lacks, is) ↦
        inr (((λ v same. cc (e, (==_iff name (codes "serial")).1 (cc))), lacks), rw e is)
  ]
]

-- Whether the spans have a serial.
abbrev ScopeCases : Spans → List ℕ → Option Bytes → Type 0
ScopeCases spans scope r =
    ((v : Bytes) × FirstSerial spans scope v × (r ≡ some v))
    ⊎ (All (Unmarked spans) scope × (r ≡ none))

Unmarked-ScopeCases :
    (spans : Spans) (id : ℕ) (ids : List ℕ) (r : Option Bytes)
    → Unmarked spans id
    → ScopeCases spans ids r
    → ScopeCases spans (id ∷ ids) r
Unmarked-ScopeCases spans id ids r un (inl (v, first, is)) = inl (v, inr (un, first), is)
Unmarked-ScopeCases spans id ids r un (inr (lacks, is)) = inr ((un, lacks), is)

span-ScopeCases :
    (spans : Spans) (id : ℕ) (ids : List ℕ) (r : Option Bytes) (o : Option (Option Bytes))
    → lookup id spans ≡ o
    → ScopeCases spans ids r
    → ScopeCases spans (id ∷ ids) (or_else o r)
unfolding or_else
span-ScopeCases spans id ids r none e h = Unmarked-ScopeCases spans id ids r (λ v is. cc) h
span-ScopeCases spans id ids r (some none) e h = Unmarked-ScopeCases spans id ids r (λ v is. cc) h
span-ScopeCases spans id ids r (some (some v)) e h = inl (v, inl e, refl)

scope_serial-cases :
    (spans : Spans) (scope : List ℕ) → ScopeCases spans scope (scope_serial spans scope)
unfolding scope_serial
scope_serial-cases spans [] = inr (tt, refl)
scope_serial-cases spans (id ∷ ids) =
    span-ScopeCases spans id ids (scope_serial spans ids) (lookup id spans) refl
      (scope_serial-cases spans ids)

-- The serial of an event, as the program finds it.
abbrev pub serial_of : Spans → List ℕ → Fields → Bytes
serial_of spans scope fields = unwrap_or_default (event_serial spans scope fields)

pub serial_of-IsSerial :
    (spans : Spans) (scope : List ℕ) (fields : Fields)
    → IsSerial spans scope fields (serial_of spans scope fields)
unfolding event_serial or_else
serial_of-IsSerial spans scope fields = elim (record_fields-cases fields none) [
  | inl (v, last, is) ↦ rw is (its_own last)
  | inr (lacks, is) ↦ elim (scope_serial-cases spans scope) [
    | inl (v, first, found) ↦ rw (is, found) (of_span lacks first)
    | inr (none_, found) ↦ rw (is, found) (of_none lacks none_ refl)
  ]
]
