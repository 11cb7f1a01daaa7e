-- ===== src/Daemon/SmartSocket/Listing/Lines.antt =====
-- How a client reads the short list of devices.
use adb_daemon_rs.Base.{
  ℕ, zero, suc, ◌≤◌, length, ◌≡◌, refl, ap, ◌∙◌, false, List, [], ◌∷◌, ◌++◌, append_assoc, Bytes,
  map, All, ◌==◌, ==_iff, nat_eq, if◌then◌else◌, Bool-cases, inl, inr, arith,
}
use adb_daemon_rs.Text.Laws.{Lacks}
use adb_daemon_rs.Transport.Banner.{DeviceType}
use adb_daemon_rs.Daemon.Manager.{Connection}
use adb_daemon_rs.Daemon.SmartSocket.Listing.{short_line, list_devices}

-- The bytes before the first `c`, and those behind it.
unfoldable pub until : ℕ → Bytes → Bytes × Bytes
until c [] = ([], [])
until c (b ∷ s) = let (front, rest) = until c s in if b == c then ([], s) else (b ∷ front, rest)

-- One line: the serial up to the tab, the type up to the newline, and the rest.
unfoldable pub read_line : Bytes → (Bytes × Bytes) × Bytes
unfolding until
read_line s =
    let (serial, rest) = until 0x09 s in
    let (type, rest') = until 0x0a rest in ((serial, type), rest')

-- At most as many lines as there is fuel for.
unfoldable pub read_lines : ℕ → Bytes → List (Bytes × Bytes)
unfolding read_line
read_lines fuel [] = []
read_lines zero (b ∷ s) = []
read_lines (suc fuel) (b ∷ s) = let (line, rest) = read_line (b ∷ s) in line ∷ read_lines fuel rest

-- What a line says of a connection.
abbrev pub entry : (DeviceType → Bytes) → Connection → Bytes × Bytes
entry show c = (c.serial, show c.banner.device_type)

until-append : (c : ℕ) (s rest : Bytes) → Lacks c s → until c (s ++ c ∷ rest) ≡ (s, rest)
unfolding until
until-append c [] rest h = ground (arith, ==_iff c c)
until-append c (b ∷ s) rest (ne, h) =
    let ih = until-append c s rest h in
    elim (Bool-cases (b == c)) [ inl e ↦ absurd (ne ((==_iff b c).0 e)) | inr e ↦ rw (ih, e) refl ]

read_lines-line :
    (fuel y : ℕ) (s t : Bytes) (r : (Bytes × Bytes) × Bytes)
    → s ≡ y ∷ t
    → read_line s ≡ r
    → read_lines (suc fuel) s ≡ r.0 ∷ read_lines fuel r.1
unfolding read_lines
read_lines-line fuel y [] t r e h = absurd (cc)
read_lines-line fuel y (b ∷ s) t r e h =
    ap (λ (p : (Bytes × Bytes) × Bytes). p.0 ∷ read_lines fuel p.1) h

module _ (show : DeviceType → Bytes) where
  read_line-short_line :
      (c : Connection) (rest : Bytes)
      → Lacks 0x09 c.serial
      → Lacks 0x0a (show c.banner.device_type)
      → read_line (short_line show c ++ rest) ≡ (entry show c, rest)
  unfolding read_line short_line
  read_line-short_line c rest h k =
      simp
        (
          append_assoc,
          until-append 0x09 c.serial (show c.banner.device_type ++ 0x0a ∷ rest) h,
          until-append 0x0a (show c.banner.device_type) rest k,
        )
        refl

  starts :
      (a : Bytes) (x : ℕ) (b rest : Bytes)
      → (y : ℕ) × (t : Bytes) × ((a ++ (x ∷ b)) ++ rest ≡ y ∷ t)
  starts [] x b rest = (x, b ++ rest, refl)
  starts (y ∷ a) x b rest = (y, (a ++ (x ∷ b)) ++ rest, refl)

  line_starts :
      (c : Connection) (rest : Bytes) → (y : ℕ) × (t : Bytes) × (short_line show c ++ rest ≡ y ∷ t)
  unfolding short_line
  line_starts c rest = starts c.serial 0x09 (show c.banner.device_type ++ 0x0a ∷ []) rest

  next_line :
      (c : Connection) (fuel : ℕ) (rest : Bytes)
      → Lacks 0x09 c.serial
      → Lacks 0x0a (show c.banner.device_type)
      → read_lines (suc fuel) (short_line show c ++ rest) ≡ entry show c ∷ read_lines fuel rest
  next_line c fuel rest h k =
      let (y, t, is) = line_starts c rest in
      read_lines-line fuel y (short_line show c ++ rest) t (entry show c, rest) is
        (read_line-short_line c rest h k)

  -- A client that reads the short list of devices line by line, each as a serial up to a tab and a type
  -- up to the end of the line, gets the serial and the type of every connection, in order, if no
  -- serial of these connections has a tab in it and none of their types an end of the line.
  pub read_lines-list_devices :
      (cs : List Connection) (fuel : ℕ)
      → length cs ≤ fuel
      → All (λ (c : Connection). Lacks 0x09 c.serial × Lacks 0x0a (show c.banner.device_type)) cs
      → read_lines fuel (list_devices show false cs) ≡ map (entry show) cs
  unfolding list_devices read_lines
  read_lines-list_devices [] fuel h k = refl
  read_lines-list_devices (c ∷ cs) zero h k = absurd (omega (arith, h))
  read_lines-list_devices (c ∷ cs) (suc fuel) h ((k, shown), ks) =
      next_line c fuel (list_devices show false cs) k shown
      ∙ ap (◌∷◌ (entry show c)) (read_lines-list_devices cs fuel (omega (arith, h)) ks)
