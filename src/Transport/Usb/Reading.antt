-- ===== src/Transport/Usb/Reading.antt =====
-- Reading: two rounds are enough, the transfers that are asked for, and what comes back.
use adb_daemon_rs.Base.{
  ℕ, ◌+◌, ◌-◌, ◌%◌, ◌≤◌, ◌<◌, ◌≡◌, ◌≢◌, refl, sym, ◌∙◌, ap, subst, ◌⊎◌, inl, inr, true, false,
  Bytes, List, [], ◌∷◌, ◌++◌, All, Option, none, some, Result, ok, err, Poll, pending, ready, Run,
  done, panicked, ltb, ◌==◌, nat_eq, arith, Bool-cases, ==_iff,
}
use native.Mathlib.Nat.{mod-add-mod, mod-lt, mod_self}
use adb_daemon_rs.Words.{IsByte}
use adb_daemon_rs.Transport.Error.{Error, TransferError}
use adb_daemon_rs.Transport.Message.{AdbMessage, AdbMessageHeader, IsHeader, read, to_vec}
use adb_daemon_rs.Transport.Message.Codec.{read_sound, read-to_vec}
use adb_daemon_rs.Transport.Endpoint.{Endpoint, Buffer, new_buffer}
use adb_daemon_rs.Transport.Usb.{
  Usb, Round, returns, again, next_multiple_of, header_round, finish, buffer_round,
  completion_round, read_round, read_loop, prepare, poll_read_message,
}

-- A buffer for `n` bytes is a whole number of packets, and not too small.
pub next_multiple_of_lem :
    (n m : ℕ) → 0 < m → (n ≤ next_multiple_of n m) × (next_multiple_of n m % m ≡ 0)
unfolding next_multiple_of
next_multiple_of_lem n m h = elim (Bool-cases (n % m == 0)) [
  | inl e ↦ rw e (omega arith, (==_iff (n % m) 0).0 e)
  | inr e ↦ rw e (omega arith, wraps)
]
  where
    wraps : (n + (m - n % m)) % m ≡ 0
    wraps =
        sym (mod-add-mod n m (m - n % m)) ∙ ap (λ k. k % m) (omega (arith, mod-lt n h)) ∙ mod_self m

-- The reads that are queued when a poll returns: none or a packet for the next header, or a buffer
-- for a payload and behind it the packet for the next header.
abbrev pub Waits : ℕ → Option AdbMessageHeader → List Buffer → Type 0
Waits packet_size none q = (b : Buffer) × (q ≡ b ∷ []) × (b.requested ≡ packet_size)
Waits packet_size (some h) q =
    (p : Buffer) × (b : Buffer) × (q ≡ p ∷ b ∷ [])
    × (h.data_length ≤ p.requested)
    × (p.requested % packet_size ≡ 0)
    × (b.requested ≡ packet_size)

abbrev pub Expects : ℕ → Option AdbMessageHeader → List Buffer → Type 0
Expects packet_size none q = (q ≡ []) ⊎ Waits packet_size none q
Expects packet_size (some h) q = Waits packet_size (some h) q

module _ (In Out : Endpoint) where
  open In use {queue, queue-submit, poll_waits, poll_completes, poll_keeps_length, poll_bytes}

  -- What a round leaves behind.
  abbrev RoundEnds : ℕ → Option AdbMessageHeader → Run (Round In Out) → Type 0
  RoundEnds n hdr panicked = ⊥
  RoundEnds n hdr (done (returns pending v)) =
      (v.packet_size ≡ n) × Waits n v.in_header (queue v.in_endpoint)
  RoundEnds n hdr (done (returns (ready (err e)) v)) = Unit
  RoundEnds n hdr (done (returns (ready (ok m)) v)) =
      (v.packet_size ≡ n) × (v.in_header ≡ none) × Expects n none (queue v.in_endpoint)
  RoundEnds n hdr (done (again v)) =
      (v.packet_size ≡ n)
      × (hdr ≡ none)
      × ((h : AdbMessageHeader) × (v.in_header ≡ some h) × Waits n (some h) (queue v.in_endpoint))

  header_round-ends :
      (u : Usb In Out) (c : Buffer) (r : Run (Result Error AdbMessageHeader))
      → 0 < u.packet_size
      → u.in_header ≡ none
      → queue u.in_endpoint ≡ []
      → c.requested ≡ u.packet_size
      → r ≢ panicked
      → RoundEnds u.packet_size none (header_round In Out u c r)
  unfolding header_round
  header_round-ends u c panicked pos hdr q size safe = absurd (safe refl)
  header_round-ends u c (done (err e)) pos hdr q size safe = tt
  header_round-ends u c (done (ok h)) pos hdr q size safe = elim (Bool-cases (h.data_length == 0)) [
    | inl e ↦
        let f : ltb 0 h.data_length ≡ false = ground arith in
        rw (e, f) (refl, hdr, inr (c, queue-submit _ c ∙ rw q, size))
    | inr e ↦
        let f : ltb 0 h.data_length ≡ true = ground arith in
        let payload = next_multiple_of h.data_length u.packet_size in
        let room = next_multiple_of_lem h.data_length u.packet_size pos in
        rw (e, f)
          (
            refl,
            refl,
            (h, refl, (new_buffer payload, c, simp queue-submit (rw q), room.0, room.1, size)),
          )
  ]

  read_safe : (c : Buffer) → All IsByte c.bytes → read c.bytes ≢ panicked
  read_safe c valid e = elim (read_sound c.bytes valid) [
    | inl (x, f) ↦ cc (e, f)
    | inr (h, f, _, _) ↦ cc (e, f)
  ]

  buffer_round-ends :
      (u : Usb In Out) (ep : In.State) (c : Buffer) (hdr : Option AdbMessageHeader)
      → 0 < u.packet_size
      → u.in_header ≡ hdr
      → Waits u.packet_size hdr (queue u.in_endpoint)
      → In.poll_next_complete u.in_endpoint ≡ (ready (ok c), ep)
      → RoundEnds u.packet_size hdr (buffer_round In Out (record u { in_endpoint = ep }) c hdr)
  unfolding buffer_round
  buffer_round-ends u ep c none pos hdr (b, q, size) e =
      let (b', q') = poll_completes u.in_endpoint ep (ok c) e in
      let emptied : queue ep ≡ [] = cc (q, q') in
      let whole : queue u.in_endpoint ≡ b ∷ queue ep = rw emptied q in
      header_round-ends (record u { in_endpoint = ep }) c (read c.bytes) pos hdr emptied
        (poll_keeps_length u.in_endpoint ep b c e whole ∙ size)
        (read_safe c (poll_bytes u.in_endpoint ep c e))
  buffer_round-ends u ep c (some h) pos hdr (p, b, q, fits, whole, size) e =
      let (b', q') = poll_completes u.in_endpoint ep (ok c) e in
      (refl, refl, inr (b, cc (q, q'), size))

  completion_round-ends :
      (u : Usb In Out) (p : Poll (Result TransferError Buffer) × In.State)
      → 0 < u.packet_size
      → Waits u.packet_size u.in_header (queue u.in_endpoint)
      → In.poll_next_complete u.in_endpoint ≡ p
      → RoundEnds u.packet_size u.in_header (completion_round In Out u p)
  unfolding completion_round
  completion_round-ends u (pending, ep) pos w e =
      (refl, subst (Waits u.packet_size u.in_header) (sym (poll_waits u.in_endpoint ep e)) w)
  completion_round-ends u (ready (err x), ep) pos w e = tt
  completion_round-ends u (ready (ok c), ep) pos w e =
      buffer_round-ends u ep c u.in_header pos refl w e

  read_round-ends :
      (u : Usb In Out) (n : ℕ) (hdr : Option AdbMessageHeader)
      → u.packet_size ≡ n
      → u.in_header ≡ hdr
      → 0 < n
      → Waits n hdr (queue u.in_endpoint)
      → RoundEnds n hdr (read_round In Out u)
  unfolding read_round
  read_round-ends u n hdr size phase pos w =
      let round = completion_round In Out u (In.poll_next_complete u.in_endpoint) in
      let q = queue u.in_endpoint in
      subst (λ k. RoundEnds k hdr round) size
        (subst (λ o. RoundEnds u.packet_size o round) phase
          (completion_round-ends u _ (subst (λ (k : ℕ). 0 < k) (sym size) pos)
            (subst (λ o. Waits u.packet_size o q) (sym phase)
              (subst (λ k. Waits k hdr q) (sym size) w))
            refl))

  -- What `poll_read_message` may return, and the reads that it leaves queued.
  abbrev pub ReadEnds : ℕ → Run (Poll (Result Error AdbMessage) × Usb In Out) → Type 0
  ReadEnds n panicked = ⊥
  ReadEnds n (done (pending, v)) = (v.packet_size ≡ n) × Waits n v.in_header (queue v.in_endpoint)
  ReadEnds n (done (ready (err e), v)) = Unit
  ReadEnds n (done (ready (ok m), v)) =
      (v.packet_size ≡ n) × (v.in_header ≡ none) × Expects n none (queue v.in_endpoint)

  read_last-ends :
      (fuel n : ℕ) (h : AdbMessageHeader) (r : Run (Round In Out))
      → RoundEnds n (some h) r
      → ReadEnds n (finish In Out (read_loop In Out fuel) r)
  unfolding finish
  read_last-ends fuel n h panicked w = w
  read_last-ends fuel n h (done (returns pending v)) w = w
  read_last-ends fuel n h (done (returns (ready (err e)) v)) w = tt
  read_last-ends fuel n h (done (returns (ready (ok m)) v)) w = w
  read_last-ends fuel n h (done (again v)) w = cc (w.1)

  read_next-ends :
      (n : ℕ) (hdr : Option AdbMessageHeader) (r : Run (Round In Out))
      → 0 < n
      → RoundEnds n hdr r
      → ReadEnds n (finish In Out (read_loop In Out 1) r)
  unfolding finish
  read_next-ends n hdr panicked pos w = w
  read_next-ends n hdr (done (returns pending v)) pos w = w
  read_next-ends n hdr (done (returns (ready (err e)) v)) pos w = tt
  read_next-ends n hdr (done (returns (ready (ok m)) v)) pos w = w
  read_next-ends n hdr (done (again v)) pos (size, fresh, (h, got, w)) =
      unfold read_loop in
      read_last-ends 0 n h (read_round In Out v) (read_round-ends v n (some h) size got pos w)

  prepare-Waits :
      (u : Usb In Out) (hdr : Option AdbMessageHeader)
      → Expects u.packet_size hdr (queue u.in_endpoint)
      → Waits u.packet_size hdr (queue (prepare In Out u).in_endpoint)
  unfolding prepare
  prepare-Waits u none (inl e) =
      rw e (new_buffer u.packet_size, queue-submit _ (new_buffer u.packet_size) ∙ rw e, refl)
  prepare-Waits u none (inr (b, q, size)) = rw q (b, q, size)
  prepare-Waits u (some h) (p, b, q, fits, whole, size) = rw q (p, b, q, fits, whole, size)

  pub poll_read_message-ReadEnds :
      (u : Usb In Out)
      → 0 < u.packet_size
      → Expects u.packet_size u.in_header (queue u.in_endpoint)
      → ReadEnds u.packet_size (poll_read_message In Out u)
  unfolding poll_read_message
  poll_read_message-ReadEnds u pos w =
      read_next-ends u.packet_size u.in_header (read_round In Out (prepare In Out u)) pos (
        read_round-ends (prepare In Out u) u.packet_size u.in_header refl refl pos
          (prepare-Waits u u.in_header w))

  header_first :
      (u : Usb In Out) (h : AdbMessageHeader) (c : Buffer) (rest : Bytes) (s : In.State)
      → IsHeader h
      → 0 < h.data_length
      → u.in_header ≡ none
      → In.queue u.in_endpoint ≡ []
      → In.poll_next_complete (In.submit u.in_endpoint (new_buffer u.packet_size))
        ≡ (ready (ok c), s)
      → c.bytes ≡ to_vec h ++ rest
      → read_round In Out (prepare In Out u)
        ≡ done (
            again (record u {
              in_endpoint =
                  In.submit
                    (In.submit s (new_buffer (next_multiple_of h.data_length u.packet_size)))
                    c;
              in_header = some h;
            }))
  unfolding read_round prepare header_round
  header_first u h c rest s valid pos phase idle first got =
      let e : (h.data_length == 0) ≡ false = ground arith in
      let f : ltb 0 h.data_length ≡ true = ground arith in
      rw (idle, first, phase, got, read-to_vec h rest valid, f, e)

  -- A message comes back as it was sent: if the two reads that a poll makes bring the bytes of a
  -- header, whatever follows them in the packet, and then a payload of the length in the header, the
  -- poll returns that message.
  pub poll_read_message-to_vec :
      (u : Usb In Out) (m : AdbMessage) (c p : Buffer) (rest : Bytes) (s t : In.State)
      → IsHeader m.header
      → 0 < m.header.data_length
      → u.in_header ≡ none
      → In.queue u.in_endpoint ≡ []
      → In.poll_next_complete (In.submit u.in_endpoint (new_buffer u.packet_size))
        ≡ (ready (ok c), s)
      → c.bytes ≡ to_vec m.header ++ rest
      → In.poll_next_complete (
          In.submit
            (In.submit s (new_buffer (next_multiple_of m.header.data_length u.packet_size)))
            c)
        ≡ (ready (ok p), t)
      → p.bytes ≡ m.payload
      → poll_read_message In Out u
        ≡ done (ready (ok m), record u { in_endpoint = t; in_header = none })
  unfolding poll_read_message
  poll_read_message-to_vec u m c p rest s t valid pos phase idle first got second came =
      rw (header_first u m.header c rest s valid pos phase idle first got, finish, second, came)
