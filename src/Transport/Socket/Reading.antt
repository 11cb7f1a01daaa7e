-- ===== src/Transport/Socket/Reading.antt =====
-- What `poll_read` hands out, and what stays buffered.
use adb_daemon_rs.Base.{
  ℕ, zero, suc, ◌-◌, ◌≤◌, ◌<◌, ◌≡◌, ◌≢◌, refl, ap, sym, ◌∙◌, min, List, [], ◌∷◌, ◌++◌, append_assoc,
  true, Bytes, length, length-append, take, drop, take-append-drop, length-take, take_all, Option,
  none, some, Result, ok, err, Poll, pending, ready, Run, done, panicked, ltb, arith, ◌==◌, nat_eq,
  Bool-cases, if_cases, inl, inr, ◌⊎◌,
}
use adb_daemon_rs.Transport.Error.{Error, of_kind, transport_error}
use adb_daemon_rs.Transport.Connection.{Connection}
use adb_daemon_rs.Transport.Backend.{SocketBackend, Backend, poll_flush}
use adb_daemon_rs.Transport.Backend.Closing.{poll_flush_ok, write_message_flushed}
use adb_daemon_rs.Transport.Socket.{
  IoError, io_error, unless_failed, fill, Outcome, read_ack, read_flushed, poll_read,
}

-- The bytes that a read buffer holds.
abbrev pub buffered : List Bytes → Bytes
buffered [] = []
buffered (b ∷ bs) = b ++ buffered bs

fill_split :
    (room : ℕ) (queue : List Bytes)
    → (fill room queue).0 ++ buffered (fill room queue).1 ≡ buffered queue
unfolding fill
fill_split room [] = refl
fill_split zero (front ∷ queue) = refl
fill_split (suc room) (front ∷ queue) = elim (Bool-cases (ltb (suc room) (length front))) [
  | inl e ↦ rw e (
      sym (append_assoc (take (suc room) front) (drop (suc room) front) (buffered queue))
      ∙ ap (λ x. x ++ buffered queue) (take-append-drop (suc room) front))
  | inr e ↦
      rw (e, take_all {0} (suc room) front (ground arith), append_assoc)
        (ap (◌++◌ front) (fill_split (suc room - length front) queue))
]

length-fill :
    (room : ℕ) (queue : List Bytes)
    → length (fill room queue).0 ≡ min room (length (buffered queue))
unfolding fill
length-fill room [] = omega arith
length-fill zero (front ∷ queue) = omega arith
length-fill (suc room) (front ∷ queue) = elim (Bool-cases (ltb (suc room) (length front))) [
  | inl e ↦
      rw e (ground (arith, length-take (suc room) front, length-append front (buffered queue)))
  | inr e ↦ rw e (
      ground (
        arith,
        length-append (take (suc room) front) (fill (suc room - length front) queue).0,
        length-append front (buffered queue),
        length-take (suc room) front,
        length-fill (suc room - length front) queue,
      ))
]

pub unless_failed_cases {ℓ} :
    {A : Type 0} (P : A → Type ℓ) (o : Option Error) (fail : Error → A) (go : A)
    → ((e : Error) → P (fail e))
    → P go
    → P (unless_failed o fail go)
unless_failed_cases P none fail go h k = k
unless_failed_cases P (some e) fail go h k = h (of_kind (transport_error e))

module _ (K : Connection) where
  -- What a read does to the socket, with the bytes that it hands out.
  pub record Reads (s : SocketBackend) (room : ℕ) (bytes : Bytes) (o : Outcome K (Unit {0}))
      : Type 0 where
    pub stream : bytes ++ buffered o.socket.state.read_buffer ≡ buffered s.state.read_buffer
    pub fits : length bytes ≤ room
    pub others :
        o.socket ≡ record s { state = record s.state { read_buffer = o.socket.state.read_buffer } }
    pub progress :
        o.result ≡ ready (ok tt)
        → (length bytes ≡ min room (length (buffered s.state.read_buffer)))
          × ((s.state.is_closed ≡ true) ⊎ (0 < length bytes))

  abbrev pub ReadRuns : SocketBackend → ℕ → Run (Bytes × Outcome K (Unit {0})) → Type 0
  ReadRuns s room panicked = ⊥
  ReadRuns s room (done (bytes, o)) = Reads s room bytes o

  idle_read :
      (s : SocketBackend) (room : ℕ) (t : Backend K) (p : Poll (Result IoError (Unit {0})))
      → p ≢ ready (ok tt)
      → Reads s room [] (record { result = p; transport = t; socket = s })
  idle_read s room t p h = record {
    stream = refl;
    fits = omega arith;
    others = refl;
    progress = λ e. absurd (h e);
  }

  -- The socket behind a read, and the bytes that were read.
  filled :
      (s : SocketBackend) (room : ℕ) (t : Backend K) (p : Poll (Result IoError (Unit {0})))
      → (p ≡ ready (ok tt)
          → (s.state.is_closed ≡ true) ⊎ (0 < length (fill room s.state.read_buffer).0))
      → Reads s room (fill room s.state.read_buffer).0 (record {
        result = p;
        transport = t;
        socket = record s {
          state = record s.state { read_buffer = (fill room s.state.read_buffer).1 };
        };
      })
  filled s room t p h = record {
    stream = fill_split room s.state.read_buffer;
    fits = omega (arith, length-fill room s.state.read_buffer);
    others = refl;
    progress = λ e. (length-fill room s.state.read_buffer, h e);
  }

  read_ack_runs :
      (s : SocketBackend) (room : ℕ) (r : Run (Result Error (Unit {0}) × Backend K))
      → r ≢ panicked
      → 0 < length (fill room s.state.read_buffer).0
      → ReadRuns s room (
          read_ack K
            (fill room s.state.read_buffer).0
            (record s {
              state = record s.state { read_buffer = (fill room s.state.read_buffer).1 };
            })
            r)
  unfolding read_ack
  read_ack_runs s room panicked safe h = safe refl
  read_ack_runs s room (done (r, t)) safe h = filled s room t _ (λ e. inr h)

  read_flushed_runs :
      (t : Backend K) (s : SocketBackend) (room waker : ℕ)
      (p : Poll (Result Error (Unit {0})) × Backend K)
      → poll_flush K t waker ≡ p
      → ReadRuns s room (read_flushed K s room p)
  unfolding read_flushed
  read_flushed_runs t s room waker (pending, u) e = idle_read s room u pending (λ h. cc)
  read_flushed_runs t s room waker (ready (err x), u) e =
      idle_read s room u (ready (err (io_error x))) (λ h. cc)
  read_flushed_runs t s room waker (ready (ok _), u) e =
      if_cases (ReadRuns s room) s.state.is_closed _ _ (λ c. filled s room u _ (λ _. inl c))
        (λ c.
          if_cases (ReadRuns s room) (length (fill room s.state.read_buffer).0 == 0) _ _
            (λ z. filled s room u pending (λ h. cc))
            (λ z.
              let (v, at, sent) = poll_flush_ok K t u waker e in
              read_ack_runs s room _ (λ stuck. write_message_flushed K t v _ sent (rw at at stuck))
                (ground arith)))

  pub poll_read_runs :
      (t : Backend K) (s : SocketBackend) (room waker : ℕ)
      → ReadRuns s room (poll_read K t s room waker)
  unfolding poll_read
  poll_read_runs t s room waker =
      unless_failed_cases (ReadRuns s room) t.error _ _
        (λ x. idle_read s room t (ready (err (io_error x))) (λ h. cc))
        (read_flushed_runs t s room waker (poll_flush K t waker) refl)

  returned :
      (s : SocketBackend) (room : ℕ) (r : Run (Bytes × Outcome K (Unit {0})))
      → ReadRuns s room r
      → (bytes : Bytes) × (o : Outcome K (Unit {0})) × (r ≡ done (bytes, o)) × Reads s room bytes o
  returned s room panicked h = absurd h
  returned s room (done (bytes, o)) h = (bytes, o, refl, h)

  -- A read never panics. Whatever it returns, the bytes that it hands out followed by those that stay
  -- buffered are the bytes that were buffered before, it hands out no more than there is room for, and
  -- nothing but the buffer of the socket changes. If it succeeds it hands out as much as there is and
  -- fits, and on an open socket at least one byte.
  pub poll_read_lem :
      (t : Backend K) (s : SocketBackend) (room waker : ℕ)
      → (bytes : Bytes) × (o : Outcome K (Unit {0})) × (poll_read K t s room waker
          ≡ done (bytes, o))
        × Reads s room bytes o
  poll_read_lem t s room waker = returned s room _ (poll_read_runs t s room waker)
