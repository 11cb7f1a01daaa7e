-- ===== src/Transport/Socket/Writing.antt =====
-- What `poll_write` sends.
use adb_daemon_rs.Base.{
  ℕ, ◌-◌, ◌<◌, ◌≡◌, ◌≢◌, refl, ◌⊎◌, inl, inr, min, Bool, false, Bytes, length, take, Result, ok,
  err, Poll, pending, ready, Run, done, panicked, ltb, arith, if_cases, ltb→lt,
}
use adb_daemon_rs.Transport.Error.{Error}
use adb_daemon_rs.Transport.Message.{new_message, wrte}
use adb_daemon_rs.Transport.Connection.{Connection}
use adb_daemon_rs.Transport.Backend.{SocketBackend, Backend, max_payload, write_message, poll_flush}
use adb_daemon_rs.Transport.Backend.Closing.{poll_flush_ok, write_message_flushed}
use adb_daemon_rs.Transport.Socket.{
  io_error, Outcome, write_end, write_flushed, poll_write, is_blocked,
}
use adb_daemon_rs.Transport.Socket.Reading.{unless_failed_cases}

-- The most that one call may send.
abbrev pub allowed : SocketBackend → Bytes → ℕ
allowed s buf = min (min (length buf) s.state.acknowledged) max_payload

-- The socket when `n` more bytes are on their way.
abbrev pub spend : SocketBackend → ℕ → SocketBackend
spend s n = record s { state = record s.state { acknowledged = s.state.acknowledged - n } }

module _ (K : Connection) where
  -- A write that reports `n` bytes, or fails after it took them; or one that takes none.
  pub data Writes (s : SocketBackend) (buf : Bytes) (o : Outcome K ℕ) : Type 0 where
    sends :
        (t : Backend K) (r : Result Error (Unit {0}))
        → s.state.is_closed ≡ false
        → 0 < s.state.acknowledged
        → write_message K t
            (new_message wrte s.local_id s.state.remote_id (take (allowed s buf) buf))
          ≡ done (r, o.transport)
        → ((r ≡ ok tt) × (o.result ≡ ready (ok (allowed s buf))))
          ⊎ ((e : Error) × (r ≡ err e) × (o.result ≡ ready (err (io_error e))))
        → o.socket ≡ spend s (allowed s buf)
        → Writes s buf o
    refuses : ((n : ℕ) → o.result ≢ ready (ok n)) → o.socket ≡ s → Writes s buf o

  abbrev pub WriteRuns : SocketBackend → Bytes → Run (Outcome K ℕ) → Type 0
  WriteRuns s buf panicked = ⊥
  WriteRuns s buf (done o) = Writes s buf o

  write_end_runs :
      (t : Backend K) (s : SocketBackend) (buf : Bytes)
      (r : Run (Result Error (Unit {0}) × Backend K))
      → s.state.is_closed ≡ false
      → 0 < s.state.acknowledged
      → write_message K t (new_message wrte s.local_id s.state.remote_id (take (allowed s buf) buf))
        ≡ r
      → r ≢ panicked
      → WriteRuns s buf (write_end K (allowed s buf) (spend s (allowed s buf)) r)
  unfolding write_end
  write_end_runs t s buf panicked c a e safe = safe refl
  write_end_runs t s buf (done (err x, u)) c a e safe =
      sends t (err x) c a e (inr (x, refl, refl)) refl
  write_end_runs t s buf (done (ok _, u)) c a e safe = sends t (ok tt) c a e (inl (refl, refl)) refl

  unblocked :
      (s : SocketBackend) (tick : Bool) → is_blocked s tick ≡ false → 0 < s.state.acknowledged
  unblocked s tick h = ground arith

  blocked :
      (s : SocketBackend) (buf : Bytes) (t : Backend K)
      → Writes s buf (record { result = pending; transport = t; socket = s })
  blocked s buf t = refuses (λ n h. cc) refl

  write_flushed_runs :
      (t : Backend K) (s : SocketBackend) (buf : Bytes) (tick : Bool) (waker : ℕ)
      (p : Poll (Result Error (Unit {0})) × Backend K)
      → s.state.is_closed ≡ false
      → poll_flush K t waker ≡ p
      → WriteRuns s buf (write_flushed K s buf tick p)
  unfolding write_flushed
  write_flushed_runs t s buf tick waker (pending, u) c e = refuses (λ n h. cc) refl
  write_flushed_runs t s buf tick waker (ready (err x), u) c e = refuses (λ n h. cc) refl
  write_flushed_runs t s buf tick waker (ready (ok _), u) c e =
      if_cases (WriteRuns s buf) (is_blocked s tick) _ _ (λ z. blocked s buf u)
        (λ z.
          if_cases (WriteRuns s buf) (ltb s.state.acknowledged (allowed s buf)) _ _
            (λ l. absurd (omega (arith, ltb→lt s.state.acknowledged (allowed s buf) l)))
            (λ l.
              let (v, at, sent) = poll_flush_ok K t u waker e in
              write_end_runs u s buf _ c (unblocked s tick z) refl
                (λ stuck. write_message_flushed K t v _ sent (rw at at stuck))))

  pub poll_write_runs :
      (t : Backend K) (s : SocketBackend) (buf : Bytes) (tick : Bool) (waker : ℕ)
      → WriteRuns s buf (poll_write K t s buf tick waker)
  unfolding poll_write
  poll_write_runs t s buf tick waker =
      unless_failed_cases (WriteRuns s buf) t.error _ _ (λ x. refuses (λ n h. cc) refl)
        (if_cases (WriteRuns s buf) s.state.is_closed _ _ (λ c. refuses (λ n h. cc) refl)
          (λ c. write_flushed_runs t s buf tick waker (poll_flush K t waker) c refl))
