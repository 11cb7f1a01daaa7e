-- ===== src/Transport/Socket/Closing.antt =====
-- The end of `poll_shutdown`: what it does to the socket, and the race in front of it.
use adb_daemon_rs.Base.{
  ℕ, ◌≡◌, ◌≢◌, refl, ap, ◌∙◌, ◌⊎◌, inl, inr, [], true, false, Option, none, some, Result, ok, err,
  Poll, pending, ready, Run, done, panicked, if_cases, subst,
}
use adb_daemon_rs.Transport.Error.{Error}
use adb_daemon_rs.Transport.Message.{AdbMessage, new_message, clse}
use adb_daemon_rs.Transport.Connection.{Connection}
use adb_daemon_rs.Transport.Backend.{
  SocketBackend, Backend, ConnectionWrapper, write_message, poll_flush,
}
use adb_daemon_rs.Transport.Backend.Closing.{
  poll_flush_ok, write_message_flushed, write_message_panics,
}
use adb_daemon_rs.Transport.Socket.{
  IoError, Outcome, shutdown, close_message, close_written, close_flushed, poll_close,
  poll_shutdown, shutdown_flushed, poll_flush_socket, flush_end,
}
use adb_daemon_rs.Transport.Socket.Reading.{unless_failed_cases}

-- The socket when it is closed from this side.
abbrev pub close_socket : SocketBackend → SocketBackend
close_socket s = record s { state = record s.state { is_closed = true } }

module _ (K : Connection) where
  abbrev ClosesTo : SocketBackend → Run (Outcome K (Unit {0})) → Type 0
  ClosesTo s panicked = Unit
  ClosesTo s (done o) = o.socket ≡ s

  close_written_socket :
      (s : SocketBackend) (waker : ℕ) (r : Run (Result Error (Unit {0}) × Backend K))
      → ClosesTo s (close_written K s waker r)
  unfolding close_written
  close_written_socket s waker panicked = tt
  close_written_socket s waker (done (err e, t)) = refl
  close_written_socket s waker (done (ok _, t)) = close_flushed_socket (poll_flush K t waker)
    where
      close_flushed_socket :
          (p : Poll (Result Error (Unit {0})) × Backend K) → (close_flushed K s p).socket ≡ s
      close_flushed_socket (pending, u) = refl
      close_flushed_socket (ready r, u) = refl

  close_message_socket :
      (t : Backend K) (waker : ℕ) (p : Option AdbMessage × SocketBackend)
      → ClosesTo p.1 (close_message K t waker p)
  unfolding close_message
  close_message_socket t waker (none, s) = refl
  close_message_socket t waker (some m, s) = close_written_socket s waker (write_message K t m)

  shutdown_socket :
      (t : Backend K) (s : SocketBackend)
      → ((shutdown K t s).1 ≡ s) ⊎ ((shutdown K t s).1 ≡ close_socket s)
  unfolding shutdown
  shutdown_socket t s =
      let P = λ (p : Option AdbMessage × SocketBackend). (p.1 ≡ s) ⊎ (p.1 ≡ close_socket s) in
      unless_failed_cases P t.error _ _ (λ e. inl refl)
        (if_cases P s.state.is_closed _ _ (λ c. inl refl) (λ c. inr refl))

  -- What `poll_close` leaves is what `shutdown` leaves.
  pub poll_close-shutdown :
      (t : Backend K) (s : SocketBackend) (waker : ℕ) (o : Outcome K (Unit {0}))
      → poll_close K t s waker ≡ done o
      → o.socket ≡ (shutdown K t s).1
  unfolding poll_close
  poll_close-shutdown t s waker o e =
      subst (ClosesTo (shutdown K t s).1) e (close_message_socket t waker (shutdown K t s))

  pub poll_close_socket :
      (t : Backend K) (s : SocketBackend) (waker : ℕ) (o : Outcome K (Unit {0}))
      → poll_close K t s waker ≡ done o
      → (o.socket ≡ s) ⊎ (o.socket ≡ close_socket s)
  poll_close_socket t s waker o e =
      let same = poll_close-shutdown t s waker o e in
      elim (shutdown_socket t s) [ inl h ↦ inl (same ∙ h) | inr h ↦ inr (same ∙ h) ]

  -- On a connection that is flushed the closing message does not panic.
  close_written_returns :
      (s : SocketBackend) (waker : ℕ) (r : Run (Result Error (Unit {0}) × Backend K))
      → r ≢ panicked
      → close_written K s waker r ≢ panicked
  unfolding close_written
  close_written_returns s waker panicked safe e = safe refl
  close_written_returns s waker (done (err x, t)) safe e = cc
  close_written_returns s waker (done (ok _, t)) safe e = cc

  close_message_returns :
      (t : Backend K) (v : ConnectionWrapper K.State) (waker : ℕ)
      (p : Option AdbMessage × SocketBackend)
      → K.unsent v.inner ≡ 0
      → close_message K (record t { connection = some v }) waker p ≢ panicked
  unfolding close_message
  close_message_returns t v waker (none, s) sent e = cc
  close_message_returns t v waker (some m, s) sent e =
      close_written_returns s waker _ (write_message_flushed K t v m sent) e

  flush_end_ok :
      (t : Backend K) (s : SocketBackend) (waker : ℕ)
      (p : Poll (Result Error (Unit {0})) × Backend K)
      → poll_flush K t waker ≡ p
      → (flush_end K s p).result ≡ ready (ok tt)
      → (v : ConnectionWrapper K.State) × ((flush_end K s p).transport
          ≡ record t { connection = some v })
        × (K.unsent v.inner ≡ 0)
  unfolding flush_end
  flush_end_ok t s waker (pending, u) e h = cc
  flush_end_ok t s waker (ready (err x), u) e h = cc
  flush_end_ok t s waker (ready (ok _), u) e h = poll_flush_ok K t u waker e

  abbrev HasFlushed : Outcome K (Unit {0}) → Type 0
  HasFlushed o =
      o.result ≡ ready (ok tt)
      → (u : Backend K) × (v : ConnectionWrapper K.State) × (o.transport
          ≡ record u { connection = some v })
        × (K.unsent v.inner ≡ 0)

  shutdown_returns :
      (waker : ℕ) (r : Poll (Result IoError (Unit {0}))) (o : Outcome K (Unit {0}))
      → o.result ≡ r
      → HasFlushed o
      → shutdown_flushed K (λ u s. (u, s)) waker r o ≢ panicked
  unfolding shutdown_flushed
  shutdown_returns waker pending o h flushed e = cc
  shutdown_returns waker (ready (err x)) o h flushed e = cc
  shutdown_returns waker (ready (ok _)) o h flushed e =
      let (u, v, at, sent) = flushed h in
      let P = λ (x : Backend K). close_message K x waker (shutdown K x o.socket) ≡ panicked in
      close_message_returns u v waker _ sent (subst P at e)

  flushed_socket :
      (t : Backend K) (s : SocketBackend) (waker : ℕ) → HasFlushed (poll_flush_socket K t s waker)
  unfolding poll_flush_socket
  flushed_socket t s waker =
      unless_failed_cases HasFlushed t.error _ _ (λ e h. cc)
        (λ h.
          let (v, at, sent) = flush_end_ok t s waker (poll_flush K t waker) refl h in
          (t, v, at, sent))

  -- If no other task comes in between its two parts, `poll_shutdown` never panics.
  pub poll_shutdown_returns :
      (t : Backend K) (s : SocketBackend) (waker : ℕ)
      → poll_shutdown K (λ u r. (u, r)) t s waker ≢ panicked
  unfolding poll_shutdown
  poll_shutdown_returns t s waker =
      shutdown_returns waker _ (poll_flush_socket K t s waker) refl (flushed_socket t s waker)

  open_shutdown :
      (t : Backend K) (s : SocketBackend)
      → t.error ≡ none
      → s.state.is_closed ≡ false
      → (m : AdbMessage) × (shutdown K t s ≡ (some m, close_socket s))
  unfolding shutdown
  open_shutdown t s e c = (new_message clse s.local_id s.state.remote_id [], simp (e, c))

  -- On an open socket of an open transport the second part panics if the connection would.
  pub poll_close_panics :
      (t : Backend K) (v : ConnectionWrapper K.State) (s : SocketBackend) (waker : ℕ)
      → t.error ≡ none
      → t.connection ≡ some v
      → s.state.is_closed ≡ false
      → ((m : AdbMessage) → K.write_message v.inner m ≡ panicked)
      → poll_close K t s waker ≡ panicked
  unfolding poll_close
  poll_close_panics t v s waker e at c stuck =
      let (m, h) = open_shutdown t s e c in
      ap (close_message K t waker) h
      ∙ ap (close_written K (close_socket s) waker) (write_message_panics K t v m at (stuck m))
