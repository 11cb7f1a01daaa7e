-- ===== src/Transport/Socket/Race.antt =====
-- The gap in `poll_shutdown`: the connection that it flushed is not the one that it writes to.
use adb_daemon_rs.Base.{ℕ, ◌≡◌, ◌≢◌, ap, ◌∙◌, inl, inr, [], false, none, some, ok, ready, panicked}
use adb_daemon_rs.Transport.Message.{AdbMessage}
use adb_daemon_rs.Transport.Endpoint.{Endpoint}
use adb_daemon_rs.Transport.Usb.{Usb, write_message}
use adb_daemon_rs.Transport.Usb.Writing.{usb_connection, write_message_lem}
use adb_daemon_rs.Transport.Backend.{SocketBackend, Backend, ConnectionWrapper}
use adb_daemon_rs.Transport.Socket.{poll_shutdown, poll_flush_socket, shutdown_flushed}
use adb_daemon_rs.Transport.Socket.Closing.{poll_close_panics}

module _ (In Out : Endpoint) where
  usb_write_panics :
      (c : Usb In Out) (m : AdbMessage)
      → Out.queue c.out_endpoint ≢ []
      → write_message In Out c m ≡ panicked
  usb_write_panics c m h = elim (write_message_lem In Out c m) [
    | inl (e, _, _, _, _) ↦ absurd (h e)
    | inr (_, e) ↦ e
  ]

  -- Over USB `poll_shutdown` panics if its flush succeeds and then, before it locks the connection
  -- again, another task queues a transfer, on a transport that still has no error and for a socket
  -- that is still open: the write of the `CLSE` meets the assertion that the connection is flushed.
  pub poll_shutdown_race :
      (t t' : Backend (usb_connection In Out)) (s s' : SocketBackend)
      (v : ConnectionWrapper (Usb In Out)) (waker : ℕ)
      → (poll_flush_socket (usb_connection In Out) t s waker).result ≡ ready (ok tt)
      → t'.error ≡ none
      → t'.connection ≡ some v
      → Out.queue v.inner.out_endpoint ≢ []
      → s'.state.is_closed ≡ false
      → poll_shutdown (usb_connection In Out) (λ _ _. (t', s')) t s waker ≡ panicked
  unfolding poll_shutdown
  poll_shutdown_race t t' s s' v waker flushed e at busy c =
      let K = usb_connection In Out in
      ap (λ r. shutdown_flushed K (λ _ _. (t', s')) waker r (poll_flush_socket K t s waker)) flushed
      ∙ unfold shutdown_flushed in
        poll_close_panics K t' v s' waker e at c (λ m. usb_write_panics v.inner m busy)
