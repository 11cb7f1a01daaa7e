-- ===== src/Transport/Router/Keeping.antt =====
-- What the reader leaves alone when it handles a message.
use adb_daemon_rs.Base.{
  ℕ, ◌≡◌, refl, Option, none, some, Result, ok, err, Run, done, panicked, get_elem?, if_cases,
  nat_eq, ◌⊎◌, inl, inr,
}
use adb_daemon_rs.Base.Map.{lookup}
use adb_daemon_rs.Text.Utf8.{is_utf8}
use adb_daemon_rs.Transport.Error.{Error}
use adb_daemon_rs.Transport.Message.{AdbMessage, AdbCommand, open_, okay, wrte, clse}
use adb_daemon_rs.Transport.Backend.{SocketBackend, TransportBackend}
use adb_daemon_rs.Transport.Socket.{Handled, handle_message}
use adb_daemon_rs.Transport.Router.Routing.{ForSocket}
use adb_daemon_rs.Transport.Router.{
  Next, finishes, offers, PendingSocket, pop_zero, open_next, after_handling, handled_at, to_place,
  to_socket, by_command, route,
}

-- The ids, the connection and the error stay.
abbrev pub SameEnds : {C : Type 0} → TransportBackend C → TransportBackend C → Type 0
SameEnds t u = (u.last_id ≡ t.last_id) × (u.connection ≡ t.connection) × (u.error ≡ t.error)

abbrev pub RouteKeeps : {C : Type 0} → TransportBackend C → Run (Next × TransportBackend C) → Type 0
RouteKeeps t panicked = Unit
RouteKeeps t (done (n, u)) = SameEnds t u

module _ {C : Type 0} where
  handled_at_keeps :
      (t : TransportBackend C) (id place : ℕ) (r : Run (Result Error Handled))
      → RouteKeeps t (handled_at t id place r)
  unfolding handled_at after_handling
  handled_at_keeps t id place panicked = tt
  handled_at_keeps t id place (done (err e)) = (refl, refl, refl)
  handled_at_keeps t id place (done (ok h)) =
      if_cases (SameEnds t) h.is_closed _ _ (λ c. (refl, refl, refl)) (λ c. (refl, refl, refl))

  to_socket_keeps :
      (t : TransportBackend C) (id : ℕ) (m : AdbMessage) (o : Option ℕ)
      → RouteKeeps t (to_socket t id m o)
  unfolding to_socket
  to_socket_keeps t id m none = (refl, refl, refl)
  to_socket_keeps t id m (some place) = to_place_keeps (get_elem? t.heap place)
    where
      to_place_keeps : (o : Option SocketBackend) → RouteKeeps t (to_place t id m place o)
      to_place_keeps none = tt
      to_place_keeps (some s) = handled_at_keeps t id place (handle_message s m)

  by_command_keeps :
      (t : TransportBackend C) (m : AdbMessage) (c : AdbCommand) → RouteKeeps t (by_command c t m)
  unfolding by_command
  by_command_keeps t m okay = to_socket_keeps t m.header.arg1 m (lookup m.header.arg1 t.sockets)
  by_command_keeps t m wrte = to_socket_keeps t m.header.arg1 m (lookup m.header.arg1 t.sockets)
  by_command_keeps t m clse = to_socket_keeps t m.header.arg1 m (lookup m.header.arg1 t.sockets)
  by_command_keeps t m _ = (refl, refl, refl)

  pub route_keeps : (t : TransportBackend C) (m : AdbMessage) → RouteKeeps t (route t m)
  unfolding route
  route_keeps t m = by_command_keeps t m m.header.command

-- What may come of a message that is not for a socket; the transport stays as it is.
pub data OtherRuns {C : Type 0} (t : TransportBackend C) (r : Run (Next × TransportBackend C))
    : Type 0 where
  ignored : r ≡ done (finishes (ok tt), t) → OtherRuns t r
  offered : (p : PendingSocket) → r ≡ done (offers p, t) → OtherRuns t r
  refused : (e : Error) → r ≡ done (finishes (err e), t) → OtherRuns t r

-- The command of a message, as one for a socket or another one.
pub route_others :
    {C : Type 0} (t : TransportBackend C) (m : AdbMessage)
    → ForSocket m.header.command ⊎ ((ForSocket m.header.command → ⊥) × OtherRuns t (route t m))
unfolding route by_command open_next
route_others t m = by_command_others t m m.header.command
  where
    by_command_others :
        {C : Type 0} (t : TransportBackend C) (m : AdbMessage) (c : AdbCommand)
        → ForSocket c ⊎ ((ForSocket c → ⊥) × OtherRuns t (by_command c t m))
    by_command_others t m okay = inl tt
    by_command_others t m wrte = inl tt
    by_command_others t m clse = inl tt
    by_command_others t m open_ = inr (
      (λ f. f),
      if_cases (λ n. OtherRuns t (done (n, t))) (is_utf8 (pop_zero m.payload)) _ _
          (λ h. offered _ refl) (λ h. refused _ refl),
    )
    by_command_others t m _ = inr ((λ f. f), ignored refl)
