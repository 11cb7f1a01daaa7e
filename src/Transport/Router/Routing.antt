-- ===== src/Transport/Router/Routing.antt =====
-- Messages reach the socket that they name, and no other.
use adb_daemon_rs.Base.{
  ℕ, zero, suc, ◌&&◌, Bool-cases, ◌<◌, ◌≡◌, ◌≢◌, refl, ap, sym, ◌∙◌, subst, ◌⊎◌, inl, inr, List, [],
  ◌∷◌, ◌++◌, length, get_elem?, set, get_elem?-set_self, get_elem?-set_ne, Option, none, some,
  Result, ok, err, Run, done, panicked, arith, ◌==◌, ==_iff, nat_eq, if◌then◌else◌, if_cases,
}
use adb_daemon_rs.Base.Map.{Map, lookup, lookup-remove}
use adb_daemon_rs.Transport.Error.{Error}
use adb_daemon_rs.Transport.Message.{AdbMessage, AdbCommand, okay, wrte, clse}
use adb_daemon_rs.Transport.Backend.{SocketBackend, TransportBackend, remove_socket}
use adb_daemon_rs.Transport.Socket.{Handled, handle_message}
use adb_daemon_rs.Transport.Socket.Delivery.{HandleRuns, handle_message_delivers}
use adb_daemon_rs.Transport.Router.{
  Next, finishes, offers, handled_at, to_place, to_socket, by_command, route,
}

-- Every id in the map leads to a socket with that id.
pub record IsLinked (sockets : Map ℕ ℕ) (heap : List SocketBackend) : Type 0 where
  pub target :
      (id place : ℕ)
      → lookup id sockets ≡ some place
      → (s : SocketBackend) × (get_elem? heap place ≡ some s) × (s.local_id ≡ id)

pub get_elem?-lt :
    {A : Type 0} (xs : List A) (i : ℕ) (a : A) → get_elem? xs i ≡ some a → i < length xs
get_elem?-lt [] i a h = cc
get_elem?-lt (x ∷ xs) zero a h = omega arith
get_elem?-lt (x ∷ xs) (suc i) a h = omega (arith, get_elem?-lt xs i a h)

-- The sockets and the map behind a message that the socket `s` at `place` handled as `h`.
pub record Routed {C : Type 0} (t : TransportBackend C) (id place : ℕ) (h : Handled)
    (u : TransportBackend C) : Type 0 where
  pub hit : get_elem? u.heap place ≡ some h.socket
  pub others : (q : ℕ) → place ≢ q → get_elem? u.heap q ≡ get_elem? t.heap q
  pub map :
      (j : ℕ)
      → lookup j u.sockets
        ≡ (if h.socket.state.is_closed && (id == j) then none else lookup j t.sockets)

-- The commands that are meant for a socket.
abbrev pub ForSocket : AdbCommand → Type 0
ForSocket okay = Unit
ForSocket wrte = Unit
ForSocket clse = Unit
ForSocket _ = ⊥

handling_safe :
    (s : SocketBackend) (m : AdbMessage) (c : AdbCommand) (r : Run (Result Error Handled))
    → m.header.command ≡ c
    → ForSocket c
    → HandleRuns s m r
    → r ≢ panicked
handling_safe s m okay r e f d x =
    let none_of : HandleRuns s m panicked = subst (HandleRuns s m) x d in none_of.0 e
handling_safe s m wrte r e f d x =
    let none_of : HandleRuns s m panicked = subst (HandleRuns s m) x d in none_of.1 e
handling_safe s m clse r e f d x =
    let none_of : HandleRuns s m panicked = subst (HandleRuns s m) x d in none_of.2 e
handling_safe s m _ r e f d x = absurd f

module _ {C : Type 0} where
  abbrev after : TransportBackend C → ℕ → ℕ → Handled → TransportBackend C
  after t id place h =
      let t' = record t { heap = set t.heap place h.socket; notices = t.notices ++ h.notices } in
      if h.is_closed then remove_socket id t' else t'

  after-Routed :
      (t : TransportBackend C) (id place : ℕ) (s : SocketBackend) (h : Handled)
      → get_elem? t.heap place ≡ some s
      → h.is_closed ≡ h.socket.state.is_closed
      → Routed t id place h (after t id place h)
  after-Routed t id place s h at ends =
      if_cases (Routed t id place h) h.is_closed _ _
        (λ c. record {
          hit = get_elem?-set_self t.heap place h.socket (get_elem?-lt t.heap place s at);
          others = λ q ne. get_elem?-set_ne t.heap h.socket ne;
          map = λ j. ground (arith, lookup-remove id j t.sockets);
        })
        (λ c. record {
          hit = get_elem?-set_self t.heap place h.socket (get_elem?-lt t.heap place s at);
          others = λ q ne. get_elem?-set_ne t.heap h.socket ne;
          map = λ j. ground arith;
        })

  Routed-IsLinked :
      (t u : TransportBackend C) (id place : ℕ) (s : SocketBackend) (h : Handled)
      → IsLinked t.sockets t.heap
      → get_elem? t.heap place ≡ some s
      → s.local_id ≡ id
      → h.socket.local_id ≡ s.local_id
      → Routed t id place h u
      → IsLinked u.sockets u.heap
  Routed-IsLinked t u id place s h linked at named same r = record {
    target = λ j q found.
        let before : lookup j t.sockets ≡ some q = ground (arith, r.map j) in
        let (s', at', named') = linked.target j q before in
        elim (Bool-cases (place == q)) [
          | inl e ↦
              let eq = (==_iff place q).0 e in
              let one : some s ≡ some s' = sym at ∙ ap (get_elem? t.heap) eq ∙ at' in
              (h.socket, sym (ap (get_elem? u.heap) eq) ∙ r.hit, same ∙ ap local_id_of one ∙ named')
          | inr e ↦ (s', r.others q (λ x. cc (e, (==_iff place q).1 x)) ∙ at', named')
        ];
  }
    where
      local_id_of : Option SocketBackend → ℕ
      local_id_of none = 0
      local_id_of (some b) = b.local_id

  -- What may come of a message for a socket.
  abbrev pub RouteEnds : TransportBackend C → AdbMessage → Run (Next × TransportBackend C) → Type 0
  RouteEnds t m panicked = ⊥
  RouteEnds t m (done (offers p, u)) = ⊥
  RouteEnds t m (done (finishes (err e), u)) = (m.header.command ≡ okay) × (u ≡ t)
  RouteEnds t m (done (finishes (ok _), u)) =
      IsLinked u.sockets u.heap
      × (((lookup m.header.arg1 t.sockets ≡ none) × (u ≡ t))
          ⊎ ((place : ℕ) × (s : SocketBackend) × (h : Handled) × (lookup m.header.arg1 t.sockets
                ≡ some place)
              × (get_elem? t.heap place ≡ some s)
              × (s.local_id ≡ m.header.arg1)
              × (handle_message s m ≡ done (ok h))
              × Routed t m.header.arg1 place h u))

  handled_ends :
      (t : TransportBackend C) (m : AdbMessage) (place : ℕ) (s : SocketBackend)
      (r : Run (Result Error Handled))
      → IsLinked t.sockets t.heap
      → lookup m.header.arg1 t.sockets ≡ some place
      → get_elem? t.heap place ≡ some s
      → s.local_id ≡ m.header.arg1
      → handle_message s m ≡ r
      → HandleRuns s m r
      → r ≢ panicked
      → RouteEnds t m (handled_at t m.header.arg1 place r)
  unfolding handled_at
  handled_ends t m place s panicked linked found at named e d safe = safe refl
  handled_ends t m place s (done (err x)) linked found at named e d safe = (d.0, refl)
  handled_ends t m place s (done (ok h)) linked found at named e d safe =
      let r = after-Routed t m.header.arg1 place s h at d.ends in
      (
        Routed-IsLinked t _ m.header.arg1 place s h linked at named d.local_id r,
        inr (place, s, h, found, at, named, e, r),
      )

  to_socket_ends :
      (t : TransportBackend C) (m : AdbMessage) (c : AdbCommand) (o : Option ℕ)
      → IsLinked t.sockets t.heap
      → m.header.command ≡ c
      → ForSocket c
      → lookup m.header.arg1 t.sockets ≡ o
      → RouteEnds t m (to_socket t m.header.arg1 m o)
  unfolding to_socket
  to_socket_ends t m c none linked e f found = (linked, inl (found, refl))
  to_socket_ends t m c (some place) linked e f found =
      let (s, at, named) = linked.target m.header.arg1 place found in
      let d = handle_message_delivers s m in
      subst (λ o. RouteEnds t m (to_place t m.header.arg1 m place o)) (sym at)
        (handled_ends t m place s (handle_message s m) linked found at named refl d
          (handling_safe s m c _ e f d))

  by_command_ends :
      (t : TransportBackend C) (m : AdbMessage) (c : AdbCommand)
      → IsLinked t.sockets t.heap
      → m.header.command ≡ c
      → ForSocket c
      → RouteEnds t m (by_command c t m)
  unfolding by_command
  by_command_ends t m okay linked e f = to_socket_ends t m okay _ linked e tt refl
  by_command_ends t m wrte linked e f = to_socket_ends t m wrte _ linked e tt refl
  by_command_ends t m clse linked e f = to_socket_ends t m clse _ linked e tt refl
  by_command_ends t m _ linked e f = absurd f

  pub route_ends :
      (t : TransportBackend C) (m : AdbMessage)
      → IsLinked t.sockets t.heap
      → ForSocket m.header.command
      → RouteEnds t m (route t m)
  unfolding route
  route_ends t m linked f = by_command_ends t m m.header.command linked refl f
