-- ===== src/Transport/System/Receiving.antt =====
-- The steps of the reader keep a transport valid.
use adb_daemon_rs.Base.{
  ℕ, ◌≡◌, refl, sym, ap, ◌∙◌, subst, inl, inr, [], ◌++◌, append-nil, Option, none, some, ok, err,
  Run, done, get_elem?, ◌==◌, ==_iff, nat_eq, arith, if_cases,
}
use adb_daemon_rs.Base.Map.{lookup}
use adb_daemon_rs.Transport.Message.{AdbMessage, AdbCommand, okay, wrte, clse}
use adb_daemon_rs.Transport.Connection.{Connection}
use adb_daemon_rs.Transport.Backend.{SocketBackend, Backend}
use adb_daemon_rs.Transport.Backend.Closing.{IsCoherent}
use adb_daemon_rs.Transport.Socket.{Handled, handle_message, avail_of}
use adb_daemon_rs.Transport.Socket.Delivery.{granted_by, arrived_by}
use adb_daemon_rs.Transport.Socket.Flow
use adb_daemon_rs.Transport.Socket.Flow.{Trace, IsSound, Step-IsSound}
use adb_daemon_rs.Transport.Router.{Next, finishes, offers, route}
use adb_daemon_rs.Transport.Router.Routing.{Routed, ForSocket, RouteEnds, route_ends}
use adb_daemon_rs.Transport.Router.Keeping.{
  SameEnds, RouteKeeps, route_keeps, OtherRuns, ignored, offered, refused, route_others,
}
use adb_daemon_rs.Transport.Router.Allocation.{IsFresh}
use adb_daemon_rs.Transport.System.{put, noted, noted_at, noted_by, Config}
use adb_daemon_rs.Transport.System.Validity.{IsValid}

module _ (K : Connection) where
  -- A message that grants nothing and brings nothing.
  quiet-IsSound :
      (s : SocketBackend) (tr : Trace) (m : AdbMessage)
      → granted_by m.header.command (avail_of m.payload) ≡ 0
      → arrived_by m.header.command m.payload ≡ []
      → IsSound K s tr
      → IsSound K s (noted m tr)
  quiet-IsSound s tr m g a v = record {
    credit = λ fits. omega (arith, v.credit);
    stream = v.stream ∙ sym (append-nil tr.arrived) ∙ ap (λ b. tr.arrived ++ b) (sym a);
  }

  quiet-noted :
      (c : Config K) (m : AdbMessage) (o : Option ℕ)
      → granted_by m.header.command (avail_of m.payload) ≡ 0
      → arrived_by m.header.command m.payload ≡ []
      → IsValid K c
      → IsValid K (record c { traces = noted_at m o c.traces })
  quiet-noted c m none g a v = v
  quiet-noted c m (some place) g a v = record {
    coherent = v.coherent;
    linked = v.linked;
    fresh = v.fresh;
    sound = λ q s at.
        if_cases (IsSound K s) (place == q) _ _
          (λ e.
            quiet-IsSound s (c.traces place) m g a
              (v.sound place s (ap (get_elem? c.transport.heap) ((==_iff place q).0 e) ∙ at)))
          (λ e. v.sound q s at);
  }

  -- The socket that a message reached, and the others.
  Routed-IsSound :
      (c : Config K) (u : Backend K) (m : AdbMessage) (place : ℕ) (s : SocketBackend) (h : Handled)
      → get_elem? c.transport.heap place ≡ some s
      → handle_message s m ≡ done (ok h)
      → Routed c.transport m.header.arg1 place h u
      → IsValid K c
      → (q : ℕ) (b : SocketBackend) → get_elem? u.heap q ≡ some b
      → IsSound K b (put place (noted m (c.traces place)) c.traces q)
  Routed-IsSound c u m place s h at run r v q b found =
      if_cases (IsSound K b) (place == q) _ _
        (λ e.
          let eq = (==_iff place q).0 e in
          let one : some h.socket ≡ some b = sym r.hit ∙ ap (get_elem? u.heap) eq ∙ found in
          let same : h.socket ≡ b = cc in
          Step-IsSound K (Flow.message m h run (sym same) refl) (v.sound place s at))
        (λ e. v.sound q b (sym (r.others q (λ x. cc (e, (==_iff place q).1 x))) ∙ found))

  Routed-IsFresh :
      (t u : Backend K) (id place : ℕ) (h : Handled)
      → u.last_id ≡ t.last_id
      → Routed t id place h u
      → IsFresh t
      → IsFresh u
  Routed-IsFresh t u id place h e r fresh j q found =
      let before : lookup j t.sockets ≡ some q = ground (arith, r.map j) in rw e (fresh j q before)

  same-IsCoherent : (t u : Backend K) → SameEnds t u → IsCoherent t → IsCoherent u
  same-IsCoherent t u (_, c, e) h = rw (c, e) h

  routed-IsValid :
      (c : Config K) (m : AdbMessage) (n : Next) (u : Backend K)
      → SameEnds c.transport u
      → RouteEnds c.transport m (done (n, u))
      → IsValid K c
      → IsValid K (record { transport = u; traces = noted_by c.transport m n c.traces })
  routed-IsValid c m (finishes (err e)) u same (_, eq) v = rw eq v
  routed-IsValid c m (finishes (ok _)) u same (_, inl (missing, eq)) v = rw (eq, missing) v
  routed-IsValid c m (finishes (ok _)) u same (linked, inr (place, s, h, found, at, named, run, r))
        v =
      rw found (record {
        coherent = same-IsCoherent c.transport u same v.coherent;
        linked = linked;
        fresh = Routed-IsFresh c.transport u m.header.arg1 place h same.0 r v.fresh;
        sound = Routed-IsSound c u m place s h at run r v;
      })
  routed-IsValid c m (offers p) u same h v = absurd h

  -- A message that is ignored grants nothing and brings nothing.
  ignored-IsValid :
      (c : Config K) (m : AdbMessage) (command : AdbCommand)
      → m.header.command ≡ command
      → (ForSocket command → ⊥)
      → IsValid K c
      → IsValid K
          (record c { traces = noted_at m (lookup m.header.arg1 c.transport.sockets) c.traces })
  ignored-IsValid c m okay e h v = absurd (h tt)
  ignored-IsValid c m wrte e h v = absurd (h tt)
  ignored-IsValid c m clse e h v = absurd (h tt)
  ignored-IsValid c m _ e h v =
      quiet-noted c m (lookup m.header.arg1 c.transport.sockets) (rw e) (rw e) v

  others-IsValid :
      (c : Config K) (m : AdbMessage) (n : Next) (u : Backend K)
      → (ForSocket m.header.command → ⊥)
      → OtherRuns c.transport (route c.transport m)
      → route c.transport m ≡ done (n, u)
      → IsValid K c
      → IsValid K (record { transport = u; traces = noted_by c.transport m n c.traces })
  others-IsValid c m n u stray (ignored e) run v =
      let same : ◌≡◌ {A = Run (Next × Backend K)} (done (n, u))
          (done (finishes (ok tt), c.transport)) =
        sym run ∙ e in
      let ends : n ≡ finishes (ok tt) = cc in
      let stays : u ≡ c.transport = cc in
      rw (ends, stays) (ignored-IsValid c m m.header.command refl stray v)
  others-IsValid c m n u stray (offered p e) run v =
      let same : ◌≡◌ {A = Run (Next × Backend K)} (done (n, u)) (done (offers p, c.transport)) =
        sym run ∙ e in
      let ends : n ≡ offers p = cc in let stays : u ≡ c.transport = cc in rw (ends, stays) v
  others-IsValid c m n u stray (refused x e) run v =
      let same : ◌≡◌ {A = Run (Next × Backend K)} (done (n, u))
          (done (finishes (err x), c.transport)) =
        sym run ∙ e in
      let ends : n ≡ finishes (err x) = cc in let stays : u ≡ c.transport = cc in rw (ends, stays) v

  pub receives-IsValid :
      (c : Config K) (m : AdbMessage) (n : Next) (u : Backend K)
      → route c.transport m ≡ done (n, u)
      → IsValid K c
      → IsValid K (record { transport = u; traces = noted_by c.transport m n c.traces })
  receives-IsValid c m n u run v = elim (route_others c.transport m) [
    | inl f ↦
        routed-IsValid c m n u (subst (RouteKeeps c.transport) run (route_keeps c.transport m))
          (subst (RouteEnds c.transport m) run (route_ends c.transport m v.linked f)) v
    | inr (stray, others) ↦ others-IsValid c m n u stray others run v
  ]
