-- ===== src/Transport/System/Life.antt =====
-- Every reachable state of a transport is valid.
use adb_daemon_rs.Base.{
  ℕ, zero, suc, ◌+◌, ◌<◌, ◌≤◌, ◌≡◌, ◌≢◌, refl, sym, ap, subst, ◌⊎◌, inl, inr, List, [], ◌∷◌, ◌++◌,
  Bytes, Option, none, some, Result, ok, Poll, pending, ready, done, get_elem?, length, ==_false,
  ==_refl, Option-cases, nat_eq, arith,
}
use adb_daemon_rs.Base.Map.{lookup, remove, lookup-remove}
use adb_daemon_rs.Words.{u32_mod, usize_mod}
use adb_daemon_rs.Transport.Error.{Error}
use adb_daemon_rs.Transport.Message.{AdbMessage}
use adb_daemon_rs.Transport.Connection.{Connection}
use adb_daemon_rs.Transport.Banner.{Banner}
use adb_daemon_rs.Transport.Backend.{SocketBackend, Backend, on_error, set_error}
use adb_daemon_rs.Transport.Backend.Closing.{
  IsCoherent, Keeps, WriteEnds, FlushEnds, write_message_ends, poll_flush_ends,
}
use adb_daemon_rs.Transport.Socket.Reading.{buffered}
use adb_daemon_rs.Transport.Socket.Flow.{start, new_socket-IsSound}
use adb_daemon_rs.Transport.Handshake.{new_backend}
use adb_daemon_rs.Transport.Router.{PendingSocket, allocate, accept, open_socket, drop_socket}
use adb_daemon_rs.Transport.Router.Allocation.{allocate_lem}
use adb_daemon_rs.Transport.System.{
  put, Config, Step, receives, calls, accepts, opens, sends, waits, fails, drops, Reach, here, next,
}
use adb_daemon_rs.Transport.System.Validity.{IsValid, Call-Effect, kept-IsValid, called-IsValid}
use adb_daemon_rs.Transport.System.Receiving.{receives-IsValid}

-- An entry of a heap with one more socket at its end.
appended :
    (heap : List SocketBackend) (new b : SocketBackend) (q : ℕ)
    → get_elem? (heap ++ new ∷ []) q ≡ some b
    → ((q ≡ length heap) × (b ≡ new)) ⊎ ((q ≢ length heap) × (get_elem? heap q ≡ some b))
appended [] new b zero h = let e : some new ≡ some b = h in inl (refl, cc)
appended [] new b (suc q) h = cc
appended (x ∷ heap) new b zero h = inr ((λ e. omega arith), h)
appended (x ∷ heap) new b (suc q) h = elim (appended heap new b q h) [
  | inl (e, same) ↦ inl (ap suc e, same)
  | inr (ne, at) ↦ inr ((λ e. ne (omega arith)), at)
]

module _ (K : Connection) where
  allocated-IsValid :
      (c : Config K) (remote_id granted : ℕ)
      → c.transport.last_id + 1 < u32_mod
      → IsValid K c
      → IsValid K (record {
        transport = (allocate c.transport remote_id granted).2;
        traces = put (allocate c.transport remote_id granted).0 (start K granted) c.traces;
      })
  unfolding allocate
  allocated-IsValid c remote_id granted room v =
      let (_, _, _, _, linked, fresh) =
        allocate_lem c.transport remote_id granted v.linked v.fresh room in
      record {
        coherent = v.coherent;
        linked = linked;
        fresh = fresh;
        sound = λ q b at. elim (appended c.transport.heap _ b q at) [
          | inl (e, same) ↦
              rw (e, same, ==_refl (length c.transport.heap))
                (new_socket-IsSound K c.transport.last_id remote_id granted)
          | inr (ne, at') ↦
              rw (==_false (length c.transport.heap) q (λ e. ne (sym e))) (v.sound q b at')
        ];
      }

  -- What `accept` and `open_socket` allocate.
  accept-allocate :
      (t u : Backend K) (p : PendingSocket) (m : AdbMessage) (place : ℕ)
      → accept t p ≡ (m, place, u)
      → (place ≡ (allocate t p.remote_id p.acknowledged).0)
        × (u ≡ (allocate t p.remote_id p.acknowledged).2)
  unfolding accept
  accept-allocate t u p m place e = (ap (λ r. r.1) (sym e), ap (λ r. r.2) (sym e))

  open_socket-allocate :
      (t u : Backend K) (service : Bytes) (m : AdbMessage) (place : ℕ)
      → open_socket t service ≡ ok (m, place, u)
      → (place ≡ (allocate t 0 0).0) × (u ≡ (allocate t 0 0).2)
  unfolding open_socket
  open_socket-allocate t u service m place e = elim (Option-cases t.error) [
    | inl h ↦ let e' = rw h at e in (cc, cc)
    | inr (x, h) ↦ absurd (let e' = rw h at e in cc)
  ]

  set_error-Keeps :
      (t : Backend K) (o : Option Error) (e : Error)
      → o ≡ t.error
      → IsCoherent t
      → Keeps K t (set_error o e t)
  unfolding set_error
  set_error-Keeps t none e h c = record {
    sockets = refl;
    heap = refl;
    last_id = refl;
    coherent = tt;
  }
  set_error-Keeps t (some old) e h c = record {
    sockets = refl;
    heap = refl;
    last_id = refl;
    coherent = c;
  }

  failed-IsValid :
      (c : Config K) (e : Error)
      → IsValid K c
      → IsValid K (record c { transport = (on_error c.transport e).1 })
  unfolding on_error
  failed-IsValid c e v =
      kept-IsValid K c _ (set_error-Keeps c.transport c.transport.error e refl v.coherent) v

  removed :
      (k j place : ℕ) (t : Backend K)
      → lookup j (remove k t.sockets) ≡ some place
      → lookup j t.sockets ≡ some place
  removed k j place t h = ground (arith, lookup-remove k j t.sockets)

  dropped-IsValid :
      (c : Config K) (s : SocketBackend)
      → IsValid K c
      → IsValid K (record c { transport = drop_socket c.transport s })
  unfolding drop_socket
  dropped-IsValid c s v = record {
    coherent = v.coherent;
    linked = record {
      target = λ id q h. v.linked.target id q (removed s.local_id id q c.transport h);
    };
    fresh = λ id q h. v.fresh id q (removed s.local_id id q c.transport h);
    sound = v.sound;
  }

  FlushEnds-Keeps :
      (t : Backend K) (p : Poll (Result Error (Unit {0})) × Backend K)
      → FlushEnds K t p
      → Keeps K t p.1
  FlushEnds-Keeps t (pending, u) f = f.0
  FlushEnds-Keeps t (ready r, u) f = f.0

  Step-IsValid : {c d : Config K} → Step K c d → IsValid K c → IsValid K d
  Step-IsValid {c} {d} (receives m n u run e) v = rw e (receives-IsValid K c m n u run v)
  Step-IsValid {c} {d} (calls place s s' tr' u at call e) v =
      rw e (called-IsValid K c u place s s' tr' at (Call-Effect K call v.coherent) v)
  Step-IsValid {c} {d} (accepts p m place u room run e) v =
      let (at, new) = accept-allocate c.transport u p m place run in
      rw (e, at, new) (allocated-IsValid c p.remote_id p.acknowledged room v)
  Step-IsValid {c} {d} (opens service m place u room run e) v =
      let (at, new) = open_socket-allocate c.transport u service m place run in
      rw (e, at, new) (allocated-IsValid c 0 0 room v)
  Step-IsValid {c} {d} (sends m r u run e) v =
      let w : WriteEnds K c.transport (done (r, u)) =
        subst (WriteEnds K c.transport) run (write_message_ends K c.transport m v.coherent) in
      rw e (kept-IsValid K c u w.0 v)
  Step-IsValid {c} {d} (waits waker e) v = rw e (
      kept-IsValid K c _
        (FlushEnds-Keeps c.transport _ (poll_flush_ends K c.transport waker v.coherent)) v)
  Step-IsValid {c} {d} (fails x e) v = rw e (failed-IsValid c x v)
  Step-IsValid {c} {d} (drops s e) v = rw e (dropped-IsValid c s v)

  -- Whatever steps the reader, the tasks of the sockets, those that open, accept and drop them and the
  -- errors make, in any order, as long as no socket is accepted or opened with the counter of ids at
  -- 2^32 - 1, where it would wrap around: from a valid transport, such as a new one, the transport is valid
  -- again. Each id in its map leads to the socket with that id and is below the next id; it has a
  -- connection exactly until its first error; and no socket was given bytes beyond its credit or hands
  -- out other bytes than those that arrived for it.
  pub Reach-IsValid : {c d : Config K} → Reach K c d → IsValid K c → IsValid K d
  Reach-IsValid here v = v
  Reach-IsValid (next r st) v = Step-IsValid st (Reach-IsValid r v)

  -- A transport as the handshake gives it.
  abbrev pub started : K.State → Banner → Config K
  started c banner = record { transport = new_backend c banner; traces = λ place. start K 0 }

  pub started-IsValid : (c : K.State) (banner : Banner) → IsValid K (started c banner)
  unfolding lookup
  started-IsValid c banner = record {
    coherent = tt;
    linked = record { target = λ id place e. cc };
    fresh = λ id place e. cc;
    sound = λ place s e. cc;
  }

  -- However the tasks of a new transport interleave, as long as no socket is accepted or opened with the
  -- counter of ids at 2^32 - 1, where it would wrap around, each of its sockets reports no more bytes as sent
  -- than the device granted to that socket, as long as the credit fits a `usize`, and hands out the
  -- bytes that arrived for that socket in order, none lost and none twice.
  pub reached_sockets :
      (c : K.State) (banner : Banner) {d : Config K} (place : ℕ) (s : SocketBackend)
      → Reach K (started c banner) d
      → get_elem? d.transport.heap place ≡ some s
      → let tr = d.traces place in
        (tr.granted < usize_mod → tr.used ≤ tr.granted)
        × (tr.delivered ++ buffered s.state.read_buffer ≡ tr.arrived)
  reached_sockets c banner {d} place s r at =
      let v = (Reach-IsValid r (started-IsValid c banner)).sound place s at in
      ((λ fits. omega (arith, v.credit fits)), v.stream)
