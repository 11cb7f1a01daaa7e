-- ===== src/Transport/System/Validity.antt =====
-- What stays true of a transport and its sockets, whatever its tasks do.
use adb_daemon_rs.Base.{
  ℕ, ◌<◌, ◌≡◌, ◌≢◌, sym, ap, ◌∙◌, subst, ◌⊎◌, inl, inr, List, true, Bytes, some, get_elem?, set,
  length, ◌==◌, ==_iff, ==_false, nat_eq, Bool-cases, get_elem?-set_self, get_elem?-set_ne,
}
use adb_daemon_rs.Transport.Connection.{Connection}
use adb_daemon_rs.Transport.Backend.{SocketBackend, Backend}
use adb_daemon_rs.Transport.Backend.Closing.{IsCoherent, Keeps}
use adb_daemon_rs.Transport.Socket.{Outcome}
use adb_daemon_rs.Transport.Socket.Reading.{Reads, ReadRuns, poll_read_runs}
use adb_daemon_rs.Transport.Socket.Writing.{Writes, sends, refuses, WriteRuns, poll_write_runs}
use adb_daemon_rs.Transport.Socket.Closing.{poll_close_socket, close_socket}
use adb_daemon_rs.Transport.Socket.Keeping.{
  RunKeeps, ReadKeeps, poll_read_keeps, poll_write_keeps, poll_close_keeps, poll_flush_socket-Keeps,
}
use adb_daemon_rs.Transport.Socket.Flow
use adb_daemon_rs.Transport.Socket.Flow.{Trace, IsSound, Step-IsSound, start}
use adb_daemon_rs.Transport.Router.Routing.{IsLinked, get_elem?-lt}
use adb_daemon_rs.Transport.Router.Allocation.{IsFresh}
use adb_daemon_rs.Transport.System.{Traces, put, Config, Call, reads, writes, closes, flushes}

module _ (K : Connection) where
  -- What a call does to the transport, to the socket and to its trace.
  pub record Effect (t u : Backend K) (s s' : SocketBackend) (tr tr' : Trace) : Type 0 where
    pub keeps : Keeps K t u
    pub same_id : s'.local_id ≡ s.local_id
    pub sound : IsSound K s tr → IsSound K s' tr'

  Writes-id :
      (s : SocketBackend) (buf : Bytes) (o : Outcome K ℕ)
      → Writes K s buf o
      → o.socket.local_id ≡ s.local_id
  Writes-id s buf o (sends t r c a e h es) = ap (λ (b : SocketBackend). b.local_id) es
  Writes-id s buf o (refuses h es) = ap (λ (b : SocketBackend). b.local_id) es

  closes_id : (s s' : SocketBackend) → (s' ≡ s) ⊎ (s' ≡ close_socket s) → s'.local_id ≡ s.local_id
  closes_id s s' (inl e) = ap (λ (b : SocketBackend). b.local_id) e
  closes_id s s' (inr e) = ap (λ (b : SocketBackend). b.local_id) e

  pub Call-Effect :
      {t u : Backend K} {s s' : SocketBackend} {tr tr' : Trace}
      → Call K t s tr u s' tr'
      → IsCoherent t
      → Effect t u s s' tr tr'
  Call-Effect {t} {u} {s} {s'} {tr} {tr'} (reads room waker bytes o e eu es et) c =
      let d : Reads K s room bytes o =
        subst (ReadRuns K s room) e (poll_read_runs K t s room waker) in
      record {
        keeps = rw eu (subst (ReadKeeps K t) e (poll_read_keeps K t s room waker c));
        same_id = rw es (ap (λ (b : SocketBackend). b.local_id) d.others);
        sound = Step-IsSound K (Flow.reads t room waker bytes o e es et);
      }
  Call-Effect {t} {u} {s} {s'} {tr} {tr'} (writes buf tick waker o e eu es et) c = record {
    keeps = rw eu (subst (RunKeeps K t) e (poll_write_keeps K t s buf tick waker c));
    same_id =
        rw es
          (Writes-id s buf o (subst (WriteRuns K s buf) e (poll_write_runs K t s buf tick waker)));
    sound = Step-IsSound K (Flow.writes t buf tick waker o e es et);
  }
  Call-Effect {t} {u} {s} {s'} {tr} {tr'} (closes waker o e eu es et) c = record {
    keeps = rw eu (subst (RunKeeps K t) e (poll_close_keeps K t s waker c));
    same_id = rw es (closes_id s o.socket (poll_close_socket K t s waker o e));
    sound = Step-IsSound K (Flow.closes t waker o e es et);
  }
  Call-Effect {t} {u} {s} {s'} {tr} {tr'} (flushes waker eu es et) c =
      let (keeps, same) = poll_flush_socket-Keeps K t s waker c in
      record { keeps = rw eu keeps; same_id = rw (es, same); sound = λ v. rw (es, et, same) v }

  -- The map leads to sockets with the right ids, the ids are below the next one, there is a connection
  -- until the first error, and each socket keeps to its credit and hands out its bytes in order.
  pub record IsValid (c : Config K) : Type 0 where
    pub coherent : IsCoherent c.transport
    pub linked : IsLinked c.transport.sockets c.transport.heap
    pub fresh : IsFresh c.transport
    pub sound :
        (place : ℕ) (s : SocketBackend)
        → get_elem? c.transport.heap place ≡ some s
        → IsSound K s (c.traces place)

  -- A place in a heap of which one entry was replaced.
  replaced :
      (heap : List SocketBackend) (place q : ℕ) (s' r : SocketBackend)
      → place < length heap
      → get_elem? (set heap place s') q ≡ some r
      → ((place ≡ q) × (r ≡ s')) ⊎ ((place ≢ q) × (get_elem? heap q ≡ some r))
  replaced heap place q s' r fits at = elim (Bool-cases (place == q)) [
    | inl e ↦
        let eq = (==_iff place q).0 e in
        let one : some r ≡ some s' =
          sym at
          ∙ ap (get_elem? (set heap place s')) (sym eq)
          ∙ get_elem?-set_self heap place s' fits in
        inl (eq, cc)
    | inr e ↦
        let ne : place ≢ q = λ x. cc (e, (==_iff place q).1 x) in
        inr (ne, sym (get_elem?-set_ne heap s' ne) ∙ at)
  ]

  -- The traces of an entry that was replaced, and of the others.
  put-IsSound :
      (t : List SocketBackend) (traces : Traces) (place : ℕ) (s' : SocketBackend) (tr' : Trace)
      → place < length t
      → ((q : ℕ) (r : SocketBackend) → get_elem? t q ≡ some r → IsSound K r (traces q))
      → IsSound K s' tr'
      → (q : ℕ) (r : SocketBackend) → get_elem? (set t place s') q ≡ some r
      → IsSound K r (put place tr' traces q)
  put-IsSound t traces place s' tr' fits old new q r at = elim (replaced t place q s' r fits at) [
    | inl (eq, same) ↦ let hit : (place == q) ≡ true = (==_iff place q).1 eq in rw (hit, same) new
    | inr (ne, at') ↦ rw (==_false place q ne) (old q r at')
  ]

  -- A step of a task that holds a socket.
  Keeps-IsLinked :
      (t u : Backend K) (place : ℕ) (s s' : SocketBackend)
      → Keeps K t u
      → get_elem? t.heap place ≡ some s
      → s'.local_id ≡ s.local_id
      → IsLinked t.sockets t.heap
      → IsLinked u.sockets (set u.heap place s')
  Keeps-IsLinked t u place s s' k at same linked =
      rw (k.sockets, k.heap)
        (record {
          target = λ id q found.
              let (r, at', named) = linked.target id q found in
              elim (Bool-cases (place == q)) [
                | inl e ↦
                    let eq = (==_iff place q).0 e in
                    let one : some s ≡ some r = sym at ∙ ap (get_elem? t.heap) eq ∙ at' in
                    let id_of : s.local_id ≡ r.local_id = cc in
                    (
                      s',
                      ap (get_elem? (set t.heap place s')) (sym eq)
                          ∙ get_elem?-set_self t.heap place s' (get_elem?-lt t.heap place s at),
                      same ∙ id_of ∙ named,
                    )
                | inr e ↦
                    (r, get_elem?-set_ne t.heap s' (λ x. cc (e, (==_iff place q).1 x)) ∙ at', named)
              ];
        })

  Keeps-IsFresh : (t u : Backend K) → Keeps K t u → IsFresh t → IsFresh u
  Keeps-IsFresh t u k fresh = rw (k.sockets, k.last_id) fresh

  -- A step that leaves the sockets alone.
  pub kept-IsValid :
      (c : Config K) (u : Backend K)
      → Keeps K c.transport u
      → IsValid c
      → IsValid (record c { transport = u })
  kept-IsValid c u k v = record {
    coherent = k.coherent;
    linked = rw (k.sockets, k.heap) v.linked;
    fresh = Keeps-IsFresh c.transport u k v.fresh;
    sound = rw (k.heap) v.sound;
  }

  pub called-IsValid :
      (c : Config K) (u : Backend K) (place : ℕ) (s s' : SocketBackend) (tr' : Trace)
      → get_elem? c.transport.heap place ≡ some s
      → Effect c.transport u s s' (c.traces place) tr'
      → IsValid c
      → IsValid (record {
        transport = record u { heap = set u.heap place s' };
        traces = put place tr' c.traces;
      })
  called-IsValid c u place s s' tr' at f v = record {
    coherent = f.keeps.coherent;
    linked = Keeps-IsLinked c.transport u place s s' f.keeps at f.same_id v.linked;
    fresh = Keeps-IsFresh c.transport u f.keeps v.fresh;
    sound = rw (f.keeps.heap) (
        put-IsSound c.transport.heap c.traces place s' tr'
          (get_elem?-lt c.transport.heap place s at) v.sound (f.sound (v.sound place s at)));
  }
