-- ===== src/Transport/Backend/Closing.antt =====
-- When the transport closes, whom that wakes, and what stays true of an open one.
use adb_daemon_rs.Base.{
  ℕ, ◌≡◌, ◌≢◌, refl, ap, ◌∙◌, subst, sym, [], ◌∷◌, ◌++◌, Option, none, some, Result, ok, err, Poll,
  pending, ready, Run, done, panicked, Bytes,
}
use adb_daemon_rs.Transport.Error.{Error, of_kind, transport_error}
use adb_daemon_rs.Transport.Message.{AdbMessage}
use adb_daemon_rs.Transport.Connection.{Connection}
use adb_daemon_rs.Transport.Backend.{
  TransportBackend, ConnectionWrapper, Backend, close_notify, notify_sockets, set_error, on_error,
  write_message, poll_flush, poll_write_async, written, failing, guarded_write, flushed,
  guarded_flush, after_write, after_flush,
}

-- A transport has a connection until its first error, and none from then on.
abbrev pub Coherent {ℓ} : {W : Type ℓ} → Option W → Option Error → Type 0
Coherent none none = ⊥
Coherent none (some e) = Unit
Coherent (some w) none = Unit
Coherent (some w) (some e) = ⊥

abbrev pub IsCoherent : {C : Type 0} → TransportBackend C → Type 0
IsCoherent t = Coherent t.connection t.error

set_error_again :
    {C : Type 0} (t : TransportBackend C) (o : Option Error) (e f : Error)
    → t.error ≡ o
    → set_error (set_error o e t).error f (set_error o e t) ≡ set_error o e t
unfolding set_error
set_error_again t none e f h = refl
set_error_again t (some old) e f h = ap (λ o. set_error o f t) h

set_error_first :
    {C : Type 0} (t : TransportBackend C) (o : Option Error) (e : Error)
    → o ≡ none
    → set_error o e t ≡ record t {
      connection = none;
      error = some e;
      notices = t.notices ++ (close_notify ∷ notify_sockets t.sockets);
    }
unfolding set_error
set_error_first t none e h = refl
set_error_first t (some old) e h = cc

pub set_error-IsCoherent :
    {C : Type 0} (t : TransportBackend C) (o : Option Error) (e : Error)
    → o ≡ t.error
    → IsCoherent t
    → IsCoherent (set_error o e t)
unfolding set_error
set_error-IsCoherent t none e h c = tt
set_error-IsCoherent t (some old) e h c = c

-- The first error closes the connection and wakes the reader task and both ends of every socket in
-- the map. Later errors change nothing, and each caller gets its own error back, wrapped.
pub on_error_lem :
    {C : Type 0} (t : TransportBackend C) (e f : Error)
    → ((on_error t e).0 ≡ of_kind (transport_error e))
      × ((on_error (on_error t e).1 f).1 ≡ (on_error t e).1)
      × (t.error ≡ none
          → ((on_error t e).1.error ≡ some e)
            × ((on_error t e).1.connection ≡ none)
            × ((on_error t e).1.notices ≡ t.notices ++ (close_notify ∷ notify_sockets t.sockets)))
unfolding on_error
on_error_lem t e f = (
  refl,
  set_error_again t t.error e f refl,
  λ h.
      let first = set_error_first t t.error e h in
      (ap (λ u. u.error) first, ap (λ u. u.connection) first, ap (λ u. u.notices) first),
)

module _ (K : Connection) where
  -- A successful flush keeps the connection and leaves it with nothing unsent.
  flushed_ok :
      (t u : Backend K) (w : ConnectionWrapper K.State)
      (p : Poll (Result Error (Unit {0})) × K.State)
      → K.poll_flush w.inner ≡ p
      → flushed K t w p ≡ (ready (ok tt), u)
      → (v : ConnectionWrapper K.State) × (u ≡ record t { connection = some v })
        × (K.unsent v.inner ≡ 0)
  unfolding flushed
  flushed_ok t u w (pending, c) e h = cc
  flushed_ok t u w (ready (err x), c) e h = cc
  flushed_ok t u w (ready (ok _), c) e h =
      (record w { inner = c }, cc, K.unsent-poll_flush w.inner c e)

  poll_flush_cases :
      (t u : Backend K) (o : Option (ConnectionWrapper K.State)) (waker : ℕ)
      → guarded_flush K o t waker ≡ (ready (ok tt), u)
      → (v : ConnectionWrapper K.State) × (u ≡ record t { connection = some v })
        × (K.unsent v.inner ≡ 0)
  unfolding guarded_flush
  poll_flush_cases t u none waker h = cc
  poll_flush_cases t u (some w) waker h =
      flushed_ok t u (record w { write_wakers = w.write_wakers ++ waker ∷ [] })
        (K.poll_flush w.inner) refl h

  pub poll_flush_ok :
      (t u : Backend K) (waker : ℕ)
      → poll_flush K t waker ≡ (ready (ok tt), u)
      → (v : ConnectionWrapper K.State) × (u ≡ record t { connection = some v })
        × (K.unsent v.inner ≡ 0)
  unfolding poll_flush
  poll_flush_ok t u waker h = poll_flush_cases t u t.connection waker h

  written_returns :
      (t : Backend K) (w : ConnectionWrapper K.State) (r : Result Error (Unit {0}) × K.State)
      (p : Run (Result Error (Unit {0}) × K.State))
      → p ≡ done r
      → written K t w p ≢ panicked
  unfolding written
  written_returns t w r panicked h e = cc
  written_returns t w r (done q) h e = cc

  -- Behind a successful flush a write returns.
  pub write_message_flushed :
      (t : Backend K) (v : ConnectionWrapper K.State) (m : AdbMessage)
      → K.unsent v.inner ≡ 0
      → write_message K (record t { connection = some v }) m ≢ panicked
  unfolding write_message
  write_message_flushed t v m h e =
      let (r, got) = K.write_message_flushed v.inner m h in
      written_returns (record t { connection = some v }) v r (K.write_message v.inner m) got e

  pub write_message_panics :
      (t : Backend K) (v : ConnectionWrapper K.State) (m : AdbMessage)
      → t.connection ≡ some v
      → K.write_message v.inner m ≡ panicked
      → write_message K t m ≡ panicked
  unfolding write_message
  write_message_panics t v m h e = ap (λ o. guarded_write K o t m) h ∙ ap (written K t v) e

  -- `write_message_async` never meets the assertion of the connection.
  after_write_returns :
      (waker : ℕ) (r : Run (Result Error (Unit {0}) × Backend K))
      → r ≢ panicked
      → after_write K waker r ≢ panicked
  unfolding after_write
  after_write_returns waker panicked safe e = safe refl
  after_write_returns waker (done (err x, t)) safe e = cc
  after_write_returns waker (done (ok _, t)) safe e = cc

  after_flush_returns :
      (t : Backend K) (waker : ℕ) (m : Option AdbMessage)
      (p : Poll (Result Error (Unit {0})) × Backend K)
      → poll_flush K t waker ≡ p
      → after_flush K waker m p ≢ panicked
  unfolding after_flush
  after_flush_returns t waker m (pending, u) h e = cc
  after_flush_returns t waker m (ready (err x), u) h e = cc
  after_flush_returns t waker none (ready (ok _), u) h e = cc
  after_flush_returns t waker (some m) (ready (ok _), u) h e =
      let (v, at, sent) = poll_flush_ok t u waker h in
      after_write_returns waker _ (λ stuck. write_message_flushed t v m sent (rw at at stuck)) e

  -- One poll of `write_message_async` never panics, from any state of the transport.
  pub poll_write_async_returns :
      (t : Backend K) (waker : ℕ) (m : Option AdbMessage) → poll_write_async K t waker m ≢ panicked
  unfolding poll_write_async
  poll_write_async_returns t waker m = after_flush_returns t waker m (poll_flush K t waker) refl

  -- What an operation on the connection leaves alone.
  pub record Keeps (t u : Backend K) : Type 0 where
    pub sockets : u.sockets ≡ t.sockets
    pub heap : u.heap ≡ t.heap
    pub last_id : u.last_id ≡ t.last_id
    pub coherent : IsCoherent u

  -- An error that is returned is the end of the transport.
  abbrev pub Reports {ℓ} : {A : Type ℓ} → Result Error A → Backend K → Type 0
  Reports (ok a) u = Unit
  Reports (err e) u = u.connection ≡ none

  Coherent-open :
      (o : Option (ConnectionWrapper K.State)) (e : Option Error) (w : ConnectionWrapper K.State)
      → Coherent o e
      → o ≡ some w
      → e ≡ none
  Coherent-open none e w c h = cc
  Coherent-open (some v) none w c h = refl
  Coherent-open (some v) (some e) w c h = absurd c

  failing_lem :
      {A : Type 0} (t : Backend K) (v : ConnectionWrapper K.State) (what : Bytes)
      (r : Result Error A)
      → t.error ≡ none
      → let q = failing K what (r, record t { connection = some v }) in
        Keeps t q.1 × Reports q.0 q.1
  unfolding on_error
  failing_lem t v what (ok a) h = (
    record {
      sockets = refl;
      heap = refl;
      last_id = refl;
      coherent = subst (Coherent (some v)) (sym h) tt;
    },
    tt,
  )
  failing_lem t v what (err e) h =
      rw (set_error_first (record t { connection = some v }) t.error _ h)
        (record { sockets = refl; heap = refl; last_id = refl; coherent = tt }, refl)

  -- What is said of the outcome of each operation on the connection.
  abbrev pub WriteEnds : Backend K → Run (Result Error (Unit {0}) × Backend K) → Type 0
  WriteEnds t panicked = Unit
  WriteEnds t (done (r, u)) = Keeps t u × Reports r u

  abbrev pub FlushEnds : Backend K → Poll (Result Error (Unit {0})) × Backend K → Type 0
  FlushEnds t (pending, u) = Keeps t u × ((w : ConnectionWrapper K.State) × (u.connection ≡ some w))
  FlushEnds t (ready r, u) = Keeps t u × Reports r u

  written_ends :
      (t : Backend K) (w : ConnectionWrapper K.State) (p : Run (Result Error (Unit {0}) × K.State))
      → t.error ≡ none
      → WriteEnds t (written K t w p)
  unfolding written
  written_ends t w panicked h = tt
  written_ends t w (done (r, c)) h = failing_lem t (record w { inner = c }) _ r h

  flushed_ends :
      (t : Backend K) (w : ConnectionWrapper K.State) (p : Poll (Result Error (Unit {0})) × K.State)
      → t.error ≡ none
      → FlushEnds t (flushed K t w p)
  unfolding flushed
  flushed_ends t w (pending, c) h =
      let v = record w { inner = c } in ((failing_lem t v [] (ok tt) h).0, (v, refl))
  flushed_ends t w (ready r, c) h = failing_lem t (record w { inner = c }) _ r h

  absent : (t : Backend K) → t.connection ≡ none → IsCoherent t → Keeps t t
  absent t e c = record { sockets = refl; heap = refl; last_id = refl; coherent = c }

  guarded_write_ends :
      (t : Backend K) (o : Option (ConnectionWrapper K.State)) (m : AdbMessage)
      → t.connection ≡ o
      → IsCoherent t
      → WriteEnds t (guarded_write K o t m)
  unfolding guarded_write
  guarded_write_ends t none m e c = (absent t e c, e)
  guarded_write_ends t (some w) m e c =
      written_ends t w (K.write_message w.inner m) (Coherent-open t.connection t.error w c e)

  guarded_flush_ends :
      (t : Backend K) (o : Option (ConnectionWrapper K.State)) (waker : ℕ)
      → t.connection ≡ o
      → IsCoherent t
      → FlushEnds t (guarded_flush K o t waker)
  unfolding guarded_flush
  guarded_flush_ends t none waker e c = (absent t e c, e)
  guarded_flush_ends t (some w) waker e c =
      flushed_ends t (record w { write_wakers = w.write_wakers ++ waker ∷ [] })
        (K.poll_flush w.inner) (Coherent-open t.connection t.error w c e)

  pub write_message_ends :
      (t : Backend K) (m : AdbMessage) → IsCoherent t → WriteEnds t (write_message K t m)
  unfolding write_message
  write_message_ends t m c = guarded_write_ends t t.connection m refl c

  pub poll_flush_ends :
      (t : Backend K) (waker : ℕ) → IsCoherent t → FlushEnds t (poll_flush K t waker)
  unfolding poll_flush
  poll_flush_ends t waker c = guarded_flush_ends t t.connection waker refl c

  -- A write or a flush on a transport that has a connection exactly until its first error keeps that
  -- so, and leaves the sockets and the ids alone. An error that it returns means that the transport
  -- is closed; a flush that waits has a connection.
  pub connection_ends :
      (t : Backend K) (m : AdbMessage) (waker : ℕ)
      → IsCoherent t
      → WriteEnds t (write_message K t m) × FlushEnds t (poll_flush K t waker)
  connection_ends t m waker c = (write_message_ends t m c, poll_flush_ends t waker c)
