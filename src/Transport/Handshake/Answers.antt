-- ===== src/Transport/Handshake/Answers.antt =====
-- What a handshake sends, and how it ends.
use adb_daemon_rs.Base.{
  subst, ◌≡◌, refl, List, [], ◌∷◌, true, Option, none, some, Result, ok, err, if_cases, ◌⊎◌, inl,
  inr, ap,
}
use adb_daemon_rs.Base.Map.{lookup}
use adb_daemon_rs.Text.{codes}
use adb_daemon_rs.Text.Utf8.{is_utf8}
use adb_daemon_rs.Transport.Error.{Error}
use adb_daemon_rs.Transport.Message.{AdbMessage, AdbCommand, cnxn, auth}
use adb_daemon_rs.Transport.Banner.{Banner, contains}
use adb_daemon_rs.Transport.Backend.{TransportBackend}
use adb_daemon_rs.Transport.Backend.Closing.{IsCoherent}
use adb_daemon_rs.Transport.Router.Routing.{IsLinked}
use adb_daemon_rs.Transport.Router.Allocation.{IsFresh}
use adb_daemon_rs.Transport.Handshake.{
  AuthMode, Peer, AuthEnd, accepted, rejected, failed, waits, AuthRun, new_backend, with_banner,
  parse_banner, handle_cnxn, answer, written, answered, by_key, round, auth_loop, authenticate,
}

-- A transport that has just been accepted, over the connection `c`.
pub record IsStart {C : Type 0} (c : C) (t : TransportBackend C) : Type 0 where
  pub connection : t.connection ≡ some (record { inner = c; write_wakers = [] })
  pub no_error : t.error ≡ none
  pub no_sockets : t.sockets ≡ []
  pub delayed_ack : contains (codes "delayed_ack") t.banner.features ≡ true
  pub coherent : IsCoherent t
  pub linked : IsLinked t.sockets t.heap
  pub fresh : IsFresh t

-- The message is one of those that are read.
abbrev pub Among : AdbMessage → List (Result Error AdbMessage) → Type 0
Among m [] = ⊥
Among m (x ∷ ms) = (x ≡ ok m) ⊎ Among m ms

-- The message `a` is one of those that are read, and `m` is one of those behind it.
abbrev pub Then : AdbMessage → AdbMessage → List (Result Error AdbMessage) → Type 0
Then a m [] = ⊥
Then a m (x ∷ ms) = ((x ≡ ok a) × Among m ms) ⊎ Then a m ms

-- The message `sent` is the answer of the key to the `AUTH` message `m`.
pub record Answers (w : Peer) (key : AuthMode) (m : AdbMessage) (sent : List AdbMessage)
    : Type 0 where
  pub is_auth : m.header.command ≡ auth
  pub answered_by : AdbMessage
  pub is_answer : answer w key m ≡ ok answered_by
  pub is_sent : sent ≡ answered_by ∷ []

-- The one answer that a run with the key `key` gives, or none.
abbrev pub Answered :
    Peer → Option AuthMode → List (Result Error AdbMessage) → List AdbMessage → Type 0
Answered w none ms sent = sent ≡ []
Answered w (some key) ms sent = (sent ≡ []) ⊎ ((m : AdbMessage) × Among m ms × Answers w key m sent)

-- A run that is rejected with the message `m` has used its key up.
abbrev pub Rejects :
    Peer → Option AuthMode → List (Result Error AdbMessage) → List AdbMessage → AdbMessage → Type 0
Rejects w none ms sent m = Among m ms × (sent ≡ [])
Rejects w (some key) ms sent m = (a : AdbMessage) × Then a m ms × Answers w key a sent

-- The banner is that of one of the `CNXN` messages that are read.
abbrev pub Announced : List (Result Error AdbMessage) → Banner → Type 0
Announced ms b =
    (m : AdbMessage) × Among m ms × (m.header.command ≡ cnxn) × (parse_banner m.payload ≡ ok b)

-- How a run ends.
abbrev pub Ends :
    {C : Type 0}
    → Peer
    → C
    → Option AuthMode
    → List (Result Error AdbMessage)
    → List AdbMessage
    → AuthEnd C
    → Type 0
Ends w c key ms sent (accepted t) = IsStart c t × Announced ms t.banner
Ends w c key ms sent (rejected m) = (m.header.command ≡ auth) × Rejects w key ms sent m
Ends w c key ms sent (failed e) = Unit
Ends w c key ms sent waits = Unit

pub record AuthEnds {C : Type 0} (w : Peer) (c : C) (key : Option AuthMode)
    (ms : List (Result Error AdbMessage)) (r : AuthRun C) : Type 0 where
  pub one : Answered w key ms r.sent
  pub ends : Ends w c key ms r.sent r.ends

-- One more message in front.
later-Answered :
    (w : Peer) (key : Option AuthMode) (x : Result Error AdbMessage)
    (ms : List (Result Error AdbMessage)) (sent : List AdbMessage)
    → Answered w key ms sent
    → Answered w key (x ∷ ms) sent
later-Answered w none x ms sent h = h
later-Answered w (some key) x ms sent (inl h) = inl h
later-Answered w (some key) x ms sent (inr (m, i, h)) = inr (m, inr i, h)

later-Rejects :
    (w : Peer) (key : Option AuthMode) (x : Result Error AdbMessage)
    (ms : List (Result Error AdbMessage)) (sent : List AdbMessage) (m : AdbMessage)
    → Rejects w key ms sent m
    → Rejects w key (x ∷ ms) sent m
later-Rejects w none x ms sent m (i, h) = (inr i, h)
later-Rejects w (some key) x ms sent m (a, i, h) = (a, inr i, h)

nothing_sent :
    (w : Peer) (key : Option AuthMode) (ms : List (Result Error AdbMessage)) → Answered w key ms []
nothing_sent w none ms = refl
nothing_sent w (some key) ms = inl refl

module _ {C : Type 0} (w : Peer) (c : C) where
  later-Ends :
      (key : Option AuthMode) (x : Result Error AdbMessage) (ms : List (Result Error AdbMessage))
      (sent : List AdbMessage) (e : AuthEnd C)
      → Ends w c key ms sent e
      → Ends w c key (x ∷ ms) sent e
  later-Ends key x ms sent (accepted t) (h, (m, i, a, b)) = (h, (m, inr i, a, b))
  later-Ends key x ms sent (rejected m) (a, h) = (a, later-Rejects w key x ms sent m h)
  later-Ends key x ms sent (failed e) h = tt
  later-Ends key x ms sent waits h = tt

  new_backend-IsStart :
      (b : Banner) → contains (codes "delayed_ack") b.features ≡ true → IsStart c (new_backend c b)
  unfolding lookup
  new_backend-IsStart b h = record {
    connection = refl;
    no_error = refl;
    no_sockets = refl;
    delayed_ack = h;
    coherent = tt;
    linked = record { target = λ id place e. cc };
    fresh = λ id place e. cc;
  }

  with_banner-Ends :
      (key : Option AuthMode) (ms : List (Result Error AdbMessage)) (sent : List AdbMessage)
      (m : AdbMessage) (b : Result Error Banner)
      → Among m ms
      → m.header.command ≡ cnxn
      → parse_banner m.payload ≡ b
      → Ends w c key ms sent (with_banner c b)
  unfolding with_banner
  with_banner-Ends key ms sent m (err e) among is_cnxn parsed = tt
  with_banner-Ends key ms sent m (ok b) among is_cnxn parsed =
      if_cases (Ends w c key ms sent) (contains (codes "delayed_ack") b.features) _ _
        (λ h. (new_backend-IsStart b h, (m, among, is_cnxn, parsed))) (λ h. tt)

  handle_cnxn-Ends :
      (key : Option AuthMode) (ms : List (Result Error AdbMessage)) (sent : List AdbMessage)
      (m : AdbMessage)
      → Among m ms
      → m.header.command ≡ cnxn
      → Ends w c key ms sent (handle_cnxn c m)
  unfolding handle_cnxn
  handle_cnxn-Ends key ms sent m among is_cnxn =
      if_cases (Ends w c key ms sent) (is_utf8 m.payload) _ _
        (λ h. with_banner-Ends key ms sent m (parse_banner m.payload) among is_cnxn refl) (λ h. tt)

  -- The answer to the message `m`, and then a run without a key.
  answered_then :
      (key : AuthMode) (ms : List (Result Error AdbMessage)) (m : AdbMessage)
      (sent : List AdbMessage) (e : AuthEnd C)
      → Answers w key m sent
      → Ends w c none ms [] e
      → Ends w c (some key) (ok m ∷ ms) sent e
  answered_then key ms m sent (accepted t) a (h, (x, i, b, d)) = (h, (x, inr i, b, d))
  answered_then key ms m sent (rejected x) a (is, (i, _)) = (is, (m, inl (refl, i), a))
  answered_then key ms m sent (failed e) a h = tt
  answered_then key ms m sent waits a h = tt

  written-AuthEnds :
      (key : AuthMode) (rest : AuthRun C) (ms : List (Result Error AdbMessage)) (m a : AdbMessage)
      (r : Result Error (Unit {0}))
      → m.header.command ≡ auth
      → answer w key m ≡ ok a
      → AuthEnds w c none ms rest
      → AuthEnds w c (some key) (ok m ∷ ms) (written rest a ms r)
  unfolding written
  written-AuthEnds key rest ms m a (err x) e got h =
      let is : Answers w key m (a ∷ []) = record {
        is_auth = e;
        answered_by = a;
        is_answer = got;
        is_sent = refl;
      } in
      record { one = inr (m, inl refl, is); ends = tt }
  written-AuthEnds key rest ms m a (ok _) e got h =
      let is : Answers w key m (a ∷ rest.sent) = record {
        is_auth = e;
        answered_by = a;
        is_answer = got;
        is_sent = ap (λ s. a ∷ s) h.one;
      } in
      record {
        one = inr (m, inl refl, is);
        ends =
            answered_then key ms m (a ∷ rest.sent) rest.ends is
              (subst (λ s. Ends w c none ms s rest.ends) h.one h.ends);
      }

  answered-AuthEnds :
      (key : AuthMode) (rest : AuthRun C) (ms : List (Result Error AdbMessage)) (m : AdbMessage)
      (r : Result Error AdbMessage)
      → m.header.command ≡ auth
      → answer w key m ≡ r
      → AuthEnds w c none ms rest
      → AuthEnds w c (some key) (ok m ∷ ms) (answered w rest ms r)
  unfolding answered
  answered-AuthEnds key rest ms m (err x) e got h = record { one = inl refl; ends = tt }
  answered-AuthEnds key rest ms m (ok a) e got h =
      written-AuthEnds key rest ms m a (w.write a) e got h

  by_key-AuthEnds :
      (key : Option AuthMode) (rest : Option AuthMode → AuthRun C)
      (ms : List (Result Error AdbMessage)) (m : AdbMessage)
      → m.header.command ≡ auth
      → AuthEnds w c none ms (rest none)
      → AuthEnds w c key (ok m ∷ ms) (by_key w key rest ms m)
  unfolding by_key
  by_key-AuthEnds none rest ms m e h = record { one = refl; ends = (e, (inl refl, refl)) }
  by_key-AuthEnds (some key) rest ms m e h =
      answered-AuthEnds key (rest none) ms m (answer w key m) e refl h

  round-AuthEnds :
      (key : Option AuthMode) (rest : Option AuthMode → AuthRun C)
      (ms : List (Result Error AdbMessage)) (m : AdbMessage) (command : AdbCommand)
      → m.header.command ≡ command
      → ((k : Option AuthMode) → AuthEnds w c k ms (rest k))
      → AuthEnds w c key (ok m ∷ ms) (round w c key rest ms m command)
  unfolding round
  round-AuthEnds key rest ms m auth e h = by_key-AuthEnds key rest ms m e (h none)
  round-AuthEnds key rest ms m cnxn e h = record {
    one = nothing_sent w key (ok m ∷ ms);
    ends = handle_cnxn-Ends key (ok m ∷ ms) [] m (inl refl) e;
  }
  round-AuthEnds key rest ms m _ e h = record {
    one = later-Answered w key (ok m) ms (rest key).sent (h key).one;
    ends = later-Ends key (ok m) ms (rest key).sent (rest key).ends (h key).ends;
  }

  auth_loop-AuthEnds :
      (ms : List (Result Error AdbMessage)) (key : Option AuthMode)
      → AuthEnds w c key ms (auth_loop w c ms key)
  unfolding auth_loop
  auth_loop-AuthEnds [] key = record { one = nothing_sent w key []; ends = tt }
  auth_loop-AuthEnds (err e ∷ ms) key = record { one = nothing_sent w key (err e ∷ ms); ends = tt }
  auth_loop-AuthEnds (ok m ∷ ms) key =
      round-AuthEnds key (auth_loop w c ms) ms m m.header.command refl (auth_loop-AuthEnds ms)

  -- The messages of a run: the one that an earlier run kept, and those of the device.
  abbrev pub messages :
      Option AdbMessage → List (Result Error AdbMessage) → List (Result Error AdbMessage)
  messages none ms = ms
  messages (some m) ms = ok m ∷ ms

  -- A run of `auth` goes through the message that an earlier run kept, if there is one, and those of the
  -- device. It writes nothing, or one message, the answer of its key to an `AUTH` message of these. If
  -- it is rejected, it has written that answer, and the message that it keeps is an `AUTH` message behind
  -- the one that it answered. If it gives a transport, its banner is that of a `CNXN` message of these and
  -- announces delayed acknowledgements, and the transport has the connection of the run, no error, no
  -- sockets, and ids that are free.
  pub authenticate_lem :
      (last : Option AdbMessage) (ms : List (Result Error AdbMessage)) (key : AuthMode)
      → AuthEnds w c (some key) (messages last ms) (authenticate w c last ms key)
  unfolding authenticate
  authenticate_lem none ms key = auth_loop-AuthEnds ms (some key)
  authenticate_lem (some m) ms key = auth_loop-AuthEnds (ok m ∷ ms) (some key)
