-- ===== src/Daemon/Forward/Tasks/Answers.antt =====
-- What a device gets for the sockets that it opens.
use adb_daemon_rs.Base.{
  ℕ, ◌≡◌, refl, true, false, List, [], ◌∷◌, ◌++◌, Bytes, Result, ok, err, Result-cases, inl, inr,
  if_cases, arith,
}
use adb_daemon_rs.Daemon.Proto.{Report, tcp, parse}
use adb_daemon_rs.Daemon.Forward.{ReverseForwards, handle_reverse, leads_to, admit_socket}
use adb_daemon_rs.Daemon.Forward.Admission.{
  handle_all, kept, SomeOpens, admit_socket-Opens, admitted_names, admit_complete,
}
use adb_daemon_rs.Daemon.Forward.Tasks.{
  Outcome, relays, closes, drops, Round, by_accept, by_connect, by_admission, handle_socket,
  after_accept, accept_sockets_task,
}

-- The service names a local port to which a reverse forward leads now, and to which a client asked
-- for one, and the port can be connected to.
pub record Reaches (asked : List Bytes) (r : Round) (service : Bytes) (port : ℕ) : Type 0 where
  pub names : parse service ≡ ok (tcp port)
  pub leads : leads_to (tcp port) (handle_all [] asked) ≡ true
  pub opens : SomeOpens (tcp port) asked
  pub connects : (u : Unit {0}) × (r.connect port ≡ ok u)

pub data IsAnswer (asked : List Bytes) (r : Round) (service : Bytes) (o : Outcome) : Type 0 where
  relayed :
      (port : ℕ) (u : Unit {0})
      → Reaches asked r service port
      → r.accept ≡ ok u
      → o ≡ relays port
      → IsAnswer asked r service o
  dropped :
      (port : ℕ) (e : Report)
      → Reaches asked r service port
      → r.accept ≡ err e
      → o ≡ drops e
      → IsAnswer asked r service o
  closed :
      (e : Report)
      → ((port : ℕ) → ¬ Reaches asked r service port)
      → o ≡ closes e
      → IsAnswer asked r service o

-- The rounds of the task, with what was asked before, and what it did.
pub data IsTask : List Bytes → List Round → List Outcome → Type 0 where
  goes_on : (asked : List Bytes) → IsTask asked [] []
  gone :
      (asked : List Bytes) (r : Round) (rs : List Round)
      → r.upgraded ≡ false
      → IsTask asked (r ∷ rs) []
  failed :
      (asked : List Bytes) (r : Round) (rs : List Round) (e : Report)
      → r.socket ≡ err e
      → IsTask asked (r ∷ rs) []
  answers :
      (asked : List Bytes) (r : Round) (rs : List Round) (service : Bytes) (o : Outcome)
      (os : List Outcome)
      → r.upgraded ≡ true
      → r.socket ≡ ok service
      → IsAnswer (asked ++ r.asked) r service o
      → IsTask (asked ++ r.asked) rs os
      → IsTask asked (r ∷ rs) (o ∷ os)

handle_all-append :
    (fs : ReverseForwards) (s t : List Bytes)
    → handle_all fs (s ++ t) ≡ handle_all (handle_all fs s) t
unfolding handle_all
handle_all-append fs [] t = refl
handle_all-append fs (x ∷ s) t = handle_all-append (kept fs (handle_reverse fs x)) s t

accepted-IsAnswer :
    (asked : List Bytes) (r : Round) (service : Bytes) (port : ℕ) (a : Result Report (Unit {0}))
    → Reaches asked r service port
    → r.accept ≡ a
    → IsAnswer asked r service (by_accept port a)
unfolding by_accept
accepted-IsAnswer asked r service port (ok u) h is = relayed port u h is refl
accepted-IsAnswer asked r service port (err e) h is = dropped port e h is refl

connected-IsAnswer :
    (asked : List Bytes) (r : Round) (service : Bytes) (port : ℕ) (c : Result Report (Unit {0}))
    → admit_socket (handle_all [] asked) service ≡ ok port
    → r.connect port ≡ c
    → IsAnswer asked r service (by_connect r port c)
unfolding by_connect
connected-IsAnswer asked r service port (ok u) h is =
    let (names, leads) = admitted_names (handle_all [] asked) service port h in
    accepted-IsAnswer asked r service port r.accept
      (record {
        names = names;
        leads = leads;
        opens = (admit_socket-Opens asked service port h).1;
        connects = (u, is);
      })
      refl
connected-IsAnswer asked r service port (err e) h is =
    closed e (λ p reaches. contradiction p reaches) refl
  where
    contradiction : (p : ℕ) → ¬ Reaches asked r service p
    contradiction p reaches =
        let same = admit_complete (handle_all [] asked) service p reaches.names reaches.leads in
        let (u, connects) = reaches.connects in
        let ports : port ≡ p = ground (arith, h, same) in absurd (cc)

handle_socket-IsAnswer :
    (asked : List Bytes) (r : Round) (service : Bytes)
    → IsAnswer asked r service (handle_socket (handle_all [] asked) r service)
unfolding handle_socket by_admission
handle_socket-IsAnswer asked r service =
    elim (Result-cases (admit_socket (handle_all [] asked) service)) [
      | inr (e, is) ↦ rw is (
          closed e
            (λ port h.
              absurd (cc (is, admit_complete (handle_all [] asked) service port h.names h.leads)))
            refl)
      | inl (port, is) ↦ rw is (connected-IsAnswer asked r service port (r.connect port) is refl)
    ]

by_socket :
    (asked : List Bytes) (r : Round) (rs : List Round) (os : List Outcome) (s : Result Report Bytes)
    → r.upgraded ≡ true
    → r.socket ≡ s
    → IsTask (asked ++ r.asked) rs os
    → IsTask asked (r ∷ rs) (after_accept r (handle_all [] (asked ++ r.asked)) os s)
unfolding after_accept
by_socket asked r rs os (err e) up is later = failed asked r rs e is
by_socket asked r rs os (ok service) up is later =
    answers asked r rs service _ os up is (handle_socket-IsAnswer (asked ++ r.asked) r service)
      later

-- Every socket that a device opens is answered once, in order, until the connection is gone or
-- fails. It is relayed to a local port only if its service names this port, a client asked before to
-- forward a port of the device to it, a reverse forward still leads to it, and it can be connected
-- to; then the socket is relayed, or dropped if its acceptance fails. If there is no such port, the
-- socket is closed.
pub accept_sockets_task-IsTask :
    (asked : List Bytes) (rs : List Round)
    → IsTask asked rs (accept_sockets_task (handle_all [] asked) rs)
unfolding accept_sockets_task
accept_sockets_task-IsTask asked [] = goes_on asked
accept_sockets_task-IsTask asked (r ∷ rs) =
    let later = accept_sockets_task-IsTask (asked ++ r.asked) rs in
    rw⁻¹ (handle_all-append [] asked r.asked) (
      if_cases (IsTask asked (r ∷ rs)) r.upgraded _ _
        (λ up. by_socket asked r rs _ r.socket up refl later) (λ down. gone asked r rs down))
