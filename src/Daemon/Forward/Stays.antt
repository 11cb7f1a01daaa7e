-- ===== src/Daemon/Forward/Stays.antt =====
-- How long a forward lasts, and where it leads.
use adb_daemon_rs.Base.{
  ℕ, ◌≡◌, ◌≢◌, refl, sym, ap, ◌∙◌, ◌⊎◌, inl, inr, Bool, true, false, List, [], ◌∷◌, Bytes, Option,
  none, some, Result, ok, err, ◌==◌, ==_iff, nat_eq, if◌then◌else◌, arith,
}
use adb_daemon_rs.Base.Map.{lookup, lookup-remove}
use adb_daemon_rs.Daemon.Proto.{
  Report, Proto, tcp, other, proto_eq, print, ForwardCommand, add, remove_all, list, parse_command,
}
use adb_daemon_rs.Daemon.Proto
use adb_daemon_rs.Daemon.Forward.{
  Forward, Listeners, Surroundings, Piece, replies, clean_forwards, run_command, by_parse,
  handle_forward, add_forward,
}
use adb_daemon_rs.Daemon.Forward.Listeners.{
  AddEnds, not_picked, cannot_bind, refuses_rebind, rebinds, binds, add_ends,
}
use adb_daemon_rs.Daemon.Forward.Tasks.{Arrival, relayed, forward_task}

-- The listeners behind a sequence of requests, each with what the surroundings answer to it.
unfoldable pub request_all : Listeners → List (Surroundings × Bytes) → Listeners
unfolding handle_forward
request_all ls [] = ls
request_all ls ((w, service) ∷ rs) = request_all (handle_forward w ls service).1 rs

-- The command does not concern the port; the system does not bind a port twice.
abbrev pub SparesCommand : Surroundings → ℕ → ForwardCommand → Type 0
SparesCommand w p (add (tcp q) remote norebind) = (q ≢ p) × (w.bind q ≢ ok p)
SparesCommand w p (add (other s) remote norebind) = Unit
SparesCommand w p (Proto.remove proto) = proto ≢ tcp p
SparesCommand w p remove_all = ⊥
SparesCommand w p list = Unit

-- At the request the connection and the task of the forward are alive, and the command spares it.
pub record Spares (w : Surroundings) (service : Bytes) (p : ℕ) (conn : ℕ) : Type 0 where
  pub conn_open : w.conn_closed conn ≡ false
  pub task_runs : w.task_finished (tcp p) ≡ false
  pub spares : (c : ForwardCommand) → parse_command service ≡ ok (some c) → SparesCommand w p c

abbrev pub AllSpare : List (Surroundings × Bytes) → ℕ → ℕ → Type 0
AllSpare [] p conn = Unit
AllSpare ((w, service) ∷ rs) p conn = Spares w service p conn × AllSpare rs p conn

module _ (w : Surroundings) (p : ℕ) (f : Forward) (conn_open : w.conn_closed f.conn ≡ false)
    (task_runs : w.task_finished (tcp p) ≡ false) where
  lookup-clean_forwards :
      (ls : Listeners) → lookup (tcp p) ls ≡ some f → lookup (tcp p) (clean_forwards w ls) ≡ some f
  unfolding lookup clean_forwards
  lookup-clean_forwards [] h = h
  lookup-clean_forwards ((local, g) ∷ ls) h = ground (
    arith,
    h,
    conn_open,
    task_runs,
    lookup-clean_forwards ls,
    ==_iff {A = Proto} local (tcp p),
    ==_iff {A = Proto} (tcp p) local,
  )

  add_stays :
      (ls : Listeners) (q : ℕ) (remote : Proto) (norebind : Bool)
      (r : Result Report (List Piece) × Listeners)
      → AddEnds w ls q remote norebind r
      → q ≢ p
      → w.bind q ≢ ok p
      → lookup (tcp p) ls ≡ some f
      → lookup (tcp p) r.1 ≡ some f
  add_stays ls q remote norebind r (not_picked e x is) other_port free h = rw is h
  add_stays ls q remote norebind r (cannot_bind c e x z b is) other_port free h = rw is h
  add_stays ls q remote norebind r (refuses_rebind c g x n z found is) other_port free h = rw is h
  add_stays ls q remote norebind r (rebinds conn g picked n z found is sets) other_port free h =
      sets.others (tcp p) (λ same. other_port (ground (arith, same))) ∙ h
  add_stays ls q remote norebind r (binds conn b picked z bound is sets) other_port free h =
      sets.others (tcp p) (λ same. free (bound ∙ ap ok (ground (arith, same)))) ∙ h

  command_stays :
      (ls : Listeners) (c : ForwardCommand)
      → SparesCommand w p c
      → lookup (tcp p) ls ≡ some f
      → lookup (tcp p) (run_command w ls c).1 ≡ some f
  unfolding run_command
  command_stays ls (add (tcp q) remote norebind) (other_port, free) h =
      add_stays (clean_forwards w ls) q remote norebind _
        (unfold run_command in add_ends w ls q remote norebind) other_port free
        (lookup-clean_forwards ls h)
  command_stays ls (add (other s) remote norebind) spares h =
      unfold add_forward in lookup-clean_forwards ls h
  command_stays ls (Proto.remove proto) other_port h = ground (
    arith,
    lookup-remove proto (tcp p) (clean_forwards w ls),
    lookup-clean_forwards ls h,
    ==_iff {A = Proto} proto (tcp p),
    other_port,
  )
  command_stays ls remove_all spares h = absurd spares
  command_stays ls list spares h = lookup-clean_forwards ls h

  parsed_stays :
      (ls : Listeners) (r : Result Report (Option ForwardCommand))
      → ((c : ForwardCommand) → r ≡ ok (some c) → SparesCommand w p c)
      → lookup (tcp p) ls ≡ some f
      → lookup (tcp p) (by_parse w ls r).1 ≡ some f
  unfolding by_parse
  parsed_stays ls (err e) spares h = h
  parsed_stays ls (ok none) spares h = h
  parsed_stays ls (ok (some c)) spares h = command_stays ls c (spares c refl) h

request_all-stays :
    (ls : Listeners) (p : ℕ) (f : Forward) (rs : List (Surroundings × Bytes))
    → AllSpare rs p f.conn
    → lookup (tcp p) ls ≡ some f
    → lookup (tcp p) (request_all ls rs) ≡ some f
unfolding request_all handle_forward
request_all-stays ls p f [] spare h = h
request_all-stays ls p f ((w, service) ∷ rs) (now, later) h =
    request_all-stays (handle_forward w ls service).1 p f rs later
      (parsed_stays w p f now.conn_open now.task_runs ls (parse_command service) now.spares h)

-- The port of a forward that is added: the listener's that is there, or what the system binds.
abbrev pub place : Surroundings → ℕ → Option Forward → Result Report ℕ
place w port none = w.bind port
place w port (some g) = if port == 0 then w.bind port else ok port

target_relays :
    (conn : ℕ) (remote : Proto) (a : Arrival) (u : Unit {0})
    → a.target ≡ record { conn = conn; remote = remote }
    → a.accepted ≡ true
    → a.upgraded conn ≡ true
    → a.open_socket conn (print remote) ≡ ok u
    → forward_task (a ∷ []) ≡ relayed conn (print remote) ∷ []
unfolding forward_task
target_relays conn remote a u target accepted upgraded opened =
    simp (target, accepted, upgraded, opened) refl

some_target : (t f : Forward) → some t ≡ some f → t ≡ f
some_target t f h = cc

ok_value : (b p : ℕ) → ◌≡◌ {A = Result Report ℕ} (ok b) (ok p) → b ≡ p
ok_value b p h = cc

place_bound :
    (w : Surroundings) (ls : Listeners) (port : ℕ) (o : Option Forward)
    → (port ≡ 0) ⊎ (o ≡ none)
    → place w port o ≡ w.bind port
place_bound w ls port none z = refl
place_bound w ls port (some g) (inl z) = ground (arith, z, ==_iff port 0)
place_bound w ls port (some g) (inr z) = absurd (cc)

by_end :
    (w : Surroundings) (ls : Listeners) (port : ℕ) (remote : Proto) (norebind : Bool)
    (r : Result Report (List Piece) × Listeners) (out : List Piece) (conn p : ℕ)
    → AddEnds w ls port remote norebind r
    → r.0 ≡ ok out
    → w.picked ≡ ok conn
    → place w port (lookup (tcp port) ls) ≡ ok p
    → (out ≡ replies (if port == 0 then some p else none))
      × (lookup (tcp p) r.1 ≡ some (record { conn = conn; remote = remote }))
by_end w ls port remote norebind r out conn p (not_picked e x is) h pick at = absurd (cc)
by_end w ls port remote norebind r out conn p (cannot_bind c e x z b is) h pick at = absurd (cc)
by_end w ls port remote norebind r out conn p (refuses_rebind c g x n z found is) h pick at =
    absurd (cc)
by_end w ls port remote norebind r out conn p (rebinds c g picked n z found is sets) h pick at =
    let same : port ≡ p = ground (arith, z, found, at, ==_iff port 0) in
    let conns : c ≡ conn = ok_value c conn (sym picked ∙ pick) in
    (ground (arith, z, is, h, ==_iff port 0), rw⁻¹ same (rw⁻¹ conns sets.hit))
by_end w ls port remote norebind r out conn p (binds c b picked z bound is sets) h pick at =
    let same : b ≡ p =
      ok_value b p (sym bound ∙ sym (place_bound w ls port (lookup (tcp port) ls) z) ∙ at) in
    let conns : c ≡ conn = ok_value c conn (sym picked ∙ pick) in
    (ground (arith, is, h, same), rw⁻¹ same (rw⁻¹ conns sets.hit))

-- If a request to forward a local port succeeds, the client is told the port exactly if it asked for any
-- port. And after any further requests, as long as the connection and the task of the forward are alive
-- at each, none of them adds a forward at this port or removes it, and the system does not bind the port
-- again: a client that arrives at the port, where a listener was or which the system bound, is relayed
-- to the wanted service of the connection that the request picked, if that can be upgraded and the
-- service opened.
pub added_relays :
    (w : Surroundings) (ls : Listeners) (port : ℕ) (remote : Proto) (norebind : Bool)
    (out : List Piece) (conn p : ℕ) (rs : List (Surroundings × Bytes)) (a : Arrival) (u : Unit {0})
    → (run_command w ls (add (tcp port) remote norebind)).0 ≡ ok out
    → w.picked ≡ ok conn
    → place w port (lookup (tcp port) (clean_forwards w ls)) ≡ ok p
    → AllSpare rs p conn
    → lookup (tcp p) (request_all (run_command w ls (add (tcp port) remote norebind)).1 rs)
      ≡ some a.target
    → a.accepted ≡ true
    → a.upgraded conn ≡ true
    → a.open_socket conn (print remote) ≡ ok u
    → (out ≡ replies (if port == 0 then some p else none))
      × (forward_task (a ∷ []) ≡ relayed conn (print remote) ∷ [])
added_relays w ls port remote norebind out conn p rs a u h pick at spare found =
    let f : Forward = record { conn = conn; remote = remote } in
    let after = (run_command w ls (add (tcp port) remote norebind)).1 in
    let (told, hit) =
      by_end w (clean_forwards w ls) port remote norebind _ out conn p
        (add_ends w ls port remote norebind) h pick at in
    let target = some_target a.target f (sym found ∙ request_all-stays after p f rs spare hit) in
    λ accepted upgraded opened.
      (told, target_relays conn remote a u target accepted upgraded opened)
