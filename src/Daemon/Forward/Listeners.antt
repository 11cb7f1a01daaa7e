-- ===== src/Daemon/Forward/Listeners.antt =====
-- What forward requests do to the listeners, and which of them are alive.
use adb_daemon_rs.Base.{
  ℕ, ◌≡◌, ◌≢◌, refl, ◌∙◌, ◌⊎◌, inl, inr, Bool, true, false, ◌&&◌, [], ◌∷◌, Option, none, some,
  Result, ok, err, ◌==◌, ==_iff, ==_refl, nat_eq, if◌then◌else◌, if_cases, arith, All, not,
}
use mathlib.Core.Bool.{false≢true}
use adb_daemon_rs.Base.Map.{lookup, insert, lookup-insert}
use adb_daemon_rs.Text.{codes}
use adb_daemon_rs.Daemon.Proto.{Report, Proto, tcp, proto_eq, add}
use adb_daemon_rs.Daemon.Forward.{
  Forward, Listeners, Surroundings, clean_forwards, replies, Request, bound, add_to, add_picked,
  add_forward, run_command,
}

-- The listeners `after` have the forward `f` at the port `p`, and are else as `before`.
pub record Sets (before after : Listeners) (p : ℕ) (f : Forward) : Type 0 where
  pub hit : lookup (tcp p) after ≡ some f
  pub others : (q : Proto) → q ≢ tcp p → lookup q after ≡ lookup q before

insert-Sets : (ls : Listeners) (p : ℕ) (f : Forward) → Sets ls (insert (tcp p) f ls) p f
insert-Sets ls p f = record {
  hit = lookup-insert (tcp p) (tcp p) f ls ∙ rw (==_refl {A = Proto} (tcp p));
  others = λ q ne. ground (arith, lookup-insert (tcp p) q f ls, ==_iff {A = Proto} (tcp p) q);
}

-- How a request to forward a port ends, from listeners that were cleaned.
pub data AddEnds (w : Surroundings) (ls : Listeners) (port : ℕ) (remote : Proto) (norebind : Bool)
    (r : Request) : Type 0 where
  not_picked :
      (e : Report) → w.picked ≡ err e → r ≡ (err e, ls) → AddEnds w ls port remote norebind r
  refuses_rebind :
      (conn : ℕ) (f : Forward)
      → w.picked ≡ ok conn
      → norebind ≡ true
      → port ≢ 0
      → lookup (tcp port) ls ≡ some f
      → r ≡ (err (codes "already bound"), ls)
      → AddEnds w ls port remote norebind r
  rebinds :
      (conn : ℕ) (f : Forward)
      → w.picked ≡ ok conn
      → norebind ≡ false
      → port ≢ 0
      → lookup (tcp port) ls ≡ some f
      → r.0 ≡ ok (replies none)
      → Sets ls r.1 port (record { conn = conn; remote = remote })
      → AddEnds w ls port remote norebind r
  binds :
      (conn p : ℕ)
      → w.picked ≡ ok conn
      → (port ≡ 0) ⊎ (lookup (tcp port) ls ≡ none)
      → w.bind port ≡ ok p
      → r.0 ≡ ok (replies (if port == 0 then some p else none))
      → Sets ls r.1 p (record { conn = conn; remote = remote })
      → AddEnds w ls port remote norebind r
  cannot_bind :
      (conn : ℕ) (e : Report)
      → w.picked ≡ ok conn
      → (port ≡ 0) ⊎ (lookup (tcp port) ls ≡ none)
      → w.bind port ≡ err e
      → r ≡ (err e, ls)
      → AddEnds w ls port remote norebind r

bound_ends :
    (w : Surroundings) (ls : Listeners) (conn port : ℕ) (remote : Proto) (norebind : Bool)
    (b : Result Report ℕ)
    → w.picked ≡ ok conn
    → (port ≡ 0) ⊎ (lookup (tcp port) ls ≡ none)
    → w.bind port ≡ b
    → AddEnds w ls port remote norebind (bound ls (record { conn = conn; remote = remote }) port b)
unfolding bound
bound_ends w ls conn port remote norebind (err e) picked free b =
    cannot_bind conn e picked free b refl
bound_ends w ls conn port remote norebind (ok p) picked free b =
    binds conn p picked free b refl (insert-Sets ls p (record { conn = conn; remote = remote }))

add_to_ends :
    (w : Surroundings) (ls : Listeners) (conn port : ℕ) (remote : Proto) (norebind : Bool)
    (o : Option Forward)
    → w.picked ≡ ok conn
    → lookup (tcp port) ls ≡ o
    → AddEnds w ls port remote norebind
        (add_to w ls (record { conn = conn; remote = remote }) port norebind o)
unfolding add_to
add_to_ends w ls conn port remote norebind none picked found =
    bound_ends w ls conn port remote norebind (w.bind port) picked (inr found) refl
add_to_ends w ls conn port remote norebind (some f) picked found =
    if_cases (AddEnds w ls port remote norebind) (port == 0) _ _
      (λ z.
        bound_ends w ls conn port remote norebind (w.bind port) picked (inl ((==_iff port 0).0 z))
          refl)
      (λ nz.
        if_cases (AddEnds w ls port remote norebind) norebind _ _
          (λ n. refuses_rebind conn f picked n (λ z. cc (nz, (==_iff port 0).1 z)) found refl)
          (λ n.
            rebinds conn f picked n (λ z. cc (nz, (==_iff port 0).1 z)) found refl
              (insert-Sets ls port (record { conn = conn; remote = remote }))))

add_picked_ends :
    (w : Surroundings) (ls : Listeners) (port : ℕ) (remote : Proto) (norebind : Bool)
    (picked : Result Report ℕ)
    → w.picked ≡ picked
    → AddEnds w ls port remote norebind (add_picked w ls port remote norebind picked)
unfolding add_picked
add_picked_ends w ls port remote norebind (err e) h = not_picked e h refl
add_picked_ends w ls port remote norebind (ok conn) h =
    add_to_ends w ls conn port remote norebind (lookup (tcp port) ls) h refl

-- A request to forward a local port first drops the dead listeners. If no device can be picked, it
-- fails with that error. Else, if the request names a port that has a listener, it fails with
-- `norebind`; without, that listener gets the new target and stays where it is. Else the port is bound:
-- if that fails, the request fails with that error, and else there is a new listener, whose port is told
-- to the client exactly if the client asked for any port. A request that fails leaves the listeners as
-- they are, and no other listener changes if it does not.
pub add_ends :
    (w : Surroundings) (ls : Listeners) (port : ℕ) (remote : Proto) (norebind : Bool)
    → AddEnds w
        (clean_forwards w ls)
        port
        remote
        norebind
        (run_command w ls (add (tcp port) remote norebind))
unfolding run_command add_forward
add_ends w ls port remote norebind =
    add_picked_ends w (clean_forwards w ls) port remote norebind w.picked refl

both_not : (a b : Bool) → (not a && not b) ≡ true → (a ≡ false) × (b ≡ false)
both_not false false h = (refl, refl)
both_not false true h = absurd (false≢true h)
both_not true b h = absurd (false≢true h)

-- A forward that is alive.
abbrev pub IsAlive : Surroundings → Proto × Forward → Type 0
IsAlive w (local, f) = (w.conn_closed f.conn ≡ false) × (w.task_finished local ≡ false)

clean_forwards-All : (w : Surroundings) (ls : Listeners) → All (IsAlive w) (clean_forwards w ls)
unfolding clean_forwards
clean_forwards-All w [] = tt
clean_forwards-All w ((local, f) ∷ ls) =
    if_cases (All (IsAlive w)) (not (w.conn_closed f.conn) && not (w.task_finished local))
      ((local, f) ∷ clean_forwards w ls) (clean_forwards w ls)
      (λ h. (both_not _ _ h, clean_forwards-All w ls)) (λ h. clean_forwards-All w ls)
