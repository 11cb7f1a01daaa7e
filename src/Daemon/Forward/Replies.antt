-- ===== src/Daemon/Forward/Replies.antt =====
-- What a forward command writes starts with a status.
use adb_daemon_rs.Base.{
  ℕ, ◌≡◌, refl, sym, ap, ◌∙◌, Bool, true, false, List, ◌∷◌, Bytes, Option, none, some, Result, ok,
  err, nat_eq, ◌==◌, if_cases,
}
use adb_daemon_rs.Base.Map.{lookup}
use adb_daemon_rs.Daemon.Proto.{
  Report, Proto, tcp, other, ForwardCommand, add, remove_all, list, parse_command, proto_eq,
}
use adb_daemon_rs.Daemon.Proto
use adb_daemon_rs.Daemon.Forward.{
  Forward, Listeners, Surroundings, Piece, status_okay, status_fail, replies, Request, bound,
  add_to, add_picked, add_forward, clean_forwards, run_command, by_parse, handle_forward,
}

abbrev pub status_first : List Piece → Bool
status_first (status_okay ∷ ps) = true
status_first (status_fail ∷ ps) = true
status_first _ = false

abbrev First : Result Report (List Piece) → Type 0
First (ok ps) = status_first ps ≡ true
First (err e) = Unit

replies_first : (o : Option ℕ) → status_first (replies o) ≡ true
replies_first none = refl
replies_first (some port) = refl

bound-First :
    (ls : Listeners) (f : Forward) (port : ℕ) (r : Result Report ℕ) → First (bound ls f port r).0
unfolding bound
bound-First ls f port (err e) = tt
bound-First ls f port (ok p) = replies_first _

add_to-First :
    (w : Surroundings) (ls : Listeners) (f : Forward) (port : ℕ) (norebind : Bool)
    (o : Option Forward)
    → First (add_to w ls f port norebind o).0
unfolding add_to
add_to-First w ls f port norebind none = bound-First ls f port (w.bind port)
add_to-First w ls f port norebind (some old) =
    if_cases (λ (r : Request). First r.0) (port == 0) _ _ (λ _. bound-First ls f port (w.bind port))
      (λ _. if_cases (λ (r : Request). First r.0) norebind _ _ (λ _. tt) (λ _. refl))

add_forward-First :
    (w : Surroundings) (ls : Listeners) (local remote : Proto) (norebind : Bool)
    → First (add_forward w ls local remote norebind).0
unfolding add_forward add_picked
add_forward-First w ls (other s) remote norebind = tt
add_forward-First w ls (tcp port) remote norebind = by_pick w.picked
  where
    by_pick : (r : Result Report ℕ) → First (add_picked w ls port remote norebind r).0
    by_pick (err e) = tt
    by_pick (ok conn) = add_to-First w ls _ port norebind (lookup (tcp port) ls)

run_command-First :
    (w : Surroundings) (ls : Listeners) (c : ForwardCommand) → First (run_command w ls c).0
unfolding run_command
run_command-First w ls (add local remote norebind) =
    add_forward-First w (clean_forwards w ls) local remote norebind
run_command-First w ls (Proto.remove proto) = refl
run_command-First w ls remove_all = refl
run_command-First w ls list = refl

pub handle_forward_first :
    (w : Surroundings) (ls : Listeners) (service : Bytes) (ps : List Piece)
    → (handle_forward w ls service).0 ≡ some (ok ps)
    → status_first ps ≡ true
unfolding handle_forward by_parse
handle_forward_first w ls service ps e = by_command (parse_command service) e
  where
    known :
        (r : Result Report (List Piece)) → First r → some r ≡ some (ok ps) → status_first ps ≡ true
    known (err x) f e = cc
    known (ok qs) f e = let same : qs ≡ ps = cc in ap status_first (sym same) ∙ f

    by_command :
        (r : Result Report (Option ForwardCommand))
        → (by_parse w ls r).0 ≡ some (ok ps)
        → status_first ps ≡ true
    by_command (err x) e = cc
    by_command (ok none) e = cc
    by_command (ok (some c)) e = known (run_command w ls c).0 (run_command-First w ls c) e
