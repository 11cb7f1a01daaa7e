-- ===== src/Daemon/Proto/RoundTrip.antt =====
-- Commands as clients write them, and what the daemon reads.
use adb_daemon_rs.Base.{
  ℕ, ◌≤◌, ◌≡◌, refl, Bool, true, false, [], ◌∷◌, ◌++◌, Bytes, All, none, some, ok, bytes_eq,
  if◌then◌else◌, arith,
}
use adb_daemon_rs.Text.{codes, strip_prefix}
use adb_daemon_rs.Text.Laws.{Lacks, split_once-append}
use adb_daemon_rs.Text.Decimal.{parse_u16-print_u16, print_u16-All, IsDigit}
use adb_daemon_rs.Daemon.Proto.{
  Proto, tcp, other, print, parse, parse_port, ForwardCommand, add, remove, remove_all, list,
  parse_command, parse_forward, parse_rebind, parse_add, parse_kill, parse_plain,
}

-- A `tcp` port is a `u16`; any other protocol does not look like one.
abbrev pub IsProto : Proto → Type 0
IsProto (tcp port) = port ≤ 65535
IsProto (other s) = strip_prefix (codes "tcp:") s ≡ none

-- Every protocol is read back from its print.
pub parse-print : (p : Proto) → IsProto p → parse (print p) ≡ ok p
unfolding parse print parse_port
parse-print (tcp port) h = rw (parse_u16-print_u16 port h)
parse-print (other s) h = rw h

-- The first side of a pair: it holds no `;`, and does not start like the word `norebind:`.
pub record IsFirst (p : Proto) : Type 0 where
  pub valid : IsProto p
  pub lacks : Lacks b';' (print p)
  pub unlike : (rest : Bytes) → strip_prefix (codes "norebind:") (print p ++ rest) ≡ none

digits-Lacks : (s : Bytes) → All IsDigit s → Lacks b';' s
digits-Lacks [] h = tt
digits-Lacks (c ∷ s) (hc, hs) = (omega arith, digits-Lacks s hs)

pub tcp-IsFirst : (port : ℕ) → port ≤ 65535 → IsFirst (tcp port)
unfolding print strip_prefix
tcp-IsFirst port h = record {
  valid = h;
  lacks = (
    omega arith,
    (omega arith, (omega arith, (omega arith, digits-Lacks _ (print_u16-All port)))),
  );
  unlike = λ rest. refl;
}

-- How a client writes a command.
abbrev pub written : ForwardCommand → Bytes
written (add left right norebind) =
    codes "forward:"
    ++ ((if norebind then codes "norebind:" else []) ++ (print left ++ (b';' ∷ print right)))
written (remove proto) = codes "killforward:" ++ print proto
written remove_all = codes "killforward-all"
written list = codes "list-forward"

abbrev pub IsCommand : ForwardCommand → Type 0
IsCommand (add left right norebind) = IsFirst left × IsProto right
IsCommand (remove proto) = IsProto proto
IsCommand remove_all = Unit
IsCommand list = Unit

parse_add-written :
    (left right : Proto) (norebind : Bool)
    → IsFirst left
    → IsProto right
    → parse_add (print left ++ (b';' ∷ print right)) norebind ≡ ok (some (add left right norebind))
unfolding parse_add
parse_add-written left right norebind l r = rw (
  split_once-append b';' (print left) (print right) l.lacks,
  parse-print left l.valid,
  parse-print right r,
)

parse_rebind-written :
    (left right : Proto) (norebind : Bool)
    → IsFirst left
    → IsProto right
    → let s =
        (if norebind then codes "norebind:" else []) ++ (print left ++ (b';' ∷ print right)) in
      parse_rebind s (strip_prefix (codes "norebind:") s) ≡ ok (some (add left right norebind))
unfolding parse_rebind
parse_rebind-written left right true l r = parse_add-written left right true l r
parse_rebind-written left right false l r =
    rw (l.unlike (b';' ∷ print right)) (parse_add-written left right false l r)

-- Every command that a client can write is read as it was meant.
pub parse_command-written :
    (c : ForwardCommand) → IsCommand c → parse_command (written c) ≡ ok (some c)
unfolding parse_command parse_forward
parse_command-written (add left right norebind) h = parse_rebind-written left right norebind h.0 h.1
parse_command-written (remove proto) h = unfold strip_prefix parse_kill in rw (parse-print proto h)
parse_command-written remove_all h = unfold strip_prefix parse_kill parse_plain in refl
parse_command-written list h = unfold strip_prefix parse_kill parse_plain in refl
