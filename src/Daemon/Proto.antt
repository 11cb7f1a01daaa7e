-- ===== src/Daemon/Proto.antt =====
-- `Proto` and `ForwardCommand` of src/forward.rs: forwards and how they are written. An error is the
-- message that the client is shown.
pub mod RoundTrip
use adb_daemon_rs.Base.{
  ℕ, ◌≡◌, ◌↔◌, refl, Bool, true, false, List, [], ◌∷◌, ◌++◌, Bytes, Option, none, some, Result, ok,
  err, ◌>>=◌, ok_or, map_err, Eq, ◌==◌, nat_eq, bytes_eq, bytes_beq, nat_beq, ==_iff, if◌then◌else◌,
  arith,
}
use adb_daemon_rs.Text.{codes, strip_prefix, split_once}
use adb_daemon_rs.Text.Decimal.{print_u16, parse_u16}

abbrev pub Report : Type 0
Report = Bytes

pub data Proto : Type 0 where
  tcp : ℕ → Proto
  other : Bytes → Proto

abbrev pub proto_beq : Proto → Proto → Bool
proto_beq (tcp a) (tcp b) = nat_beq a b
proto_beq (other s) (other t) = bytes_beq s t
proto_beq _ _ = false

pub proto_beq_iff : (a b : Proto) → (proto_beq a b ≡ true) ↔ (a ≡ b)
proto_beq_iff (tcp a) (tcp b) = ground (arith, ==_iff a b)
proto_beq_iff (tcp a) (other t) = ((λ h. cc), (λ h. cc))
proto_beq_iff (other s) (tcp b) = ((λ h. cc), (λ h. cc))
proto_beq_iff (other s) (other t) = ground (arith, ==_iff s t)

instance abbrev pub proto_eq : Eq Proto
proto_eq = record { same = proto_beq; same_decides = proto_beq_iff }

-- `Display`.
unfoldable pub print : Proto → Bytes
unfolding print_u16
print (tcp port) = codes "tcp:" ++ print_u16 port
print (other s) = s

parse_port : Bytes → Option Bytes → Result Report Proto
unfolding parse_u16
parse_port s none = ok (other s)
parse_port s (some port) = do n ← ok_or (parse_u16 port) (codes "parse port"); ok (tcp n)

-- `Proto::parse`.
unfoldable pub parse : Bytes → Result Report Proto
unfolding parse_port strip_prefix
parse s = parse_port s (strip_prefix (codes "tcp:") s)

pub data ForwardCommand : Type 0 where
  add : Proto → Proto → Bool → ForwardCommand
  remove : Proto → ForwardCommand
  remove_all list : ForwardCommand

-- The part of an `Add` behind `forward:` and `norebind:`.
parse_add : Bytes → Bool → Result Report (Option ForwardCommand)
unfolding split_once parse
parse_add service norebind = do
  sides ← ok_or (split_once (codes ";") service) (codes "invalid")
  left ← map_err (λ _. codes "parse local") (parse sides.0)
  right ← map_err (λ _. codes "parse remote") (parse sides.1)
  ok (some (add left right norebind))

parse_rebind : Bytes → Option Bytes → Result Report (Option ForwardCommand)
unfolding parse_add
parse_rebind service none = parse_add service false
parse_rebind service (some rest) = parse_add rest true

parse_plain : Bytes → Result Report (Option ForwardCommand)
parse_plain service =
    if service == codes "killforward-all"
    then ok (some remove_all)
    else if service == codes "list-forward"
    then ok (some list)
    else ok none

parse_kill : Bytes → Option Bytes → Result Report (Option ForwardCommand)
unfolding parse_plain parse
parse_kill service none = parse_plain service
parse_kill service (some rest) = do proto ← parse rest; ok (some (remove proto))

parse_forward : Bytes → Option Bytes → Result Report (Option ForwardCommand)
unfolding parse_rebind parse_kill strip_prefix
parse_forward service (some rest) = parse_rebind rest (strip_prefix (codes "norebind:") rest)
parse_forward service none = parse_kill service (strip_prefix (codes "killforward:") service)

-- `ForwardCommand::parse`.
unfoldable pub parse_command : Bytes → Result Report (Option ForwardCommand)
unfolding parse_forward strip_prefix
parse_command service = parse_forward service (strip_prefix (codes "forward:") service)
