-- ===== src/Daemon/Forward/Admission.antt =====
-- Which local ports a device may reach.
use adb_daemon_rs.Base.{
  ℕ, ◌≡◌, refl, sym, ap, ◌∙◌, ◌⊎◌, inl, inr, Bool, true, ◌&&◌, List, [], ◌∷◌, Bytes, Option, none,
  some, Result, ok, err, ◌==◌, ==_iff, if_cases, Bool-cases, arith,
}
use mathlib.Core.Bool.{false≢true}
use adb_daemon_rs.Base.Map.{insert, remove, lookup}
use adb_daemon_rs.Text.{codes, strip_prefix}
use adb_daemon_rs.Daemon.Proto.{
  Report, Proto, tcp, other, proto_eq, parse, ForwardCommand, add, remove_all, list, parse_command,
}
use adb_daemon_rs.Daemon.Proto
use adb_daemon_rs.Daemon.Forward.{
  ReverseForwards, has_key, reverse_command, reverse_parsed, reverse_service, handle_reverse,
  leads_to, admit, admit_socket,
}

-- The forwards behind a request, which stay as they are if it fails.
abbrev pub kept : ReverseForwards → Result Report ReverseForwards → ReverseForwards
kept fs (ok gs) = gs
kept fs (err e) = fs

-- The forwards behind a sequence of requests.
unfoldable pub handle_all : ReverseForwards → List Bytes → ReverseForwards
unfolding handle_reverse
handle_all fs [] = fs
handle_all fs (service ∷ services) = handle_all (kept fs (handle_reverse fs service)) services

-- The request is a command to forward to `local`.
pub record Opens (local : Proto) (service : Bytes) : Type 0 where
  pub command : Bytes
  pub remote : Proto
  pub norebind : Bool
  pub is_reverse : strip_prefix (codes "reverse:") service ≡ some command
  pub is_add : parse_command command ≡ ok (some (add remote local norebind))

abbrev pub SomeOpens : Proto → List Bytes → Type 0
SomeOpens local [] = ⊥
SomeOpens local (service ∷ services) = Opens local service ⊎ SomeOpens local services

leads_to-remove :
    (p k : Proto) (fs : ReverseForwards) → leads_to p (remove k fs) ≡ true → leads_to p fs ≡ true
unfolding leads_to remove
leads_to-remove p k [] h = h
leads_to-remove p k ((remote, local) ∷ fs) h = ground (arith, leads_to-remove p k fs)

leads_to-insert :
    (p k v : Proto) (fs : ReverseForwards)
    → leads_to p (insert k v fs) ≡ true
    → (leads_to p fs ≡ true) ⊎ (v ≡ p)
unfolding leads_to insert
leads_to-insert p k v fs h = elim (Bool-cases (v == p)) [
  | inl e ↦ inr ((==_iff v p).0 e)
  | inr e ↦ inl (leads_to-remove p k fs (ground arith))
]

-- What a command adds to the local ports that are led to.
reverse_command-leads_to :
    (p : Proto) (fs : ReverseForwards) (c : ForwardCommand)
    → leads_to p (kept fs (reverse_command fs c)) ≡ true
    → (leads_to p fs ≡ true) ⊎ ((remote : Proto) × (norebind : Bool) × (c ≡ add remote p norebind))
unfolding reverse_command
reverse_command-leads_to p fs (add remote local norebind) =
    if_cases
      (λ r.
        leads_to p (kept fs r) ≡ true
        → (leads_to p fs ≡ true)
          ⊎ ((remote' : Proto) × (norebind' : Bool) × (add remote local norebind
                ≡ add remote' p norebind')))
      (norebind && has_key (lookup remote fs)) _ _ (λ e h. inl h)
      (λ e h. elim (leads_to-insert p remote local fs h) [
        | inl before ↦ inl before
        | inr same ↦ inr (remote, norebind, ap (λ v. add remote v norebind) same)
      ])
reverse_command-leads_to p fs (Proto.remove proto) = λ h. inl (leads_to-remove p proto fs h)
reverse_command-leads_to p fs remove_all = unfold leads_to in λ h. cc
reverse_command-leads_to p fs list = λ h. inl h

reverse_parsed-leads_to :
    (p : Proto) (fs : ReverseForwards) (service command : Bytes)
    (r : Result Report (Option ForwardCommand))
    → strip_prefix (codes "reverse:") service ≡ some command
    → parse_command command ≡ r
    → leads_to p (kept fs (reverse_parsed fs r)) ≡ true
    → (leads_to p fs ≡ true) ⊎ Opens p service
unfolding reverse_parsed
reverse_parsed-leads_to p fs service command (err e) s q h = inl h
reverse_parsed-leads_to p fs service command (ok none) s q h = inl h
reverse_parsed-leads_to p fs service command (ok (some c)) s q h =
    elim (reverse_command-leads_to p fs c h) [
      | inl before ↦ inl before
      | inr (remote, norebind, e) ↦ inr (record {
        command = command;
        remote = remote;
        norebind = norebind;
        is_reverse = s;
        is_add = q ∙ ap (λ c. ok (some c)) e;
      })
    ]

reverse_service-leads_to :
    (p : Proto) (fs : ReverseForwards) (service : Bytes) (o : Option Bytes)
    → strip_prefix (codes "reverse:") service ≡ o
    → leads_to p (kept fs (reverse_service fs o)) ≡ true
    → (leads_to p fs ≡ true) ⊎ Opens p service
unfolding reverse_service
reverse_service-leads_to p fs service none s h = inl h
reverse_service-leads_to p fs service (some command) s h =
    reverse_parsed-leads_to p fs service command (parse_command command) s refl h

handle_all-leads_to :
    (p : Proto) (fs : ReverseForwards) (services : List Bytes)
    → leads_to p (handle_all fs services) ≡ true
    → (leads_to p fs ≡ true) ⊎ SomeOpens p services
unfolding handle_all
handle_all-leads_to p fs [] h = inl h
handle_all-leads_to p fs (service ∷ services) h =
    elim (handle_all-leads_to p (kept fs (handle_reverse fs service)) services h) [
      | inr later ↦ inr (inr later)
      | inl now ↦
          elim (reverse_service-leads_to p fs service (strip_prefix (codes "reverse:") service) refl
            now) [ inl before ↦ inl before | inr opens ↦ inr (inl opens) ]
    ]

pub admit_complete :
    (fs : ReverseForwards) (service : Bytes) (port : ℕ)
    → parse service ≡ ok (tcp port)
    → leads_to (tcp port) fs ≡ true
    → admit_socket fs service ≡ ok port
unfolding admit_socket admit
admit_complete fs service port named led = rw (named, led) refl

admit_sound :
    (fs : ReverseForwards) (r : Result Report Proto) (port : ℕ)
    → admit fs r ≡ ok port
    → (r ≡ ok (tcp port)) × (leads_to (tcp port) fs ≡ true)
unfolding admit
admit_sound fs (err e) port h = cc
admit_sound fs (ok (other s)) port h = cc
admit_sound fs (ok (tcp n)) port h = elim (Bool-cases (leads_to (tcp n) fs)) [
  | inl e ↦
      let same : n ≡ port = ground arith in
      (ap (λ k. ok (tcp k)) same, ap (λ k. leads_to (tcp k) fs) (sym same) ∙ e)
  | inr e ↦ absurd (ground arith)
]

pub admitted_names :
    (fs : ReverseForwards) (service : Bytes) (port : ℕ)
    → admit_socket fs service ≡ ok port
    → (parse service ≡ ok (tcp port)) × (leads_to (tcp port) fs ≡ true)
unfolding admit_socket
admitted_names fs service port h = admit_sound fs (parse service) port h

-- A device reaches a local port only if the service that it names is that port, and a client of this
-- device asked before, in a command that was read as such, to forward a port of the device to it.
pub admit_socket-Opens :
    (services : List Bytes) (service : Bytes) (port : ℕ)
    → admit_socket (handle_all [] services) service ≡ ok port
    → (parse service ≡ ok (tcp port)) × SomeOpens (tcp port) services
unfolding admit_socket
admit_socket-Opens services service port h =
    let (named, led) = admit_sound (handle_all [] services) (parse service) port h in
    (
      named,
      elim (handle_all-leads_to (tcp port) [] services led) [
        | inl e ↦ absurd (unfold leads_to in false≢true e)
        | inr opens ↦ opens
      ],
    )
