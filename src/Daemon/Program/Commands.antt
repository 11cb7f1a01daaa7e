-- ===== src/Daemon/Program/Commands.antt =====
-- The commands of the shim: the other `adb`, and the server.
use adb_daemon_rs.Base.{
  ◌≡◌, ◌≢◌, refl, sym, ap, ◌∙◌, ok_or, map_err, ◌⊎◌, inl, inr, List, [], ◌∷◌, drop, Bytes, Option,
  none, some, Result, ok, err, nat_eq, bytes_eq, ◌==◌, ==_iff, bind_ok, bind_err, Bool-cases, arith,
  true, All,
}
use adb_daemon_rs.Text.{codes}
use adb_daemon_rs.Daemon.Proto.{Report}
use adb_daemon_rs.Daemon.Program.{
  has_zero, System, c_string, c_strings, find_other, real_adb, server_args, print_fd, real_server,
}

abbrev pub In : Bytes → List Bytes → Type 0
In p [] = ⊥
In p (q ∷ qs) = (q ≡ p) ⊎ In p qs

-- The text has a zero byte, and so is no C string.
abbrev pub HasZero : Bytes → Type 0
HasZero [] = ⊥
HasZero (c ∷ s) = (c ≡ 0) ⊎ HasZero s

-- One of the texts has a zero byte.
abbrev pub SomeZero : List Bytes → Type 0
SomeZero [] = ⊥
SomeZero (s ∷ ss) = HasZero s ⊎ SomeZero ss

-- Why no other `adb` can be run.
pub data NoAdb (sys : System) (exe : Bytes) : Type 0 where
  none_found : (e : Report) → sys.which_all ≡ err e → NoAdb sys exe
  only_this :
      (paths : List Bytes) → sys.which_all ≡ ok paths → All (λ p. p ≡ exe) paths → NoAdb sys exe
  no_text :
      (bin : Bytes) (paths : List Bytes)
      → sys.which_all ≡ ok paths
      → In bin paths
      → SomeZero (bin ∷ drop 1 sys.args)
      → NoAdb sys exe

has_zero-true : (s : Bytes) → has_zero s ≡ true → HasZero s
has_zero-true [] h = absurd (cc)
has_zero-true (c ∷ s) h = elim (Bool-cases (c == 0)) [
  | inl e ↦ inl ((==_iff c 0).0 e)
  | inr e ↦ inr (has_zero-true s (ground (arith, h, e)))
]

c_string-err : (s e : Bytes) → c_string s ≡ err e → HasZero s
unfolding c_string
c_string-err s e h = elim (Bool-cases (has_zero s)) [
  | inl z ↦ has_zero-true s z
  | inr z ↦ absurd (ground (arith, h, z))
]

c_strings-err : (ss : List Bytes) (e : Bytes) → c_strings ss ≡ err e → SomeZero ss
unfolding c_strings
c_strings-err [] e h = absurd (cc)
c_strings-err (s ∷ ss) e h = elim (bind_err (c_string s) _ e h) [
  | inl first ↦ inl (c_string-err s e first)
  | inr (c, one, h') ↦ elim (bind_err (c_strings ss) _ e h') [
    | inl rest ↦ inr (c_strings-err ss e rest)
    | inr (cs, more, h'') ↦ absurd (cc)
  ]
]

find_other-none : (exe : Bytes) (ps : List Bytes) → find_other exe ps ≡ none → All (λ p. p ≡ exe) ps
unfolding find_other
find_other-none exe [] h = tt
find_other-none exe (p ∷ ps) h = elim (Bool-cases (p == exe)) [
  | inl e ↦ ((==_iff p exe).0 e, find_other-none exe ps (ground (arith, h, e)))
  | inr e ↦ absurd (ground (arith, h, e))
]

c_string-ok : (s t : Bytes) → c_string s ≡ ok t → s ≡ t
unfolding c_string
c_string-ok s t h = ground (arith, h)

c_strings-ok : (ss ts : List Bytes) → c_strings ss ≡ ok ts → ss ≡ ts
unfolding c_strings
c_strings-ok [] ts h = cc
c_strings-ok (s ∷ ss) ts h =
    let (c, one, h') = bind_ok (c_string s) _ ts h in
    let (cs, more, h'') = bind_ok (c_strings ss) _ ts h' in
    let first = c_string-ok s c one in let rest = c_strings-ok ss cs more in cc

find_other-some :
    (exe p : Bytes) (ps : List Bytes) → find_other exe ps ≡ some p → In p ps × (p ≢ exe)
unfolding find_other
find_other-some exe p [] h = absurd (cc)
find_other-some exe p (q ∷ ps) h = elim (Bool-cases (q == exe)) [
  | inl e ↦ let (i, ne) = find_other-some exe p ps (ground (arith, h, e)) in (inr i, ne)
  | inr e ↦
      let same : q ≡ p = ground (arith, h, e) in
      (inl same, λ is. cc (e, (==_iff q exe).1 (same ∙ is)))
]

map_err-ok :
    {A : Type 0} (f : Report → Report) (r : Result Report A) (a : A) → map_err f r ≡ ok a → r ≡ ok a
map_err-ok f (err e) a h = absurd (cc)
map_err-ok f (ok b) a h = h

ok_or-ok : {A : Type 0} (o : Option A) (e : Report) (a : A) → ok_or o e ≡ ok a → o ≡ some a
ok_or-ok none e a h = absurd (cc)
ok_or-ok (some b) e a h = cc

map_err-err :
    {A : Type 0} (f : Report → Report) (r : Result Report A) (d : Report)
    → map_err f r ≡ err d
    → (e : Report) × (r ≡ err e)
map_err-err f (err e) d h = (e, refl)
map_err-err f (ok b) d h = absurd (cc)

ok_or-err : {A : Type 0} (o : Option A) (e d : Report) → ok_or o e ≡ err d → o ≡ none
ok_or-err none e d h = refl
ok_or-err (some b) e d h = absurd (cc)

-- A command that is found.
pub record IsOther (sys : System) (exe : Bytes) (c : Bytes × List Bytes) : Type 0 where
  pub paths : List Bytes
  pub found : sys.which_all ≡ ok paths
  pub among : In c.0 paths
  pub other : c.0 ≢ exe
  pub args : c.1 ≡ c.0 ∷ drop 1 sys.args

pub real_adb-IsOther :
    (sys : System) (exe : Bytes) (c : Bytes × List Bytes)
    → real_adb sys exe ≡ ok c
    → IsOther sys exe c
unfolding real_adb
real_adb-IsOther sys exe c h =
    let (paths, which, h1) = bind_ok (map_err (λ e. codes "find adb") sys.which_all) _ c h in
    let (p, found, h2) = bind_ok (ok_or (find_other exe paths) (codes "adb not found")) _ c h1 in
    let (bin, is_bin, h3) = bind_ok (c_string p) _ c h2 in
    let (args, is_args, h4) = bind_ok (c_strings (drop 1 sys.args)) _ c h3 in
    let (among, other) = find_other-some exe p paths (ok_or-ok (find_other exe paths) _ p found) in
    let same = c_string-ok p bin is_bin in
    let rest = c_strings-ok (drop 1 sys.args) args is_args in
    let is : (bin, bin ∷ args) ≡ c = cc in
    rw⁻¹ is (record {
      paths = paths;
      found = map_err-ok (λ e. codes "find adb") sys.which_all paths which;
      among = rw⁻¹ same among;
      other = rw⁻¹ same other;
      args = ap (λ (as' : List Bytes). bin ∷ as') (sym rest);
    })

pub real_server-ok :
    (sys : System) (real bin : Bytes) (args : List Bytes)
    → real_server sys real ≡ ok (bin, args)
    → (bin ≡ real) × (args ≡ server_args real (print_fd sys.raw_fd))
unfolding real_server
real_server-ok sys real bin args h =
    let (b, is_b, h1) = bind_ok (c_string real) _ (bin, args) h in
    let (port, is_port, h2) = bind_ok (c_string (print_fd sys.raw_fd)) _ (bin, args) h1 in
    let same = c_string-ok real b is_b in
    let same_port = c_string-ok (print_fd sys.raw_fd) port is_port in
    let is : (b, server_args b port) ≡ (bin, args) = cc in
    (
      sym (same ∙ ap (λ (c : Bytes × List Bytes). c.0) is),
      sym (ap (λ (c : Bytes × List Bytes). c.1) is)
          ∙ ap (λ x. server_args x port) (sym same)
          ∙ ap (λ x. server_args real x) (sym same_port),
    )

-- None is.
pub real_adb-NoAdb :
    (sys : System) (exe : Bytes) (e : Report) → real_adb sys exe ≡ err e → NoAdb sys exe
unfolding real_adb
real_adb-NoAdb sys exe e h =
    let Found = map_err (λ e. codes "find adb") sys.which_all in
    elim (bind_err Found _ e h) [
      | inl failed_ ↦
          let (d, is) = map_err-err (λ e. codes "find adb") sys.which_all e failed_ in
          none_found d is
      | inr (paths, which, h1) ↦
          let all = map_err-ok (λ e. codes "find adb") sys.which_all paths which in
          elim (bind_err (ok_or (find_other exe paths) (codes "adb not found")) _ e h1) [
            | inl absent ↦
                only_this paths all
                  (find_other-none exe paths (ok_or-err (find_other exe paths) _ e absent))
            | inr (p, found, h2) ↦
                let among =
                  (find_other-some exe p paths (ok_or-ok (find_other exe paths) _ p found)).0 in
                elim (bind_err (c_string p) _ e h2) [
                  | inl zero_ ↦ no_text p paths all among (inl (c_string-err p e zero_))
                  | inr (bin, is_bin, h3) ↦ elim (bind_err (c_strings (drop 1 sys.args)) _ e h3) [
                    | inl zero_ ↦
                        no_text p paths all among (inr (c_strings-err (drop 1 sys.args) e zero_))
                    | inr (args, is_args, h4) ↦ absurd (cc)
                  ]
                ]
          ]
    ]

pub real_server-err :
    (sys : System) (real : Bytes) (e : Report)
    → real_server sys real ≡ err e
    → SomeZero (real ∷ print_fd sys.raw_fd ∷ [])
unfolding real_server
real_server-err sys real e h = elim (bind_err (c_string real) _ e h) [
  | inl zero_ ↦ inl (c_string-err real e zero_)
  | inr (bin, is_bin, h1) ↦ elim (bind_err (c_string (print_fd sys.raw_fd)) _ e h1) [
    | inl zero_ ↦ inr (inl (c_string-err (print_fd sys.raw_fd) e zero_))
    | inr (port, is_port, h2) ↦ absurd (cc)
  ]
]
