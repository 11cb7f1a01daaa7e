-- ===== src/Transport/Router/Allocation.antt =====
-- New sockets: their ids, their places, and what stays.
use adb_daemon_rs.Base.{
  ℕ, zero, suc, ◌+◌, ◌%◌, ◌<◌, ◌≡◌, ◌≢◌, refl, sym, ◌∙◌, ap, List, [], ◌∷◌, ◌++◌, length, get_elem?,
  none, some, arith, ◌==◌, ==_iff, nat_eq, Bool-cases, Option-cases, ==_refl, inl, inr,
}
use adb_daemon_rs.Base.Map.{lookup, insert, lookup-insert}
use adb_daemon_rs.Words.{u32_mod}
use adb_daemon_rs.Transport.Backend.{SocketBackend, TransportBackend}
use adb_daemon_rs.Transport.Socket.{new_socket}
use adb_daemon_rs.Transport.Router.{allocate}
use adb_daemon_rs.Transport.Router.Routing.{IsLinked}

get_elem?-append_new :
    {A : Type 0} (xs : List A) (a : A) → get_elem? (xs ++ a ∷ []) (length xs) ≡ some a
get_elem?-append_new [] a = refl
get_elem?-append_new (x ∷ xs) a = get_elem?-append_new xs a

get_elem?-append_old :
    {A : Type 0} (xs ys : List A) (i : ℕ) (a : A)
    → get_elem? xs i ≡ some a
    → get_elem? (xs ++ ys) i ≡ some a
get_elem?-append_old [] ys i a h = cc
get_elem?-append_old (x ∷ xs) ys zero a h = h
get_elem?-append_old (x ∷ xs) ys (suc i) a h = get_elem?-append_old xs ys i a h

-- The ids in the map are below the next one.
abbrev pub IsFresh : {C : Type 0} → TransportBackend C → Type 0
IsFresh t = (id place : ℕ) → lookup id t.sockets ≡ some place → id < t.last_id

module _ {C : Type 0} where
  unused : (t : TransportBackend C) → IsFresh t → lookup t.last_id t.sockets ≡ none
  unused t fresh = elim (Option-cases (lookup t.last_id t.sockets)) [
    | inl e ↦ e
    | inr (place, e) ↦ absurd (omega (arith, fresh t.last_id place e))
  ]

  inserted_target :
      (t : TransportBackend C) (j q : ℕ) (heap : List SocketBackend) (new : SocketBackend)
      → get_elem? heap (length t.heap) ≡ some new
      → new.local_id ≡ t.last_id
      → ((s : SocketBackend) → get_elem? t.heap q ≡ some s → get_elem? heap q ≡ some s)
      → IsLinked t.sockets t.heap
      → lookup j (insert t.last_id (length t.heap) t.sockets) ≡ some q
      → (s : SocketBackend) × (get_elem? heap q ≡ some s) × (s.local_id ≡ j)
  inserted_target t j q heap new at named keeps linked found = elim (Bool-cases (t.last_id == j)) [
    | inl e ↦
        let same = (==_iff t.last_id j).0 e in
        let there : length t.heap ≡ q =
          ground (arith, lookup-insert t.last_id j (length t.heap) t.sockets) in
        (new, sym (ap (get_elem? heap) there) ∙ at, named ∙ same)
    | inr e ↦
        let before : lookup j t.sockets ≡ some q =
          ground (arith, lookup-insert t.last_id j (length t.heap) t.sockets) in
        let (s, at', named') = linked.target j q before in (s, keeps s at', named')
  ]

  inserted_fresh :
      (t : TransportBackend C) (j q place : ℕ)
      → IsFresh t
      → t.last_id + 1 < u32_mod
      → lookup j (insert t.last_id place t.sockets) ≡ some q
      → j < (t.last_id + 1) % u32_mod
  inserted_fresh t j q place fresh room found = elim (Bool-cases (t.last_id == j)) [
    | inl e ↦ let same = (==_iff t.last_id j).0 e in omega arith
    | inr e ↦
        let before : lookup j t.sockets ≡ some q =
          ground (arith, lookup-insert t.last_id j place t.sockets) in
        omega (arith, fresh j q before)
  ]

  -- As long as the ids have not wrapped around, a new socket gets an id that no open socket has, and
  -- every other entry of the map and of the heap stays; the map still leads to sockets with the right
  -- ids, and its ids are below the next one.
  pub allocate_lem :
      (t : TransportBackend C) (remote_id acknowledged : ℕ)
      → IsLinked t.sockets t.heap
      → IsFresh t
      → t.last_id + 1 < u32_mod
      → let (place, id, u) = allocate t remote_id acknowledged in
        (lookup id t.sockets ≡ none)
        × (lookup id u.sockets ≡ some place)
        × (get_elem? u.heap place ≡ some (new_socket id remote_id acknowledged))
        × ((j : ℕ) → j ≢ id → lookup j u.sockets ≡ lookup j t.sockets)
        × IsLinked u.sockets u.heap
        × IsFresh u
  unfolding allocate
  allocate_lem t remote_id acknowledged linked fresh room =
      let id = t.last_id in
      let place = length t.heap in
      let new = new_socket id remote_id acknowledged in
      (
        unused t fresh,
        lookup-insert id id place t.sockets ∙ rw (==_refl {A = ℕ} id),
        get_elem?-append_new t.heap new,
        (λ j ne. ground (arith, lookup-insert id j place t.sockets, ==_iff id j)),
        record {
          target = λ j q found.
              inserted_target t j q (t.heap ++ new ∷ []) new (get_elem?-append_new t.heap new) refl
                (λ s at. get_elem?-append_old t.heap (new ∷ []) q s at) linked found;
        },
        (λ j q found. inserted_fresh t j q place fresh room found),
      )
