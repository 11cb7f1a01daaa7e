-- ===== src/Transport/Usb/Writing.antt =====
-- Writing and flushing: what is submitted, when it panics, and the interface of `Connection`.
use adb_daemon_rs.Base.{
  ℕ, zero, suc, ◌%◌, ◌≡◌, ◌≢◌, refl, sym, ap, subst, ◌⊎◌, inl, inr, List, [], ◌∷◌, ◌++◌,
  append_assoc, length, Result, ok, err, Poll, pending, ready, done, panicked, if◌then◌else◌, ◌==◌,
  nat_eq, arith, Bool-cases,
}
use adb_daemon_rs.Transport.Error.{Error, TransferError}
use adb_daemon_rs.Transport.Message.{AdbMessage, to_vec}
use adb_daemon_rs.Transport.Connection.{Connection}
use adb_daemon_rs.Transport.Endpoint.{Endpoint, Buffer, new_buffer, of_bytes}
use adb_daemon_rs.Transport.Usb.{
  submit_message, flush_next, Usb, is_empty, write_message, poll_flush, flush_loop,
  poll_read_message,
}

List-cases {ℓ} : {A : Type ℓ} (xs : List A) → (xs ≡ []) ⊎ ((y : A) × (ys : List A) × (xs ≡ y ∷ ys))
List-cases [] = inl refl
List-cases (x ∷ xs) = inr (x, xs, refl)

nil_of_length {ℓ} : {A : Type ℓ} (xs : List A) → length xs ≡ 0 → xs ≡ []
nil_of_length [] e = refl
nil_of_length (x ∷ xs) e = absurd (omega arith)

-- The transfers of one message.
unfoldable pub transfers : ℕ → AdbMessage → List Buffer
transfers packet_size m =
    of_bytes (to_vec m.header)
    ∷ (if is_empty m.payload
        then []
        else if m.header.data_length % packet_size == 0
        then of_bytes m.payload ∷ new_buffer 0 ∷ []
        else of_bytes m.payload ∷ [])

module _ (In Out : Endpoint) where
  open Out use {queue, queue-submit, poll_waits, poll_completes}

  queue-submit_message :
      (ep : Out.State) (packet_size : ℕ) (m : AdbMessage)
      → queue (submit_message In Out ep packet_size m) ≡ queue ep ++ transfers packet_size m
  unfolding submit_message transfers
  queue-submit_message ep packet_size m = elim (Bool-cases (is_empty m.payload)) [
    | inl e ↦ rw (e, queue-submit)
    | inr e ↦ elim (Bool-cases (m.header.data_length % packet_size == 0)) [
      | inl full ↦ rw (e, full) (simp (queue-submit, append_assoc))
      | inr short ↦ rw (e, short) (simp (queue-submit, append_assoc))
    ]
  ]

  -- Writing to a flushed connection queues the transfers of the message and touches nothing else;
  -- writing to any other panics.
  pub write_message_lem :
      (u : Usb In Out) (m : AdbMessage)
      → ((queue u.out_endpoint ≡ [])
          × (v : Usb In Out) × (write_message In Out u m ≡ done (ok tt, v))
          × (queue v.out_endpoint ≡ transfers u.packet_size m)
          × (v ≡ record u { out_endpoint = v.out_endpoint }))
        ⊎ ((queue u.out_endpoint ≢ []) × (write_message In Out u m ≡ panicked))
  unfolding write_message
  write_message_lem u m = elim (List-cases (queue u.out_endpoint)) [
    | inl e ↦ inl (
      e,
      record u { out_endpoint = submit_message In Out u.out_endpoint u.packet_size m },
      rw e,
      rw (queue-submit_message, e),
      refl,
    )
    | inr (b, bs, e) ↦ inr ((λ h. cc (e, h)), rw e)
  ]

  -- What is left of a queue when its oldest entries are done.
  abbrev pub Suffix : List Buffer → List Buffer → Type 0
  Suffix rest whole = (finished : List Buffer) × (whole ≡ finished ++ rest)

  -- What a flush may report, and the queue that it leaves.
  abbrev pub Flushes : List Buffer → Poll (Result Error (Unit {0})) × Usb In Out → Type 0
  Flushes whole (pending, v) = Suffix (queue v.out_endpoint) whole
  Flushes whole (ready (err e), v) = Suffix (queue v.out_endpoint) whole
  Flushes whole (ready (ok _), v) = queue v.out_endpoint ≡ []

  Flushes-cons :
      (b : Buffer) (rest whole : List Buffer) (p : Poll (Result Error (Unit {0})) × Usb In Out)
      → whole ≡ b ∷ rest
      → Flushes rest p
      → Flushes whole p
  Flushes-cons b rest whole (pending, v) e (xs, h) = (b ∷ xs, rw (e, h))
  Flushes-cons b rest whole (ready (err _), v) e (xs, h) = (b ∷ xs, rw (e, h))
  Flushes-cons b rest whole (ready (ok _), v) e h = h

  flush_next-Flushes :
      (n : ℕ) (u : Usb In Out) (p : Poll (Result TransferError Buffer) × Out.State)
      → Out.poll_next_complete u.out_endpoint ≡ p
      → suc n ≡ length (queue u.out_endpoint)
      → ((v : Usb In Out)
          → n ≡ length (queue v.out_endpoint)
          → Flushes (queue v.out_endpoint) (flush_loop In Out n v))
      → Flushes (queue u.out_endpoint) (flush_next In Out (flush_loop In Out n) u p)
  unfolding flush_next
  flush_next-Flushes n u (pending, ep) e size ih = ([], sym (poll_waits u.out_endpoint ep e))
  flush_next-Flushes n u (ready (err x), ep) e size ih =
      let (b, h) = poll_completes u.out_endpoint ep (err x) e in (b ∷ [], h)
  flush_next-Flushes n u (ready (ok c), ep) e size ih =
      let (b, h) = poll_completes u.out_endpoint ep (ok c) e in
      Flushes-cons b (queue ep) (queue u.out_endpoint) _ h
        (ih (record u { out_endpoint = ep }) (omega (arith, ap (length {0} {A = Buffer}) h)))

  flush_loop-Flushes :
      (n : ℕ) (u : Usb In Out)
      → n ≡ length (queue u.out_endpoint)
      → Flushes (queue u.out_endpoint) (flush_loop In Out n u)
  unfolding flush_loop
  flush_loop-Flushes zero u e = nil_of_length (queue u.out_endpoint) (sym e)
  flush_loop-Flushes (suc n) u e =
      flush_next-Flushes n u (Out.poll_next_complete u.out_endpoint) refl e (flush_loop-Flushes n)

  -- A flush that succeeds has emptied the queue. One that waits or fails has completed some of the
  -- oldest transfers, and the others are queued as before.
  pub poll_flush-Flushes : (u : Usb In Out) → Flushes (queue u.out_endpoint) (poll_flush In Out u)
  unfolding poll_flush
  poll_flush-Flushes u = flush_loop-Flushes (length (queue u.out_endpoint)) u refl

  -- The USB connection as an implementation of `Connection`.
  pub poll_flush_done :
      (u v : Usb In Out) → poll_flush In Out u ≡ (ready (ok tt), v) → queue v.out_endpoint ≡ []
  poll_flush_done u v e = subst (Flushes (queue u.out_endpoint)) e (poll_flush-Flushes u)

  pub write_message_returns :
      (u : Usb In Out) (m : AdbMessage)
      → length (queue u.out_endpoint) ≡ 0
      → (r : Result Error (Unit {0}) × Usb In Out) × (write_message In Out u m ≡ done r)
  write_message_returns u m e = elim (write_message_lem u m) [
    | inl (_, v, written, _, _) ↦ ((ok tt, v), written)
    | inr (h, _) ↦ absurd (h (nil_of_length (queue u.out_endpoint) e))
  ]

  pub unsent-poll_flush :
      (u v : Usb In Out)
      → poll_flush In Out u ≡ (ready (ok tt), v)
      → length (queue v.out_endpoint) ≡ 0
  unsent-poll_flush u v e = ap length (poll_flush_done u v e)

  abbrev pub usb_connection : Connection
  usb_connection = record {
    State = Usb In Out;
    poll_read_message = poll_read_message In Out;
    write_message = write_message In Out;
    poll_flush = poll_flush In Out;
    unsent = λ u. length (queue u.out_endpoint);
    unsent-poll_flush = unsent-poll_flush;
    write_message_flushed = write_message_returns;
  }
