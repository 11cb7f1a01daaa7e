-- ===== src/Transport/Usb.antt =====
-- packages/transport/src/connection/usb.rs: messages as bulk transfers. The endpoints are those of
-- the `nusb` library. The read timeout only writes to the log, and is left out.
pub mod Writing
pub mod Framing
pub mod Reading
pub mod Opening
use adb_daemon_rs.Base.{
  ℕ, zero, suc, ◌+◌, ◌-◌, ◌%◌, Bool, true, false, Bytes, List, [], ◌∷◌, length, Option, none, some,
  Result, ok, err, Poll, pending, ready, Run, done, panicked, ltb, if◌then◌else◌, ◌==◌, nat_eq,
}
use adb_daemon_rs.Transport.Error.{Error, of_kind, usb, transfer, TransferError}
use adb_daemon_rs.Transport.Message.{AdbMessage, AdbMessageHeader, read, to_vec}
use adb_daemon_rs.Transport.Endpoint.{Endpoint, Buffer, new_buffer, of_bytes}

pub record UsbConnection (I O : Type 0) : Type 0 where
  pub in_endpoint : I
  pub out_endpoint : O
  pub packet_size : ℕ
  pub in_header : Option AdbMessageHeader

-- `usize::next_multiple_of` at a positive `m`.
unfoldable pub next_multiple_of : ℕ → ℕ → ℕ
next_multiple_of n m = let r = n % m in if r == 0 then n else n + (m - r)

-- The test `payload.is_empty()`.
abbrev pub is_empty {ℓ} : {A : Type ℓ} → List A → Bool
is_empty [] = true
is_empty (x ∷ xs) = false

abbrev transfer_error : TransferError → Error
transfer_error e = of_kind (usb (transfer e))

module _ (In Out : Endpoint) where
  abbrev pub Usb : Type 0
  Usb = UsbConnection In.State Out.State

  -- What one round of a loop does: return, or go on.
  pub data Round : Type 0 where
    returns : Poll (Result Error AdbMessage) → Usb → Round
    again : Usb → Round

  -- The round that has a header to read: `buf` is submitted again, behind a buffer for the payload.
  header_round : Usb → Buffer → Run (Result Error AdbMessageHeader) → Run Round
  header_round u buf panicked = panicked
  header_round u buf (done (err e)) = done (returns (ready (err e)) u)
  header_round u buf (done (ok header)) =
      let ep =
        if ltb 0 header.data_length
        then In.submit u.in_endpoint
            (new_buffer (next_multiple_of header.data_length u.packet_size))
        else u.in_endpoint in
      let ep = In.submit ep buf in
      if header.data_length == 0
      then done (
          returns (ready (ok (record { header = header; payload = [] })))
            (record u { in_endpoint = ep }))
      else done (again (record u { in_endpoint = ep; in_header = some header }))

  buffer_round : Usb → Buffer → Option AdbMessageHeader → Run Round
  unfolding header_round
  buffer_round u buf (some header) = done (
      returns (ready (ok (record { header = header; payload = buf.bytes })))
        (record u { in_header = none }))
  buffer_round u buf none = header_round u buf (read buf.bytes)

  completion_round : Usb → Poll (Result TransferError Buffer) × In.State → Run Round
  unfolding buffer_round
  completion_round u (pending, ep) = done (returns pending (record u { in_endpoint = ep }))
  completion_round u (ready (err e), ep) =
      done (returns (ready (err (transfer_error e))) (record u { in_endpoint = ep }))
  completion_round u (ready (ok buf), ep) =
      buffer_round (record u { in_endpoint = ep }) buf u.in_header

  read_round : Usb → Run Round
  unfolding completion_round
  read_round u = completion_round u (In.poll_next_complete u.in_endpoint)

  -- The end of a round, before the rounds that follow it.
  finish :
      (Usb → Run (Poll (Result Error AdbMessage) × Usb))
      → Run Round
      → Run (Poll (Result Error AdbMessage) × Usb)
  finish rest panicked = panicked
  finish rest (done (returns r v)) = done (r, v)
  finish rest (done (again v)) = rest v

  -- The loop of `poll_read_message` on fuel. Fuel that runs out counts as a panic.
  read_loop : ℕ → Usb → Run (Poll (Result Error AdbMessage) × Usb)
  unfolding read_round finish
  read_loop zero u = panicked
  read_loop (suc fuel) u = finish (read_loop fuel) (read_round u)

  prepare : Usb → Usb
  prepare u = record u {
    in_endpoint =
        if is_empty (In.queue u.in_endpoint)
        then In.submit u.in_endpoint (new_buffer u.packet_size)
        else u.in_endpoint;
  }

  -- `poll_read_message`. A message takes two rounds at most.
  unfoldable pub poll_read_message : Usb → Run (Poll (Result Error AdbMessage) × Usb)
  unfolding read_loop prepare
  poll_read_message u = read_loop 2 (prepare u)

  -- What `write_message` submits: the header, the payload, and an empty transfer behind a payload
  -- that ends with a full packet.
  submit_message : Out.State → ℕ → AdbMessage → Out.State
  submit_message ep packet_size m =
      let ep = Out.submit ep (of_bytes (to_vec m.header)) in
      let ep' = Out.submit ep (of_bytes m.payload) in
      if is_empty m.payload
      then ep
      else if m.header.data_length % packet_size == 0
      then Out.submit ep' (new_buffer 0)
      else ep'

  -- `write_message`. The test is the assertion that the connection was flushed.
  unfoldable pub write_message : Usb → AdbMessage → Run (Result Error (Unit {0}) × Usb)
  unfolding submit_message
  write_message u m =
      if is_empty (Out.queue u.out_endpoint)
      then done (ok tt, record u { out_endpoint = submit_message u.out_endpoint u.packet_size m })
      else panicked

  -- `poll_flush`: one completion for each transfer that is pending.
  flush_next :
      (Usb → Poll (Result Error (Unit {0})) × Usb)
      → Usb
      → Poll (Result TransferError Buffer) × Out.State
      → Poll (Result Error (Unit {0})) × Usb
  flush_next rest u (pending, ep) = (pending, record u { out_endpoint = ep })
  flush_next rest u (ready (err e), ep) =
      (ready (err (transfer_error e)), record u { out_endpoint = ep })
  flush_next rest u (ready (ok b), ep) = rest (record u { out_endpoint = ep })

  flush_loop : ℕ → Usb → Poll (Result Error (Unit {0})) × Usb
  unfolding flush_next
  flush_loop zero u = (ready (ok tt), u)
  flush_loop (suc n) u = flush_next (flush_loop n) u (Out.poll_next_complete u.out_endpoint)

  unfoldable pub poll_flush : Usb → Poll (Result Error (Unit {0})) × Usb
  unfolding flush_loop
  poll_flush u = flush_loop (length (Out.queue u.out_endpoint)) u
