-- ===== src/Transport/Usb/Framing.antt =====
-- What the transfers of a message say to the device.
use adb_daemon_rs.Base.{
  ℕ, ◌%◌, ◌≡◌, ◌≢◌, refl, Bool, true, false, Bytes, List, [], ◌∷◌, ◌++◌, append-nil, length, nat_eq,
  if◌then◌else◌, ap, arith, inl, inr, done, ok,
}
use adb_daemon_rs.Transport.Message.{AdbMessage, to_vec}
use adb_daemon_rs.Transport.Endpoint.{Endpoint, Buffer, of_bytes, new_buffer}
use adb_daemon_rs.Transport.Usb.{Usb, is_empty, write_message}
use adb_daemon_rs.Transport.Usb.Writing.{transfers, write_message_lem}

-- The bytes of all transfers, in order.
abbrev pub stream : List Buffer → Bytes
stream [] = []
stream (b ∷ bs) = b.bytes ++ stream bs

-- The last transfer does not end with a full packet, so the device sees where the data ends.
abbrev pub EndsShort : ℕ → List Buffer → Type 0
EndsShort packet_size [] = ⊥
EndsShort packet_size (b ∷ []) = length b.bytes % packet_size ≡ 0 → b.bytes ≡ []
EndsShort packet_size (b ∷ c ∷ bs) = EndsShort packet_size (c ∷ bs)

-- The transfers behind the header.
abbrev tail_transfers : Bytes → Bool → List Buffer
tail_transfers p full =
    if is_empty p then [] else if full then of_bytes p ∷ new_buffer 0 ∷ [] else of_bytes p ∷ []

stream-tail_transfers : (p : Bytes) (full : Bool) → stream (tail_transfers p full) ≡ p
stream-tail_transfers [] full = refl
stream-tail_transfers (c ∷ p) true = rw append-nil
stream-tail_transfers (c ∷ p) false = rw append-nil

tail_transfers-EndsShort :
    (packet_size : ℕ) (b : Buffer) (p : Bytes) (full : Bool)
    → p ≢ []
    → (full ≡ false → length p % packet_size ≢ 0)
    → EndsShort packet_size (b ∷ tail_transfers p full)
tail_transfers-EndsShort packet_size b [] full h e = absurd (h refl)
tail_transfers-EndsShort packet_size b (c ∷ p) true h e = λ _. refl
tail_transfers-EndsShort packet_size b (c ∷ p) false h e = λ z. absurd (e refl z)

stream-transfers :
    (packet_size : ℕ) (m : AdbMessage)
    → stream (transfers packet_size m) ≡ to_vec m.header ++ m.payload
unfolding transfers
stream-transfers packet_size m = ap (◌++◌ (to_vec m.header)) (stream-tail_transfers m.payload _)

transfers-EndsShort :
    (packet_size : ℕ) (m : AdbMessage)
    → m.payload ≢ []
    → m.header.data_length ≡ length m.payload
    → EndsShort packet_size (transfers packet_size m)
unfolding transfers
transfers-EndsShort packet_size m h e =
    tail_transfers-EndsShort packet_size (of_bytes (to_vec m.header)) m.payload _ h
      (λ f z. ground arith)

module _ (In Out : Endpoint) where
  -- A message whose payload is not empty and has the length that the header gives, written to a
  -- flushed connection, is queued as the bytes of the header and then the payload, in transfers of
  -- which the last is short or empty.
  pub write_message_frames :
      (u : Usb In Out) (m : AdbMessage)
      → Out.queue u.out_endpoint ≡ []
      → m.payload ≢ []
      → m.header.data_length ≡ length m.payload
      → (v : Usb In Out) × (write_message In Out u m ≡ done (ok tt, v))
        × (stream (Out.queue v.out_endpoint) ≡ to_vec m.header ++ m.payload)
        × EndsShort u.packet_size (Out.queue v.out_endpoint)
  write_message_frames u m flushed h e = elim (write_message_lem In Out u m) [
    | inl (_, v, written, queued, _) ↦ (
      v,
      written,
      rw queued (stream-transfers u.packet_size m),
      rw queued (transfers-EndsShort u.packet_size m h e),
    )
    | inr (unflushed, _) ↦ absurd (unflushed flushed)
  ]
