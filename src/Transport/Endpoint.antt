-- ===== src/Transport/Endpoint.antt =====
-- A bulk endpoint of the `nusb` library, as packages/transport/src/connection/usb.rs uses it:
-- transfers are queued by `submit` and complete in the order in which they were submitted.
use adb_daemon_rs.Base.{
  ℕ, ◌≡◌, Bytes, List, [], ◌∷◌, ◌++◌, length, All, Result, ok, Poll, pending, ready,
}
use adb_daemon_rs.Words.{IsByte}
use adb_daemon_rs.Transport.Error.{TransferError}

-- The bytes of a buffer, and for a read the most that it asks for (`requested_len`).
pub record Buffer : Type 0 where
  pub requested : ℕ
  pub bytes : Bytes

-- `Buffer::new(n)` and `Vec<u8>::into()`.
abbrev pub new_buffer : ℕ → Buffer
new_buffer n = record { requested = n; bytes = [] }

abbrev pub of_bytes : Bytes → Buffer
of_bytes bs = record { requested = length bs; bytes = bs }

pub record Endpoint : Type 1 where
  pub State : Type 0
  pub submit : State → Buffer → State
  pub queue : State → List Buffer
  pub poll_next_complete : State → Poll (Result TransferError Buffer) × State
  pub queue-submit : (s : State) (b : Buffer) → queue (submit s b) ≡ queue s ++ b ∷ []
  -- A poll that is not ready leaves the queue; a completion takes the oldest transfer off it.
  pub poll_waits : (s t : State) → poll_next_complete s ≡ (pending, t) → queue t ≡ queue s
  pub poll_completes :
      (s t : State) (r : Result TransferError Buffer)
      → poll_next_complete s ≡ (ready r, t)
      → (b : Buffer) × (queue s ≡ b ∷ queue t)
  pub poll_keeps_length :
      (s t : State) (b c : Buffer)
      → poll_next_complete s ≡ (ready (ok c), t)
      → queue s ≡ b ∷ queue t
      → c.requested ≡ b.requested
  pub poll_bytes :
      (s t : State) (c : Buffer) → poll_next_complete s ≡ (ready (ok c), t) → All IsByte c.bytes
