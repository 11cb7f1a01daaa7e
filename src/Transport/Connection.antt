-- ===== src/Transport/Connection.antt =====
-- The trait `Connection` of packages/transport/src/connection/mod.rs, with what its callers rely on.
-- The waker that a poll registers is the caller's and is not part of the connection's state.
use adb_daemon_rs.Base.{ℕ, ◌≡◌, Result, ok, Poll, ready, Run, done}
use adb_daemon_rs.Transport.Error.{Error}
use adb_daemon_rs.Transport.Message.{AdbMessage}

pub record Connection : Type 1 where
  pub State : Type 0
  pub poll_read_message : State → Run (Poll (Result Error AdbMessage) × State)
  pub write_message : State → AdbMessage → Run (Result Error (Unit {0}) × State)
  pub poll_flush : State → Poll (Result Error (Unit {0})) × State
  -- The writes that the connection has taken and not finished.
  pub unsent : State → ℕ
  -- A flush that succeeds leaves nothing unsent, and then the next write does not panic.
  pub unsent-poll_flush : (s t : State) → poll_flush s ≡ (ready (ok tt), t) → unsent t ≡ 0
  pub write_message_flushed :
      (s : State) (m : AdbMessage)
      → unsent s ≡ 0
      → (r : Result Error (Unit {0}) × State) × (write_message s m ≡ done r)
