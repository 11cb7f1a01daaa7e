-- ===== src/Transport/Handshake/Ending.antt =====
-- When a handshake comes to an end.
use adb_daemon_rs.Base.{
  ℕ, suc, zero, ◌∙◌, ◌≡◌, refl, Bool, true, false, List, [], ◌∷◌, Option, none, some, Result, ok,
  err, if_cases,
}
use adb_daemon_rs.Text.{codes}
use adb_daemon_rs.Text.Utf8.{is_utf8}
use adb_daemon_rs.Transport.Error.{Error}
use adb_daemon_rs.Transport.Message.{AdbMessage, AdbCommand, cnxn, auth}
use adb_daemon_rs.Transport.Banner.{Banner, contains}
use adb_daemon_rs.Transport.Handshake.{
  AuthMode, Peer, AuthEnd, accepted, rejected, failed, waits, AuthRun, with_banner, parse_banner,
  handle_cnxn, answer, written, answered, by_key, round, auth_loop, authenticate,
}

abbrev after_auth : ℕ → (ℕ → Bool) → Bool
after_auth zero rest = true
after_auth (suc n) rest = rest n

abbrev after_command : AdbCommand → ℕ → (ℕ → Bool) → Bool
after_command cnxn n rest = true
after_command auth n rest = after_auth n rest
after_command _ n rest = rest n

-- The device's messages come to a failed read, to `CNXN`, or to one more `AUTH` than `n`.
unfoldable pub ends_within : List (Result Error AdbMessage) → ℕ → Bool
ends_within [] n = false
ends_within (err e ∷ ms) n = true
ends_within (ok m ∷ ms) n = after_command m.header.command n (ends_within ms)

-- `n` messages more than a run answers.
abbrev pub with_answers : Option AuthMode → ℕ → ℕ
with_answers none n = n
with_answers (some key) n = suc n

-- What the end of a run says of the messages `ms`: a run that waits has found no end in them, and one
-- that is rejected has used up its answers and one message more.
abbrev pub Goes :
    {C : Type 0}
    → Option AuthMode
    → List (Result Error AdbMessage)
    → List (Result Error AdbMessage)
    → AuthEnd C
    → Type 0
Goes key ms unread (accepted t) = Unit
Goes key ms unread (rejected m) =
    (m.header.command ≡ auth)
    × ((n : ℕ) → ends_within ms (suc (with_answers key n)) ≡ ends_within unread n)
Goes key ms unread (failed e) = Unit
Goes key ms unread waits = (n : ℕ) → ends_within ms (with_answers key n) ≡ false

module _ {C : Type 0} where
  handle_cnxn-Goes :
      (key : Option AuthMode) (ms unread : List (Result Error AdbMessage)) (c : C) (m : AdbMessage)
      → Goes key ms unread (handle_cnxn c m)
  unfolding handle_cnxn
  handle_cnxn-Goes key ms unread c m =
      if_cases (Goes key ms unread) (is_utf8 m.payload) _ _
        (λ h. by_banner (parse_banner m.payload)) (λ h. tt)
    where
      by_banner : (b : Result Error Banner) → Goes key ms unread (with_banner c b)
      by_banner (err e) = tt
      by_banner (ok b) =
          if_cases (Goes key ms unread) (contains (codes "delayed_ack") b.features) _ _ (λ h. tt)
            (λ h. tt)

  -- One more `AUTH` message, which used the key up.
  Goes-answered :
      (key : AuthMode) (m : AdbMessage) (ms unread : List (Result Error AdbMessage)) (x : AuthEnd C)
      → m.header.command ≡ auth
      → Goes none ms unread x
      → Goes (some key) (ok m ∷ ms) unread x
  unfolding ends_within
  Goes-answered key m ms unread (accepted t) e h = h
  Goes-answered key m ms unread (rejected l) e (is, h) = (is, λ n. rw e (h n))
  Goes-answered key m ms unread (failed x) e h = tt
  Goes-answered key m ms unread waits e h = λ n. rw e (h n)

  -- One more message that is ignored.
  Goes-ignored :
      (key : Option AuthMode) (m : AdbMessage) (ms unread : List (Result Error AdbMessage))
      (x : AuthEnd C)
      → ((n : ℕ) → ends_within (ok m ∷ ms) n ≡ ends_within ms n)
      → Goes key ms unread x
      → Goes key (ok m ∷ ms) unread x
  Goes-ignored key m ms unread (accepted t) e h = h
  Goes-ignored key m ms unread (rejected l) e (is, h) = (is, λ n. e _ ∙ h n)
  Goes-ignored key m ms unread (failed x) e h = tt
  Goes-ignored key m ms unread waits e h = λ n. e _ ∙ h n

  written-Goes :
      (key : AuthMode) (rest : AuthRun C) (m a : AdbMessage) (ms : List (Result Error AdbMessage))
      (r : Result Error (Unit {0}))
      → m.header.command ≡ auth
      → Goes none ms rest.unread rest.ends
      → Goes (some key) (ok m ∷ ms) (written rest a ms r).unread (written rest a ms r).ends
  unfolding written
  written-Goes key rest m a ms (err x) e h = tt
  written-Goes key rest m a ms (ok _) e h = Goes-answered key m ms rest.unread rest.ends e h

  answered-Goes :
      (w : Peer) (key : AuthMode) (rest : AuthRun C) (m : AdbMessage)
      (ms : List (Result Error AdbMessage)) (r : Result Error AdbMessage)
      → m.header.command ≡ auth
      → Goes none ms rest.unread rest.ends
      → Goes (some key) (ok m ∷ ms) (answered w rest ms r).unread (answered w rest ms r).ends
  unfolding answered
  answered-Goes w key rest m ms (err x) e h = tt
  answered-Goes w key rest m ms (ok a) e h = written-Goes key rest m a ms (w.write a) e h

  by_key-Goes :
      (w : Peer) (key : Option AuthMode) (rest : Option AuthMode → AuthRun C) (m : AdbMessage)
      (ms : List (Result Error AdbMessage))
      → m.header.command ≡ auth
      → Goes none ms (rest none).unread (rest none).ends
      → Goes key (ok m ∷ ms) (by_key w key rest ms m).unread (by_key w key rest ms m).ends
  unfolding by_key ends_within
  by_key-Goes w none rest m ms e h = (e, λ n. rw e refl)
  by_key-Goes w (some key) rest m ms e h = answered-Goes w key (rest none) m ms (answer w key m) e h

  round-Goes :
      (w : Peer) (c : C) (key : Option AuthMode) (rest : Option AuthMode → AuthRun C)
      (m : AdbMessage) (ms : List (Result Error AdbMessage)) (command : AdbCommand)
      → m.header.command ≡ command
      → ((k : Option AuthMode) → Goes k ms (rest k).unread (rest k).ends)
      → Goes key
          (ok m ∷ ms)
          (round w c key rest ms m command).unread
          (round w c key rest ms m command).ends
  unfolding round ends_within
  round-Goes w c key rest m ms auth e h = by_key-Goes w key rest m ms e (h none)
  round-Goes w c key rest m ms cnxn e h = handle_cnxn-Goes key (ok m ∷ ms) ms c m
  round-Goes w c key rest m ms _ e h =
      Goes-ignored key m ms (rest key).unread (rest key).ends (λ n. rw e refl) (h key)

  auth_loop-Goes :
      (w : Peer) (c : C) (ms : List (Result Error AdbMessage)) (key : Option AuthMode)
      → Goes key ms (auth_loop w c ms key).unread (auth_loop w c ms key).ends
  unfolding auth_loop ends_within
  auth_loop-Goes w c [] key = λ n. refl
  auth_loop-Goes w c (err e ∷ ms) key = tt
  auth_loop-Goes w c (ok m ∷ ms) key =
      round-Goes w c key (auth_loop w c ms) m ms m.header.command refl (auth_loop-Goes w c ms)

  -- A run that has nothing to answer yet.
  pub first_run-Goes :
      (w : Peer) (c : C) (ms : List (Result Error AdbMessage)) (key : AuthMode)
      → Goes (some key) ms (authenticate w c none ms key).unread (authenticate w c none ms key).ends
  unfolding authenticate
  first_run-Goes w c ms key = auth_loop-Goes w c ms (some key)

  -- A run that first answers the message that was kept.
  pub next_run-Goes :
      (w : Peer) (c : C) (m : AdbMessage) (ms : List (Result Error AdbMessage)) (key : AuthMode)
      → Goes
          (some key)
          (ok m ∷ ms)
          (authenticate w c (some m) ms key).unread
          (authenticate w c (some m) ms key).ends
  unfolding authenticate
  next_run-Goes w c m ms key = auth_loop-Goes w c (ok m ∷ ms) (some key)
