-- ===== src/Daemon/Log/Rolling.antt =====
-- What is left in a log directory.
use adb_daemon_rs.Base.{
  suc, ◌≤◌, ◌≡◌, refl, ap, ◌∙◌, inl, inr, Bool, true, not, List, [], ◌∷◌, ◌++◌, Bytes, length,
  Option, none, some, Result, ok, err, bytes_eq, ◌==◌, ==_iff, ltb, arith, Bool-cases, if_cases,
}
use adb_daemon_rs.Text.{codes}
use adb_daemon_rs.Daemon.Proto.{Report}
use adb_daemon_rs.Daemon.Log.{
  Directory, stream_position, read_dir, create_file, System, RollingWriter, filter, is_log,
  old_files, without, remove_files, leave_full, make_dir, new_name, Rolled, create_new, open_new,
  use_file, roll_left, roll,
}
use adb_daemon_rs.Daemon.Log.Remaining.{
  kept, is_other, unlisted, filter_keeps, remove_files_lem, old_files_bound, others_stay,
}

is_log-append : (s : Bytes) → is_log (s ++ codes ".log") ≡ true
unfolding is_log
is_log-append [] = refl
is_log-append (c ∷ s) = ground (arith, is_log-append s)

-- The directory behind a new file.
with_new : System → List Bytes → List Bytes
with_new sys names = new_name sys ∷ without (new_name sys) names

with_new_bound :
    (sys : System) (names : List Bytes) → kept is_log (with_new sys names) ≤ suc (kept is_log names)
unfolding with_new
with_new_bound sys names = ground (arith, fewer (λ y. not (y == new_name sys)) is_log names)
  where
    fewer : (p q : Bytes → Bool) (xs : List Bytes) → kept q (filter p xs) ≤ kept q xs
    fewer p q [] = omega arith
    fewer p q (x ∷ xs) = ground (arith, fewer p q xs)

with_new_others :
    (sys : System) (names : List Bytes)
    → filter is_other (with_new sys names) ≡ filter is_other names
unfolding with_new
with_new_others sys names = grind (
  arith,
  is_log-append sys.timestamp,
  filter_keeps (λ y. not (y == new_name sys)) is_other names
      (λ y e. elim (Bool-cases (y == new_name sys)) [
        | inl same ↦
            let at : y ≡ new_name sys = (==_iff y (new_name sys)).0 same in
            absurd (grind (arith, is_log-append sys.timestamp, ap is_log at, e))
        | inr other ↦ ground (arith, other)
      ]),
)

-- What a successful `roll` may lead to.
pub data Rolls (sys : System) (d : Directory) (w : RollingWriter) (d' : Directory)
    (w' : RollingWriter) : Type 0 where
  same_file :
      (name : Bytes)
      → w.file ≡ some name
      → sys.position ≤ w.cutoff
      → d' ≡ d
      → w' ≡ w
      → Rolls sys d w d' w'
  new_file :
      w'.file ≡ some (new_name sys)
      → length (filter is_log d'.names) ≤ suc w.count
      → (d.exists ≡ true → filter is_other d'.names ≡ filter is_other d.names)
      → Rolls sys d w d' w'

abbrev RollsTo : System → Directory → RollingWriter → Rolled → Type 0
RollsTo sys d w (r, d', w') = r ≡ ok tt → Rolls sys d w d' w'

create_new_rolls :
    (sys : System) (d before : Directory) (w w' : RollingWriter)
    (r : Result Report (Unit {0}) × List Bytes)
    → w'.count ≡ w.count
    → (r.0 ≡ ok tt → r.1 ≡ filter (unlisted (old_files w.count d.names)) d.names)
    → (before.exists ≡ true → d ≡ before)
    → RollsTo sys before w (create_new sys d w' r)
unfolding create_new
create_new_rolls sys d before w w' (err e, names) c h b = λ wrong. cc
create_new_rolls sys d before w w' (ok _, names) c h b =
    if_cases (RollsTo sys before w) (sys.call_fails (create_file (new_name sys))) _ _
      (λ _ wrong. cc)
      (λ _ _.
        new_file refl
          (unfold with_new in
            omega (
              arith,
              with_new_bound sys names,
              ap (kept is_log) (h refl),
              old_files_bound w.count d.names,
            ))
          (λ e.
            unfold with_new in
            with_new_others sys names
            ∙ ap (filter is_other) (h refl)
            ∙ others_stay w.count d.names
            ∙ ap (λ (d : Directory). filter is_other d.names) (b e)))

open_new_rolls :
    (sys : System) (before : Directory) (w w' : RollingWriter) (made : Result Report Directory)
    → w'.count ≡ w.count
    → made ≡ make_dir sys before
    → RollsTo sys before w (open_new sys before w' made)
unfolding open_new
open_new_rolls sys before w w' (err e) c m = λ wrong. cc
open_new_rolls sys before w w' (ok d) c m =
    if_cases (RollsTo sys before w) (sys.call_fails read_dir) _ _ (λ _ wrong. cc)
      (λ _.
        create_new_rolls sys d before w w' (remove_files sys (old_files w'.count d.names) d.names) c
          (λ e.
            remove_files_lem sys (old_files w'.count d.names) d.names e
            ∙ ap (λ n. filter (unlisted (old_files n d.names)) d.names) c)
          (λ e. unfold make_dir in made_before e m))
  where
    made_before : before.exists ≡ true → ok d ≡ make_dir sys before → d ≡ before
    made_before e m = unfold make_dir in grind (arith, e, m)

use_file_rolls :
    (sys : System) (d : Directory) (w w' : RollingWriter) (file : Option Bytes)
    → w'.count ≡ w.count
    → ((name : Bytes)
        → file ≡ some name
        → (w' ≡ w) × (w.file ≡ some name) × (sys.position ≤ w.cutoff))
    → RollsTo sys d w (use_file sys d w' file)
unfolding use_file
use_file_rolls sys d w w' (some name) c h =
    let (same, named, below) = h name refl in λ _. same_file name named below refl same
use_file_rolls sys d w w' none c h = open_new_rolls sys d w w' (make_dir sys d) c refl

roll_left_rolls :
    (sys : System) (d : Directory) (w : RollingWriter) (file : Option Bytes)
    → w.file ≡ file
    → RollsTo sys d w (roll_left sys d w (leave_full sys w file))
unfolding roll_left leave_full
roll_left_rolls sys d w none f = use_file_rolls sys d w w w.file refl (λ name e. absurd (cc))
roll_left_rolls sys d w (some name) f =
    if_cases (λ r. RollsTo sys d w (roll_left sys d w r)) (sys.call_fails stream_position) _ _
      (λ _ wrong. cc)
      (λ _.
        if_cases (λ w'. RollsTo sys d w (use_file sys d w' w'.file)) (ltb w.cutoff sys.position) _ _
          (λ _. use_file_rolls sys d w (record w { file = none }) none refl (λ name e. absurd (cc)))
          (λ below. use_file_rolls sys d w w w.file refl (λ n e. (refl, e, ground (arith, below)))))

-- A `roll` that succeeds either goes on with the file that is open, which is not past the cutoff, and
-- changes nothing, or opens the file that is named after the clock. Then at most one log file more
-- than `count` is in the directory, and of the names that are no log files none has gone or come if
-- the directory was there.
pub roll_lem :
    (sys : System) (d : Directory) (w : RollingWriter)
    → let (r, d', w') = roll sys d w in r ≡ ok tt → Rolls sys d w d' w'
unfolding roll
roll_lem sys d w = roll_left_rolls sys d w w.file refl
