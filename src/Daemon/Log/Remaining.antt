-- ===== src/Daemon/Log/Remaining.antt =====
-- Which names are left when old log files are removed.
use adb_daemon_rs.Base.{
  ℕ, suc, ◌+◌, ◌≤◌, ◌≡◌, refl, sym, ap, ◌∙◌, inl, inr, Bool, true, false, not, ◌&&◌, ◌||◌, List, [],
  ◌∷◌, ◌++◌, Bytes, length, ok, take, drop, length-take, take-append-drop, bytes_eq, ◌==◌, ==_iff,
  ==_refl, if◌then◌else◌, arith, Bool-cases,
}
use adb_daemon_rs.Daemon.Log.{
  remove_file, System, filter, insert_name, sort, rev, is_log, old_files, without, remove_files,
}

-- How many names pass a test.
abbrev pub kept : (Bytes → Bool) → List Bytes → ℕ
kept p xs = length (filter p xs)

kept_first :
    (p : Bytes → Bool) (x : Bytes) (xs : List Bytes)
    → kept p (x ∷ xs) ≡ (if p x then suc (kept p xs) else kept p xs)
kept_first p x xs = ground arith

kept-append : (p : Bytes → Bool) (xs ys : List Bytes) → kept p (xs ++ ys) ≡ kept p xs + kept p ys
kept-append p [] ys = omega arith
kept-append p (x ∷ xs) ys = ground (arith, kept-append p xs ys)

kept-insert_name :
    (p : Bytes → Bool) (x : Bytes) (ys : List Bytes) → kept p (insert_name x ys) ≡ kept p (x ∷ ys)
kept-insert_name p x [] = refl
kept-insert_name p x (y ∷ ys) = ground (arith, kept-insert_name p x ys)

kept-sort : (p : Bytes → Bool) (xs : List Bytes) → kept p (sort xs) ≡ kept p xs
unfolding sort
kept-sort p [] = refl
kept-sort p (x ∷ xs) = kept-insert_name p x (sort xs) ∙ ground (arith, kept-sort p xs)

kept-rev : (p : Bytes → Bool) (xs : List Bytes) → kept p (rev xs) ≡ kept p xs
unfolding rev
kept-rev p [] = refl
kept-rev p (x ∷ xs) = kept-append p (rev xs) (x ∷ []) ∙ ground (arith, kept-rev p xs)

kept_most : (p : Bytes → Bool) (xs : List Bytes) → kept p xs ≤ length xs
kept_most p [] = omega arith
kept_most p (x ∷ xs) = ground (arith, kept_most p xs)

filter_twice :
    (p q r : Bytes → Bool) (xs : List Bytes)
    → ((x : Bytes) → r x ≡ (q x && p x))
    → filter p (filter q xs) ≡ filter r xs
filter_twice p q r [] h = refl
filter_twice p q r (x ∷ xs) h = grind (arith, filter_twice p q r xs h, h x)

listed : List Bytes → Bytes → Bool
listed [] y = false
listed (x ∷ xs) y = y == x || listed xs y

unfoldable pub unlisted : List Bytes → Bytes → Bool
unfolding listed
unlisted xs y = not (listed xs y)

unlisted_self :
    (xs zs : List Bytes)
    → ((y : Bytes) → listed xs y ≡ true → listed zs y ≡ true)
    → kept (unlisted zs) xs ≡ 0
unfolding unlisted listed
unlisted_self [] zs h = refl
unlisted_self (x ∷ xs) zs h =
    ground
      (arith, unlisted_self xs zs (λ y e. h y (ground (arith, e))), h x (ground (arith, ==_refl x)))

filter_all : (p : Bytes → Bool) (xs : List Bytes) → ((x : Bytes) → p x ≡ true) → filter p xs ≡ xs
filter_all p [] h = refl
filter_all p (x ∷ xs) h = grind (arith, filter_all p xs h, h x)

-- If all files could be removed, the others are left.
pub remove_files_lem :
    (sys : System) (xs names : List Bytes)
    → (remove_files sys xs names).0 ≡ ok tt
    → (remove_files sys xs names).1 ≡ filter (unlisted xs) names
unfolding remove_files unlisted listed
remove_files_lem sys [] names h = sym (filter_all (unlisted []) names (λ x. refl))
remove_files_lem sys (x ∷ xs) names h = elim (Bool-cases (sys.call_fails (remove_file x))) [
  | inl e ↦ absurd (grind (arith, e, h))
  | inr e ↦ grind (
    arith,
    e,
    h,
    remove_files_lem sys xs (without x names),
    filter_twice (unlisted xs) (λ y. not (y == x)) (unlisted (x ∷ xs)) names
        (λ y. not_or (y == x) (listed xs y)),
  )
]
  where
    not_or : (a b : Bool) → not (a || b) ≡ (not a && not b)
    not_or true b = refl
    not_or false b = refl

pub old_files_bound :
    (count : ℕ) (names : List Bytes)
    → kept is_log (filter (unlisted (old_files count names)) names) ≤ count
unfolding old_files unlisted
old_files_bound count names =
    let logs = rev (sort (filter is_log names)) in
    let old = drop count logs in
    let p = unlisted old in
    let swapped : kept is_log (filter p names) ≡ kept p (filter is_log names) =
      ap length (filter_swap p is_log names) in
    let sorted : kept p (filter is_log names) ≡ kept p logs =
      sym (kept-rev p (sort (filter is_log names)) ∙ kept-sort p (filter is_log names)) in
    let parts : kept p logs ≡ kept p (take count logs) + kept p old =
      ap (kept p) (sym (take-append-drop count logs)) ∙ kept-append p (take count logs) old in
    omega (
      arith,
      swapped,
      sorted,
      parts,
      kept_most p (take count logs),
      length-take count logs,
      unlisted_self old old (λ y e. e),
    )
  where
    filter_swap :
        (p q : Bytes → Bool) (xs : List Bytes) → filter q (filter p xs) ≡ filter p (filter q xs)
    filter_swap p q [] = refl
    filter_swap p q (x ∷ xs) = grind (arith, filter_swap p q xs)

abbrev pub is_other : Bytes → Bool
is_other x = not (is_log x)

none_kept :
    (q : Bytes → Bool) (xs : List Bytes) (y : Bytes)
    → kept q xs ≡ 0
    → listed xs y ≡ true
    → q y ≡ false
unfolding listed
none_kept q [] y h e = cc
none_kept q (x ∷ xs) y h e = elim (Bool-cases (y == x)) [
  | inl same ↦ let at : y ≡ x = (==_iff y x).0 same in ground (arith, h, ap q at)
  | inr other ↦ none_kept q xs y (ground (arith, h)) (ground (arith, other, e))
]

pub filter_keeps :
    (p q : Bytes → Bool) (xs : List Bytes)
    → ((y : Bytes) → q y ≡ true → p y ≡ true)
    → filter q (filter p xs) ≡ filter q xs
filter_keeps p q [] h = refl
filter_keeps p q (x ∷ xs) h = grind (arith, filter_keeps p q xs h, h x)

others-old_files : (count : ℕ) (names : List Bytes) → kept is_other (old_files count names) ≡ 0
unfolding old_files
others-old_files count names =
    let logs = rev (sort (filter is_log names)) in
    let parts : kept is_other logs
        ≡ kept is_other (take count logs) + kept is_other (drop count logs) =
      ap (kept is_other) (sym (take-append-drop count logs))
      ∙ kept-append is_other (take count logs) (drop count logs) in
    omega (
      arith,
      parts,
      kept-rev is_other (sort (filter is_log names)),
      kept-sort is_other (filter is_log names),
      none_other names,
    )
  where
    none_other : (xs : List Bytes) → kept is_other (filter is_log xs) ≡ 0
    none_other [] = refl
    none_other (x ∷ xs) = ground (arith, none_other xs)

pub others_stay :
    (count : ℕ) (names : List Bytes)
    → filter is_other (filter (unlisted (old_files count names)) names) ≡ filter is_other names
unfolding unlisted
others_stay count names = filter_keeps (unlisted (old_files count names)) is_other names (λ y e.
    elim (Bool-cases (listed (old_files count names) y)) [
      | inl l ↦
          let no : is_other y ≡ false =
            none_kept is_other (old_files count names) y (others-old_files count names) l in
          cc
      | inr u ↦ ground (arith, u)
    ])
