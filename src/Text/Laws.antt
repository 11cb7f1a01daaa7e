-- ===== src/Text/Laws.antt =====
-- What `strip_prefix`, `split_once` and `split` find.
use adb_daemon_rs.Base.{
  ℕ, ◌≡◌, ◌≢◌, refl, [], ◌∷◌, ◌++◌, Option, none, some, Bytes, nat_eq, All, arith,
}
use adb_daemon_rs.Text.{strip_prefix, split_once, behind, or_else, cut_here}

abbrev pub Lacks : ℕ → Bytes → Type 0
Lacks b = All (λ c. c ≢ b)

pub strip_prefix-append : (p r : Bytes) → strip_prefix p (p ++ r) ≡ some r
unfolding strip_prefix
strip_prefix-append [] r = refl
strip_prefix-append (c ∷ p) r = ground (arith, strip_prefix-append p r)

pub strip_prefix_sound : (p s r : Bytes) → strip_prefix p s ≡ some r → s ≡ p ++ r
unfolding strip_prefix
strip_prefix_sound [] s r h = cc
strip_prefix_sound (c ∷ p) [] r h = cc
strip_prefix_sound (c ∷ p) (d ∷ s) r h = ground (arith, strip_prefix_sound p s r)

split_cases :
    (sep : Bytes) (c : ℕ) (s a b : Bytes) (o : Option Bytes) (r : Option (Bytes × Bytes))
    → strip_prefix sep (c ∷ s) ≡ o
    → split_once sep s ≡ r
    → ((a b : Bytes) → split_once sep s ≡ some (a, b) → s ≡ a ++ (sep ++ b))
    → or_else (cut_here o) (behind c r) ≡ some (a, b)
    → c ∷ s ≡ a ++ (sep ++ b)
split_cases sep c s a b none none eo er ih h = cc
split_cases sep c s a b none (some (x, y)) eo er ih h = cc (ih x y er, h)
split_cases sep c s a b (some rest) r eo er ih h = ground (arith, strip_prefix_sound sep (c ∷ s) b)

pub split_once_sound : (sep s a b : Bytes) → split_once sep s ≡ some (a, b) → s ≡ a ++ (sep ++ b)
unfolding split_once
split_once_sound sep [] a b h = ground (arith, strip_prefix_sound sep [] b)
split_once_sound sep (c ∷ s) a b h =
    split_cases sep c s a b _ _ refl refl (split_once_sound sep s) h

-- The first occurrence of a single byte.
pub split_once-append :
    (c : ℕ) (a b : Bytes) → Lacks c a → split_once (c ∷ []) (a ++ c ∷ b) ≡ some (a, b)
unfolding split_once strip_prefix
split_once-append c [] b h = ground arith
split_once-append c (d ∷ a) b (hd, ha) = ground (arith, split_once-append c a b ha)

pub split_once-Lacks : (c : ℕ) (s : Bytes) → Lacks c s → split_once (c ∷ []) s ≡ none
unfolding split_once strip_prefix
split_once-Lacks c [] h = refl
split_once-Lacks c (d ∷ s) (hd, hs) = ground (arith, split_once-Lacks c s hs)
